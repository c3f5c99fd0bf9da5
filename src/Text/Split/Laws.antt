-- ===== src/Text/Split/Laws.antt =====
-- Splitting and cutting undo joining, and trimming leaves a text that has no space at its ends.
use schema_to_table.Prelude.{ℕ, ◌≡◌, refl, false, some, List, [], ◌∷◌, ◌++◌, All, ap, ◌==◌, ==_iff}
use schema_to_table.Text.{Text, is_space, trim_left, trim_right, trim_space, join}
use schema_to_table.Text.Split.{split, cut}

-- The character is not in the text.
abbrev pub Without : ℕ → Text → Type 0
Without q [] = Unit
Without q (c ∷ s) = ((c == q) ≡ false) × Without q s

pub Without-append : (q : ℕ) (s t : Text) → Without q s → Without q t → Without q (s ++ t)
Without-append q [] t a b = b
Without-append q (c ∷ s) t (e, a) b = (e, Without-append q s t a b)

pub split_one : (sep : ℕ) (s : Text) → Without sep s → split sep s ≡ s ∷ []
unfolding split
split_one sep [] h = refl
split_one sep (c ∷ s) (e, h) = rw (e, split_one sep s h) refl

pub split-append :
    (sep : ℕ) (s rest : Text) → Without sep s → split sep (s ++ (sep ∷ rest)) ≡ s ∷ split sep rest
unfolding split
split-append sep [] rest h = rw ((==_iff sep sep).1 refl) refl
split-append sep (c ∷ s) rest (e, h) = rw (e, split-append sep s rest h) refl

pub split-join :
    (sep : ℕ) (part : Text) (parts : List Text)
    → All (Without sep) (part ∷ parts)
    → split sep (join (sep ∷ []) (part ∷ parts)) ≡ part ∷ parts
unfolding join
split-join sep part [] (a, h) = split_one sep part a
split-join sep part (next ∷ parts) (a, h) =
    rw (split-append sep part (join (sep ∷ []) (next ∷ parts)) a)
      (ap (λ l. part ∷ l) (split-join sep next parts h))

pub cut-append :
    (sep : ℕ) (s rest : Text) → Without sep s → cut sep (s ++ (sep ∷ rest)) ≡ some (s, rest)
unfolding cut
cut-append sep [] rest h = rw ((==_iff sep sep).1 refl) refl
cut-append sep (c ∷ s) rest (e, h) = rw (e, cut-append sep s rest h) refl

-- The text begins, or ends, with no space.
abbrev pub StartsSolid : Text → Type 0
StartsSolid [] = Unit
StartsSolid (c ∷ s) = is_space c ≡ false

abbrev pub EndsSolid : Text → Type 0
EndsSolid [] = Unit
EndsSolid (c ∷ []) = is_space c ≡ false
EndsSolid (c ∷ d ∷ s) = EndsSolid (d ∷ s)

pub EndsSolid-append : (s : Text) (c : ℕ) (t : Text) → EndsSolid (c ∷ t) → EndsSolid (s ++ (c ∷ t))
EndsSolid-append [] c t h = h
EndsSolid-append (d ∷ []) c t h = h
EndsSolid-append (d ∷ e ∷ s) c t h = EndsSolid-append (e ∷ s) c t h

trim_left_solid : (s : Text) → StartsSolid s → trim_left s ≡ s
unfolding trim_left
trim_left_solid [] h = refl
trim_left_solid (c ∷ s) h = rw h refl

trim_right_solid : (s : Text) → EndsSolid s → trim_right s ≡ s
unfolding trim_right
trim_right_solid [] h = refl
trim_right_solid (c ∷ []) h = rw h refl
trim_right_solid (c ∷ d ∷ s) h = rw (trim_right_solid (d ∷ s) h) refl

pub trim_space_solid : (s : Text) → StartsSolid s → EndsSolid s → trim_space s ≡ s
unfolding trim_space
trim_space_solid s a b = rw (trim_left_solid s a) (trim_right_solid s b)
