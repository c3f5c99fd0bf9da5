-- ===== src/Text/Equality.antt =====
-- Equality of texts as a test, and membership in a list of texts.
use schema_to_table.Prelude.{
  ℕ, ◌≡◌, refl, ◌↔◌, Bool, true, false, ◌&&◌, ◌||◌, List, [], ◌∷◌, ◌++◌, arith, ◌==◌,
}

unfoldable pub same : List ℕ → List ℕ → Bool
same [] [] = true
same (c ∷ s) (d ∷ t) = c == d && same s t
same _ _ = false

pub same→eq : (s t : List ℕ) → same s t ≡ true → s ≡ t
unfolding same
same→eq [] [] h = refl
same→eq [] (d ∷ t) h = ground arith
same→eq (c ∷ s) [] h = ground arith
same→eq (c ∷ s) (d ∷ t) h = ground (arith, same→eq s t)

pub same_refl : (s : List ℕ) → same s s ≡ true
unfolding same
same_refl [] = refl
same_refl (c ∷ s) = ground (arith, same_refl s)

pub same_iff : (s t : List ℕ) → (same s t ≡ true) ↔ (s ≡ t)
same_iff s t = (same→eq s t, λ e. subst_same e)
  where
    subst_same : s ≡ t → same s t ≡ true
    subst_same e = rw e (same_refl t)

-- Whether a text is in a list.
unfoldable pub contains : List (List ℕ) → List ℕ → Bool
contains [] k = false
contains (s ∷ l) k = same s k || contains l k

pub contains-append :
    (l m : List (List ℕ)) (k : List ℕ) → contains (l ++ m) k ≡ (contains l k || contains m k)
unfolding contains
contains-append [] m k = refl
contains-append (s ∷ l) m k = ground (arith, contains-append l m k)

-- No text is listed twice.
abbrev pub Distinct : List (List ℕ) → Type 0
Distinct [] = Unit
Distinct (k ∷ l) = (contains l k ≡ false) × Distinct l

pub Distinct-snoc :
    (l : List (List ℕ)) (k : List ℕ) → contains l k ≡ false → Distinct l → Distinct (l ++ (k ∷ []))
unfolding contains
Distinct-snoc [] k new d = (refl, tt)
Distinct-snoc (j ∷ l) k new (fresh, d) = (
  rw contains-append (ground (arith, same_iff j k, same_iff k j)),
  Distinct-snoc l k (ground arith) d,
)
