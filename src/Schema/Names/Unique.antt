-- ===== src/Schema/Names/Unique.antt =====
-- SortedKeys of two maps with the same keys is one list.
use schema_to_table.Prelude.{◌≡◌, refl, sym, ◌∙◌, true, false, List, [], ◌∷◌, arith}
use schema_to_table.Text.{Text, text_le}
use schema_to_table.Text.Equality.{same_iff, same_refl, contains, Distinct}
use schema_to_table.Maps.{keys}
use schema_to_table.Schema.Names.{insert_text, sort_texts, sorted_keys}
use schema_to_table.Schema.Names.Sorted.{
  IsSorted, IsSorted-tail, IsSorted-least, sort_texts-IsSorted, contains-sort_texts,
  contains-insert_text,
}

text_le_antisym : (s t : Text) → text_le s t ≡ true → text_le t s ≡ true → s ≡ t
unfolding text_le
text_le_antisym [] [] h k = refl
text_le_antisym [] (d ∷ t) h k = cc
text_le_antisym (c ∷ s) [] h k = cc
text_le_antisym (c ∷ s) (d ∷ t) h k = ground (arith, text_le_antisym s t)

insert_text-Distinct :
    (k : Text) (l : List Text) → contains l k ≡ false → Distinct l → Distinct (insert_text k l)
unfolding insert_text contains
insert_text-Distinct k [] h d = (refl, tt)
insert_text-Distinct k (j ∷ l) h (fresh, d) =
    ground (arith, insert_text-Distinct k l, contains-insert_text k j l, same_iff j k, same_iff k j)

sort_texts-Distinct : (l : List Text) → Distinct l → Distinct (sort_texts l)
unfolding sort_texts
sort_texts-Distinct [] d = tt
sort_texts-Distinct (k ∷ l) (fresh, d) =
    insert_text-Distinct k (sort_texts l) (rw (contains-sort_texts l k) fresh)
      (sort_texts-Distinct l d)

contains_head : (x : Text) (l : List Text) → contains (x ∷ l) x ≡ true
unfolding contains
contains_head x l = rw same_refl refl

-- Two lists have the same texts.
abbrev pub SameTexts : List Text → List Text → Type 0
SameTexts l m = (k : Text) → contains l k ≡ contains m k

SameTexts-tail :
    (x : Text) (l m : List Text)
    → contains l x ≡ false
    → contains m x ≡ false
    → SameTexts (x ∷ l) (x ∷ m)
    → SameTexts l m
unfolding contains
SameTexts-tail x l m f g h k = ground (arith, h k, same_iff x k)

sorted_unique :
    (l m : List Text) → IsSorted l × Distinct l → IsSorted m × Distinct m → SameTexts l m → l ≡ m
sorted_unique [] [] sl sm h = refl
sorted_unique [] (y ∷ m) sl sm h = absurd (unfold contains in cc (h y, contains_head y m))
sorted_unique (x ∷ l) [] sl sm h = absurd (unfold contains in cc (h x, contains_head x l))
sorted_unique (x ∷ l) (y ∷ m) (sl, (fx, dl)) (sm, (fy, dm)) h =
    let e : x ≡ y =
      text_le_antisym x y (IsSorted-least x y l sl (h y ∙ contains_head y m))
        (IsSorted-least y x m sm (sym (h x) ∙ contains_head x l)) in
    rw
      (
        e,
        sorted_unique l m (IsSorted-tail x l sl, dl) (IsSorted-tail y m sm, dm)
            (SameTexts-tail x l m fx (rw e fy) (rw (← e) at h)),
      )
      refl

-- The sorted keys of two maps with different keys are the same if the keys are.
pub sorted_keys_unique {ℓ κ} :
    {V : Type ℓ} {W : Type κ} (m : List (Text × V)) (n : List (Text × W))
    → Distinct (keys m)
    → Distinct (keys n)
    → SameTexts (keys m) (keys n)
    → sorted_keys m ≡ sorted_keys n
unfolding sorted_keys
sorted_keys_unique m n dm dn h =
    sorted_unique (sort_texts (keys m)) (sort_texts (keys n))
      (sort_texts-IsSorted (keys m), sort_texts-Distinct (keys m) dm)
      (sort_texts-IsSorted (keys n), sort_texts-Distinct (keys n) dn)
      (λ k. contains-sort_texts (keys m) k ∙ (h k ∙ sym (contains-sort_texts (keys n) k)))
