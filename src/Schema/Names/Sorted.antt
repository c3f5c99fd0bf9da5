-- ===== src/Schema/Names/Sorted.antt =====
-- SortedKeys returns the keys of a map, each as often as it is there, in ascending order.
use mathlib.Core.List.{Perm}
use mathlib.Core.List.Perm
use schema_to_table.Prelude.{
  ◌≡◌, refl, inl, inr, true, false, List, [], ◌∷◌, arith, Bool-cases, ◌||◌,
}
use schema_to_table.Text.{Text, text_le}
use schema_to_table.Text.Equality.{same, same_iff, contains}
use schema_to_table.Schema.Names.{insert_text, sort_texts, sorted_keys}
use schema_to_table.Maps.{keys}

-- In ascending order.
abbrev pub IsSorted : List Text → Type 0
IsSorted [] = Unit
IsSorted (k ∷ []) = Unit
IsSorted (k ∷ j ∷ l) = (text_le k j ≡ true) × IsSorted (j ∷ l)

text_le_total : (s t : Text) → text_le s t ≡ false → text_le t s ≡ true
unfolding text_le
text_le_total [] t h = cc
text_le_total (c ∷ s) [] h = refl
text_le_total (c ∷ s) (d ∷ t) h = ground (arith, text_le_total s t)

insert_text-IsSorted : (k : Text) (l : List Text) → IsSorted l → IsSorted (insert_text k l)
unfolding insert_text
insert_text-IsSorted k [] h = tt
insert_text-IsSorted k (j ∷ []) h = ground (arith, text_le_total k j)
insert_text-IsSorted k (j ∷ i ∷ l) (ji, h) =
    ground (arith, text_le_total k j, insert_text-IsSorted k (i ∷ l) h)

pub sort_texts-IsSorted : (l : List Text) → IsSorted (sort_texts l)
unfolding sort_texts
sort_texts-IsSorted [] = tt
sort_texts-IsSorted (k ∷ l) = insert_text-IsSorted k (sort_texts l) (sort_texts-IsSorted l)

insert_text-perm : (k : Text) (l : List Text) → Perm (insert_text k l) (k ∷ l)
unfolding insert_text
insert_text-perm k [] = Perm.refl (k ∷ [])
insert_text-perm k (j ∷ l) = elim (Bool-cases (text_le k j)) [
  | inl le ↦ rw le (Perm.refl (k ∷ j ∷ l))
  | inr gt ↦ rw gt (Perm.trans (Perm.cons j (insert_text-perm k l)) (Perm.swap k j l))
]

sort_texts-perm : (l : List Text) → Perm (sort_texts l) l
unfolding sort_texts
sort_texts-perm [] = Perm.refl []
sort_texts-perm (k ∷ l) =
    Perm.trans (insert_text-perm k (sort_texts l)) (Perm.cons k (sort_texts-perm l))

-- SortedKeys returns the keys of a map in ascending order, each of them as often as the map has it.
pub sorted_keys-IsSorted :
    {V : Type 0} (m : List (Text × V)) → IsSorted (sorted_keys m) × Perm (sorted_keys m) (keys m)
unfolding sorted_keys
sorted_keys-IsSorted m = (sort_texts-IsSorted (keys m), sort_texts-perm (keys m))

insert_text_least : (k : Text) (l : List Text) → IsSorted (k ∷ l) → insert_text k l ≡ k ∷ l
unfolding insert_text
insert_text_least k [] h = refl
insert_text_least k (j ∷ l) (le, h) = rw le

sort_texts-sorted : (l : List Text) → IsSorted l → sort_texts l ≡ l
unfolding sort_texts
sort_texts-sorted [] h = refl
sort_texts-sorted (k ∷ []) h = insert_text_least k [] tt
sort_texts-sorted (k ∷ j ∷ l) (le, h) =
    rw (sort_texts-sorted (j ∷ l) h) (insert_text_least k (j ∷ l) (le, h))

-- Sorting a second time changes nothing.
pub sort_texts_idem : (l : List Text) → sort_texts (sort_texts l) ≡ sort_texts l
sort_texts_idem l = sort_texts-sorted (sort_texts l) (sort_texts-IsSorted l)

pub IsSorted-tail : (k : Text) (l : List Text) → IsSorted (k ∷ l) → IsSorted l
IsSorted-tail k [] h = tt
IsSorted-tail k (j ∷ l) (le, h) = h

-- The order is transitive, so the first of a sorted list is its least.
pub text_le_trans : (r s t : Text) → text_le r s ≡ true → text_le s t ≡ true → text_le r t ≡ true
unfolding text_le
text_le_trans [] s t h k = refl
text_le_trans (a ∷ r) [] t h k = cc
text_le_trans (a ∷ r) (b ∷ s) [] h k = cc
text_le_trans (a ∷ r) (b ∷ s) (c ∷ t) h k = ground (arith, text_le_trans r s t)

text_le_refl : (s : Text) → text_le s s ≡ true
unfolding text_le
text_le_refl [] = refl
text_le_refl (c ∷ s) = ground (arith, text_le_refl s)

pub IsSorted-least :
    (j k : Text) (l : List Text) → IsSorted (j ∷ l) → contains (j ∷ l) k ≡ true → text_le j k ≡ true
unfolding contains
IsSorted-least j k [] h m = ground (arith, same_iff j k, text_le_refl k)
IsSorted-least j k (i ∷ l) (le, h) m = elim (Bool-cases (same j k)) [
  | inl e ↦ rw ((same_iff j k).0 e) (text_le_refl k)
  | inr e ↦ text_le_trans j i k le (IsSorted-least i k l h (rw e at m))
]

pub contains-insert_text :
    (k j : Text) (l : List Text) → contains (insert_text k l) j ≡ (same k j || contains l j)
unfolding insert_text contains
contains-insert_text k j [] = refl
contains-insert_text k j (i ∷ l) = ground (arith, contains-insert_text k j l)

pub contains-sort_texts : (l : List Text) (k : Text) → contains (sort_texts l) k ≡ contains l k
unfolding sort_texts contains
contains-sort_texts [] k = refl
contains-sort_texts (j ∷ l) k = rw (contains-insert_text, contains-sort_texts l k)
