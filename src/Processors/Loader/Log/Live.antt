-- ===== src/Processors/Loader/Log/Live.antt =====
-- The entries of the cache that have not expired, under a sweep.
use schema_to_table.Prelude.{
  ℕ, ◌≤◌, ◌≡◌, refl, ap, false, Option, none, some, List, [], ◌∷◌, arith, inl, inr, Bool-cases, ltb,
  if◌then◌else◌,
}
use schema_to_table.Text.{Text}
use schema_to_table.Text.Equality.{same, same_iff, contains, Distinct}
use schema_to_table.Maps.{lookup, keys}
use schema_to_table.Processors.Loader.{CacheEntry, drop_expired}

-- The document of an entry that has not expired.
unfoldable pub live : ℕ → Option CacheEntry → Option Text
live now none = none
live now (some e) = if ltb now e.expires_at then some e.doc else none

contains-drop_expired :
    (s : ℕ) (cache : List (Text × CacheEntry)) (k : Text)
    → contains (keys cache) k ≡ false
    → contains (keys (drop_expired s cache)) k ≡ false
unfolding drop_expired contains
contains-drop_expired s [] k h = refl
contains-drop_expired s ((u, e) ∷ cache) k h = elim (Bool-cases (ltb s e.expires_at)) [
  | inl f ↦ rw f (ground (arith, contains-drop_expired s cache k))
  | inr f ↦ rw f (contains-drop_expired s cache k (ground arith))
]

pub drop_expired-Distinct :
    (s : ℕ) (cache : List (Text × CacheEntry))
    → Distinct (keys cache)
    → Distinct (keys (drop_expired s cache))
unfolding drop_expired
drop_expired-Distinct s [] d = tt
drop_expired-Distinct s ((u, e) ∷ cache) (fresh, d) = elim (Bool-cases (ltb s e.expires_at)) [
  | inl f ↦ rw f (contains-drop_expired s cache u fresh, drop_expired-Distinct s cache d)
  | inr f ↦ rw f (drop_expired-Distinct s cache d)
]

lookup_missing :
    (k : Text) (cache : List (Text × CacheEntry))
    → contains (keys cache) k ≡ false
    → lookup k cache ≡ none
unfolding lookup contains
lookup_missing k [] h = refl
lookup_missing k ((u, e) ∷ cache) h = ground (arith, lookup_missing k cache)

-- What is dropped was not live.
pub live-drop_expired :
    (s now : ℕ) (k : Text) (cache : List (Text × CacheEntry))
    → s ≤ now
    → Distinct (keys cache)
    → live now (lookup k (drop_expired s cache)) ≡ live now (lookup k cache)
unfolding live drop_expired lookup
live-drop_expired s now k [] h d = refl
live-drop_expired s now k ((u, e) ∷ cache) h (fresh, d) = elim (Bool-cases (ltb s e.expires_at)) [
  | inl f ↦ elim (Bool-cases (same u k)) [
    | inl x ↦ rw (f, x) refl
    | inr x ↦ rw (f, x) (live-drop_expired s now k cache h d)
  ]
  | inr f ↦ elim (Bool-cases (same u k)) [
    | inl x ↦
        let late : ltb now e.expires_at ≡ false = ground arith in
        rw (f, x, late, live-drop_expired s now k cache h d)
          (ap (live now) (lookup_missing k cache (rw (← (same_iff u k).0 x) fresh)))
    | inr x ↦ rw (f, x) (live-drop_expired s now k cache h d)
  ]
]
