-- ===== src/Maps.antt =====
-- Go maps with text keys, as lists of entries with different keys.
use schema_to_table.Prelude.{
  ◌≡◌, refl, ◌||◌, Option, none, some, List, [], ◌∷◌, map, arith, if◌then◌else◌,
}
use schema_to_table.Text.{Text}
use schema_to_table.Text.Equality.{same, same_iff, contains, Distinct}

module _ {ℓ} {V : Type ℓ} where
  -- v, ok := m[k]
  unfoldable pub lookup : Text → List (Text × V) → Option V
  lookup k [] = none
  lookup k ((j, v) ∷ m) = if same j k then some v else lookup k m

  -- m[k] = v
  unfoldable pub put : Text → V → List (Text × V) → List (Text × V)
  put k v [] = (k, v) ∷ []
  put k v ((j, w) ∷ m) = if same j k then (k, v) ∷ m else (j, w) ∷ put k v m

  -- The keys of a map.
  abbrev pub keys : List (Text × V) → List Text
  keys m = map (λ e. e.0) m

  pub contains-keys-put :
      (k j : Text) (v : V) (m : List (Text × V))
      → contains (keys (put k v m)) j ≡ (same k j || contains (keys m) j)
  unfolding put contains
  contains-keys-put k j v [] = refl
  contains-keys-put k j v ((i, w) ∷ m) =
      ground (arith, contains-keys-put k j v m, same_iff i k, same_iff k j, same_iff i j)

  pub lookup-put :
      (k j : Text) (v : V) (m : List (Text × V))
      → lookup j (put k v m) ≡ (if same k j then some v else lookup j m)
  unfolding put lookup
  lookup-put k j v [] = refl
  lookup-put k j v ((i, w) ∷ m) =
      ground (arith, lookup-put k j v m, same_iff i k, same_iff k j, same_iff i j)

  pub put-Distinct :
      (k : Text) (v : V) (m : List (Text × V)) → Distinct (keys m) → Distinct (keys (put k v m))
  unfolding put contains
  put-Distinct k v [] d = (refl, tt)
  put-Distinct k v ((j, w) ∷ m) (fresh, d) =
      ground (arith, put-Distinct k v m d, contains-keys-put k j v m, same_iff j k, same_iff k j)
