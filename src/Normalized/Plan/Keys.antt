-- ===== src/Normalized/Plan/Keys.antt =====
-- The keys of the planned tables: every foreign key is the whole key of a table that stands before.
use schema_to_table.Prelude.{
  ℕ, ◌≡◌, refl, ◌⊎◌, inl, inr, Option, none, some, List, [], ◌∷◌, ◌++◌, All, All-append, arith,
}
use schema_to_table.Text.{Text, codes}
use schema_to_table.Outcome.{ok}
use schema_to_table.Outcome.Laws.{Holds-ok}
use schema_to_table.Schema.Node.{Document, Ptr}
use schema_to_table.Normalized.Model.Walk.{Planned, plan_node-Holds}
use schema_to_table.Normalized.Model.{
  add_model_column, plan_node, ParentKey, TableSpec, Tree, table, Forest, nil, cons, spec,
}
use schema_to_table.Normalized.Plan.{
  table_order, forest_order, child_fk_cols, finish_spec, finish_tree, finish_forest, Model,
}
use schema_to_table.Normalized.Model.{own_key}

-- A key is one of a list.
abbrev pub Among : ParentKey → List ParentKey → Type 0
Among p [] = ⊥
Among p (q ∷ l) = (p ≡ q) ⊎ Among p l

abbrev pub ParentAmong : List ParentKey → Option ParentKey → Type 0
ParentAmong seen none = ⊥
ParentAmong seen (some p) = Among p seen

-- Every table has a parent, and it is one of the tables before it, or of `seen`.
abbrev pub ParentsFirst : List ParentKey → List TableSpec → Type 0
ParentsFirst seen [] = Unit
ParentsFirst seen (t ∷ ts) = ParentAmong seen t.parent × ParentsFirst (own_key t ∷ seen) ts

abbrev Includes : List ParentKey → List ParentKey → Type 0
Includes l m = (p : ParentKey) → Among p l → Among p m

Includes-cons : (q : ParentKey) (l m : List ParentKey) → Includes l m → Includes (q ∷ l) (q ∷ m)
Includes-cons q l m h p (inl e) = inl e
Includes-cons q l m h p (inr a) = inr (h p a)

ParentAmong-mono :
    (l m : List ParentKey) (o : Option ParentKey) → Includes l m → ParentAmong l o → ParentAmong m o
ParentAmong-mono l m none h a = a
ParentAmong-mono l m (some p) h a = h p a

ParentsFirst-mono :
    (l m : List ParentKey) (ts : List TableSpec)
    → Includes l m
    → ParentsFirst l ts
    → ParentsFirst m ts
ParentsFirst-mono l m [] h f = tt
ParentsFirst-mono l m (t ∷ ts) h (a, f) = (
  ParentAmong-mono l m t.parent h a,
  ParentsFirst-mono (own_key t ∷ l) (own_key t ∷ m) ts (Includes-cons (own_key t) l m h) f,
)

ParentsFirst-append :
    (seen : List ParentKey) (xs ys : List TableSpec)
    → ParentsFirst seen xs
    → ParentsFirst seen ys
    → ParentsFirst seen (xs ++ ys)
ParentsFirst-append seen [] ys f g = g
ParentsFirst-append seen (t ∷ xs) ys (a, f) g = (
  a,
  ParentsFirst-append (own_key t ∷ seen) xs ys f
      (ParentsFirst-mono seen (own_key t ∷ seen) ys (λ p b. inr b) g),
)

-- What holds of every finished child of `p`.
parent-finish_spec : (p : ParentKey) (t : TableSpec) → (finish_spec p t).parent ≡ some p
unfolding finish_spec
parent-finish_spec p t = refl

mutual
  unfolding finish_tree table_order

  finish_tree-ParentsFirst :
      (t : Tree) (p : ParentKey) (seen : List ParentKey)
      → Among p seen
      → ParentsFirst seen (table_order (finish_tree p t))
  finish_tree-ParentsFirst (table t ts) p seen a = (
    rw parent-finish_spec a,
    finish_forest-ParentsFirst ts (own_key (finish_spec p t)) (own_key (finish_spec p t) ∷ seen)
        (inl refl),
  )

  finish_forest-ParentsFirst :
      (ts : Forest) (p : ParentKey) (seen : List ParentKey)
      → Among p seen
      → ParentsFirst seen (forest_order (finish_forest p ts))
  finish_forest-ParentsFirst nil p seen a = tt
  finish_forest-ParentsFirst (cons t ts) p seen a =
      ParentsFirst-append seen (table_order (finish_tree p t)) (forest_order (finish_forest p ts))
        (finish_tree-ParentsFirst t p seen a) (finish_forest-ParentsFirst ts p seen a)

-- The table has a foreign key to `p`: as many columns, of the same types, as the key of `p`; the table's own key
-- is that and the row number.
abbrev pub KeyedTo : Option ParentKey → TableSpec → Type 0
KeyedTo none t = ⊥
KeyedTo (some p) t =
    (t.fk_cols ≡ child_fk_cols p)
    × (t.fk_col_types ≡ p.key_col_types)
    × (t.key_cols ≡ t.fk_cols ++ (t.row_no_col ∷ []))
    × (t.key_col_types ≡ t.fk_col_types ++ (codes "INT" ∷ []))

abbrev pub IsKeyed : TableSpec → Type 0
IsKeyed t = KeyedTo t.parent t

finish_spec-IsKeyed : (p : ParentKey) (t : TableSpec) → IsKeyed (finish_spec p t)
unfolding finish_spec
finish_spec-IsKeyed p t = (refl, refl, refl, refl)

mutual
  unfolding finish_tree table_order

  finish_tree-IsKeyed : (t : Tree) (p : ParentKey) → All IsKeyed (table_order (finish_tree p t))
  finish_tree-IsKeyed (table t ts) p =
      (finish_spec-IsKeyed p t, finish_forest-IsKeyed ts (own_key (finish_spec p t)))

  finish_forest-IsKeyed :
      (ts : Forest) (p : ParentKey) → All IsKeyed (forest_order (finish_forest p ts))
  finish_forest-IsKeyed nil p = tt
  finish_forest-IsKeyed (cons t ts) p =
      All-append IsKeyed (table_order (finish_tree p t)) _ (finish_tree-IsKeyed t p)
        (finish_forest-IsKeyed ts p)

-- The first table is the root, which has no parent and one key column; every other table has a
-- parent before it, and a foreign key to the parent's whole key.
pub record IsKeyedFrom (pk : Text) (tables : List TableSpec) : Type 0 where
  pub root : TableSpec
  pub rest : List TableSpec
  pub split : tables ≡ root ∷ rest
  pub no_parent : root.parent ≡ none
  pub root_key : root.key_cols ≡ pk ∷ []
  pub parents_first : ParentsFirst (own_key root ∷ []) rest
  pub keyed : All IsKeyed rest

module _ (doc : Document) (fuel : ℕ) (s : Ptr) where
  -- planNode sets no parent.
  pub planned-parent :
      (t : TableSpec) (planned : Tree)
      → t.parent ≡ none
      → plan_node doc fuel [] [] s (table t nil) ≡ ok planned
      → (spec planned).parent ≡ none
  planned-parent t planned h ran = at_root planned (
      Holds-ok (Planned (λ _. Unit) (λ _ _. Unit) no_parent) _ planned
        (plan_node-Holds (λ _. Unit) (λ _ _. Unit) (λ n ty c e. tt) (λ n ty c d e. tt)
          (λ n ty c d e. tt) (λ c p g i d v. (tt, tt)) doc fuel [] no_parent no_parent-add [] s
          (table t nil) (h, tt))
        ran)
    where
      no_parent : TableSpec → Type 0
      no_parent c = c.parent ≡ none

      no_parent-add :
          (n ty : Text) (c : TableSpec) → no_parent c → no_parent (add_model_column n ty c)
      no_parent-add n ty c e = unfold add_model_column in ground arith

      at_root :
          (tree : Tree)
          → Planned (λ _. Unit) (λ _ _. Unit) no_parent tree
          → (spec tree).parent ≡ none
      at_root (table c cs) q = q.0
