-- ===== src/Normalized/Plan/Shape.antt =====
-- The columns of a finished child table: its foreign key, the row number, and payload columns of
-- other names.
use schema_to_table.Prelude.{
  ℕ, ◌≡◌, refl, ◌⊎◌, inl, inr, false, Option, none, some, List, [], ◌∷◌, ◌++◌, append_assoc, length,
  length-map, length-append, All, All-append, arith, Bool-cases,
}
use schema_to_table.Text.{Text, codes, is_empty}
use schema_to_table.Text.Equality.{contains, contains-append}
use schema_to_table.Schema.Types.{Column}
use schema_to_table.Normalized.Model.{
  ParentKey, TableSpec, Tree, table, Forest, nil, cons, spec, names, add_model_column, plan_node,
}
use schema_to_table.Normalized.Model.Walk.{Below, Planned, Stays, plan_node-Holds}
use schema_to_table.Normalized.Plan.Result.{plan-IsResult}
use schema_to_table.Outcome.{ok}
use schema_to_table.Outcome.Laws.{Holds-ok}
use schema_to_table.Schema.Node.{Document, Ptr}
use schema_to_table.Normalized.Plan.{
  table_order, forest_order, child_fk_cols, zip_columns, drop_taken, finish_spec, finish_tree,
  finish_forest, with_key, pk_type, plan, Model,
}
use schema_to_table.Normalized.Model.{own_key}

-- The name is none of those.
abbrev pub Free : List Text → Column → Type 0
Free taken c = contains taken c.name ≡ false

pub record IsRow (t : TableSpec) : Type 0 where
  pub rest : List Column
  pub split :
      t.columns
      ≡ zip_columns t.fk_cols t.fk_col_types
        ++ (record { name = t.row_no_col; type = codes "INT" } ∷ rest)
  pub free : All (Free (t.row_no_col ∷ t.fk_cols)) rest
  pub typed : length t.fk_cols ≡ length t.fk_col_types

drop_taken-Free :
    (taken : List Text) (cols : List Column) → All (Free taken) (drop_taken taken cols)
unfolding drop_taken
drop_taken-Free taken [] = tt
drop_taken-Free taken (c ∷ cols) = elim (Bool-cases (contains taken c.name)) [
  | inl e ↦ rw e (drop_taken-Free taken cols)
  | inr e ↦ rw e (e, drop_taken-Free taken cols)
]

pub names-zip_columns : (ns ts : List Text) → length ns ≡ length ts → names (zip_columns ns ts) ≡ ns
unfolding zip_columns
names-zip_columns [] ts h = refl
names-zip_columns (n ∷ ns) [] h = absurd (omega arith)
names-zip_columns (n ∷ ns) (t ∷ ts) h = rw (names-zip_columns ns ts (omega arith))

pub names-append : (xs ys : List Column) → names (xs ++ ys) ≡ names xs ++ names ys
names-append [] ys = refl
names-append (x ∷ xs) ys = rw (names-append xs ys)

-- The keys are the same in another order.
Free-swap :
    (k : Text) (l : List Text) (cols : List Column)
    → All (Free (l ++ (k ∷ []))) cols
    → All (Free (k ∷ l)) cols
unfolding contains
Free-swap k l [] h = tt
Free-swap k l (c ∷ cols) (f, h) =
    (ground (arith, contains-append l (k ∷ []) c.name), Free-swap k l cols h)

module _ (p : ParentKey) (t : TableSpec)
    (lengths : length p.key_cols ≡ length p.key_col_types) where
  length-child_fk_cols : length (child_fk_cols p) ≡ length p.key_cols
  unfolding child_fk_cols
  length-child_fk_cols = length-map _ p.key_cols

  module _ (named : is_empty t.row_no_col ≡ false) where
    finish_spec-IsRow : IsRow (finish_spec p t)
    unfolding finish_spec
    finish_spec-IsRow = record {
      rest = drop_taken (names keys) t.columns;
      split = rw named (append_assoc (zip_columns (child_fk_cols p) p.key_col_types) _ _);
      free =
          Free-swap t.row_no_col (child_fk_cols p) _
            (rw (← key_names) (drop_taken-Free (names keys) t.columns));
      typed = omega (arith, length-child_fk_cols);
    }
      where
        keys : List Column
        keys =
            zip_columns (child_fk_cols p) p.key_col_types
            ++ (record { name = t.row_no_col; type = codes "INT" } ∷ [])

        key_names : names keys ≡ child_fk_cols p ++ (t.row_no_col ∷ [])
        key_names = rw (
          names-append,
          names-zip_columns (child_fk_cols p) p.key_col_types (omega (arith, length-child_fk_cols)),
        )

  length-own_key : let q = own_key (finish_spec p t) in length q.key_cols ≡ length q.key_col_types
  unfolding finish_spec
  length-own_key = omega (
    arith,
    length-append (child_fk_cols p) (t.row_no_col ∷ []),
    length-append p.key_col_types (codes "INT" ∷ []),
    length-child_fk_cols,
  )

-- The root has no parent, and every other table has the shape of a finished child.
abbrev pub RootOrRow : TableSpec → Type 0
RootOrRow t = (t.parent ≡ none) ⊎ IsRow t

abbrev RowNo : TableSpec → Type 0
RowNo t = is_empty t.row_no_col ≡ false

mutual
  unfolding finish_tree table_order

  finish_tree-IsRow :
      (t : Tree) (p : ParentKey)
      → length p.key_cols ≡ length p.key_col_types
      → Planned RowNo (λ _ _. Unit) RowNo t
      → All IsRow (table_order (finish_tree p t))
  finish_tree-IsRow (table t ts) p l (r, b) = (
    finish_spec-IsRow p t l r,
    finish_forest-IsRow ts (own_key (finish_spec p t)) t (length-own_key p t l) b,
  )

  finish_forest-IsRow :
      (ts : Forest) (p : ParentKey) (t : TableSpec)
      → length p.key_cols ≡ length p.key_col_types
      → Below RowNo (λ _ _. Unit) t ts
      → All IsRow (forest_order (finish_forest p ts))
  finish_forest-IsRow nil p t l b = tt
  finish_forest-IsRow (cons (table c cs) rest) p t l ((r, _), bc, b) =
      All-append IsRow (table_order (finish_tree p (table c cs))) _
        (finish_tree-IsRow (table c cs) p l (r, bc)) (finish_forest-IsRow rest p t l b)

-- planNode leaves the row number column of every table named.
Planned-RowNo :
    (doc : Document) (fuel : ℕ) (s : Ptr) (t : TableSpec) (planned : Tree)
    → (t.parent ≡ none) × RowNo t
    → plan_node doc fuel [] [] s (table t nil) ≡ ok planned
    → Planned RowNo (λ _ _. Unit) (λ c. (c.parent ≡ none) × RowNo c) planned
Planned-RowNo doc fuel s t planned h ran =
    Holds-ok (Planned RowNo (λ _ _. Unit) K) _ planned
      (plan_node-Holds RowNo (λ _ _. Unit) row_no-add (λ n ty c d e. tt) (λ n ty c d e. tt)
        (λ c p g i d v. (refl, tt)) doc fuel [] K K-add [] s (table t nil) (h, tt))
      ran
  where
    K : TableSpec → Type 0
    K c = (c.parent ≡ none) × RowNo c

    row_no-add : Stays RowNo
    row_no-add n ty c e = unfold add_model_column in ground arith

    K-add : Stays K
    K-add n ty c e = unfold add_model_column in ground arith

-- The first table is the root, which has no parent, and every other table is a finished child.
abbrev pub RootThenRows : List TableSpec → Type 0
RootThenRows tables =
    (root : TableSpec) × (rest : List TableSpec) × (tables ≡ root ∷ rest)
    × (root.parent ≡ none)
    × All IsRow rest

pub RootThenRows-RootOrRow : (tables : List TableSpec) → RootThenRows tables → All RootOrRow tables
RootThenRows-RootOrRow tables (root, rest, e, h, rows) = rw e (inl h, at_rest rest rows)
  where
    at_rest : (ts : List TableSpec) → All IsRow ts → All RootOrRow ts
    at_rest [] h = tt
    at_rest (t ∷ ts) (r, h) = (inr r, at_rest ts h)

-- The first table that Plan returns is the root, without a parent; the columns of every other table
-- are its foreign key, the row number, and payload columns under other names.
pub plan-IsRow :
    (fuel : ℕ) (unmarshal : Text → Option Document) (schema_doc table_name pk : Text)
    (headers : List (Text × Text)) (m : Model)
    → plan fuel unmarshal schema_doc table_name pk headers ≡ ok m
    → RootThenRows m.tables
plan-IsRow fuel unmarshal schema_doc table_name pk headers m h =
    let r = plan-IsResult fuel unmarshal schema_doc table_name pk headers m h in
    rw (r.tables_ordered, r.tree_finished)
      (at_tree r.planned
        (Planned-RowNo m.doc fuel (some m.doc.root) _ r.planned (refl, refl) r.ran))
  where
    at_tree :
        (planned : Tree)
        → Planned RowNo (λ _ _. Unit) (λ c. (c.parent ≡ none) × RowNo c) planned
        → RootThenRows (table_order (with_key pk (pk_type pk (spec planned).columns []) planned))
    at_tree (table t ts) ((e, r), b) =
        unfold with_key table_order in (_, _, refl, e, finish_forest-IsRow ts _ t refl b)
