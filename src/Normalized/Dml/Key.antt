-- ===== src/Normalized/Dml/Key.antt =====
-- The key of the root row, and the tables below the root.
use schema_to_table.Prelude.{
  ℕ, ◌≡◌, refl, ◌∙◌, ap, ◌⊎◌, inl, inr, true, false, Option, none, some, List, [], ◌∷◌, ◌++◌, arith,
  All, Bool-cases,
}
use schema_to_table.Text.{Text, codes, is_empty}
use schema_to_table.Text.Equality.{same, same_iff, contains}
use schema_to_table.Maps.{lookup}
use schema_to_table.Outcome.{ok}
use schema_to_table.Outcome.Laws.{Holds-ok}
use schema_to_table.Schema.Node.{Document, Ptr}
use schema_to_table.Schema.Types.{Column}
use schema_to_table.Schema.Values.{Values}
use schema_to_table.Normalized.Model.{
  TableSpec, Tree, table, Forest, nil, cons, spec, arrays, names, add_model_column, plan_node,
}
use schema_to_table.Normalized.Model.Walk.{Planned, plan_node-Holds}
use schema_to_table.Normalized.Plan.{
  Model, plan, with_key, pk_type, child_fk_cols, finish_spec, finish_tree, finish_forest,
}
use schema_to_table.Normalized.Model.{own_key}
use schema_to_table.Normalized.Plan.Result.{plan-IsResult}
use schema_to_table.Normalized.Plan.Keys.{planned-parent}
use schema_to_table.Normalized.Plan.Shape.{RootOrRow, RootThenRows-RootOrRow, plan-IsRow}
use schema_to_table.Normalized.Dml.Listed.{Listed, Held, table_order-Held}
use schema_to_table.Normalized.Dml.{column_cells}

-- Every table of the forest has a foreign key to the whole key of its parent, and its own key is
-- that and the row number. `p` is the parent of the first ones.
abbrev pub Under : TableSpec → Forest → Type 0
Under p nil = Unit
Under p (cons (table t ts) rest) =
    ((t.parent ≡ some (own_key p))
      × (t.fk_cols ≡ child_fk_cols (own_key p))
      × (t.key_cols ≡ t.fk_cols ++ (t.row_no_col ∷ [])))
    × Under t ts
    × Under p rest

finish_forest-Under : (p : TableSpec) (ts : Forest) → Under p (finish_forest (own_key p) ts)
unfolding finish_tree finish_spec
finish_forest-Under p nil = tt
finish_forest-Under p (cons (table t ts) rest) = (
  (refl, refl, refl),
  finish_forest-Under (finish_spec (own_key p) t) ts,
  finish_forest-Under p rest,
)

module _ (doc : Document) (fuel : ℕ) (s : Ptr) (pk : Text) where
  -- planNode leaves the primary key.
  planned-pk :
      (t : TableSpec) (planned : Tree)
      → t.pk ≡ pk
      → plan_node doc fuel [] [] s (table t nil) ≡ ok planned
      → (spec planned).pk ≡ pk
  planned-pk t planned h ran = at_root planned (
      Holds-ok (Planned (λ _. Unit) (λ _ _. Unit) HasPk) _ planned
        (plan_node-Holds (λ _. Unit) (λ _ _. Unit) (λ n ty c e. tt) (λ n ty c d e. tt)
          (λ n ty c d e. tt) (λ c p g i d v. (tt, tt)) doc fuel [] HasPk HasPk-add [] s
          (table t nil) (h, tt))
        ran)
    where
      HasPk : TableSpec → Type 0
      HasPk c = c.pk ≡ pk

      HasPk-add : (n ty : Text) (c : TableSpec) → HasPk c → HasPk (add_model_column n ty c)
      HasPk-add n ty c e = unfold add_model_column in ground arith

      at_root : (tree : Tree) → Planned (λ _. Unit) (λ _ _. Unit) HasPk tree → (spec tree).pk ≡ pk
      at_root (table c cs) q = q.0

pk_type-contains :
    (pk : Text) (cols : List Column) (found : Text)
    → is_empty found ≡ true
    → is_empty (pk_type pk cols found) ≡ false
    → contains (names cols) pk ≡ true
unfolding pk_type contains
pk_type-contains pk [] found e h = absurd (cc (e, h))
pk_type-contains pk (c ∷ cols) found e h = elim (Bool-cases (same c.name pk)) [
  | inl x ↦ rw x refl
  | inr x ↦ rw x (pk_type-contains pk cols found e (rw x at h))
]

-- A cell of a row.
abbrev pub InRow : Text → Text → List (Text × Text) → Type 0
InRow k lit [] = ⊥
InRow k lit (c ∷ cells) = ((c.0 ≡ k) × (c.1 ≡ lit)) ⊎ InRow k lit cells

pub InRow-append :
    (k lit : Text) (xs ys : List (Text × Text)) → InRow k lit ys → InRow k lit (xs ++ ys)
InRow-append k lit [] ys h = h
InRow-append k lit (x ∷ xs) ys h = inr (InRow-append k lit xs ys h)

filled :
    {lit : Text} (o : Option Text)
    → o ≡ some lit
    → elim o [ none ↦ codes "NULL" | some l ↦ l ] ≡ lit
filled none h = cc h
filled (some l) h = cc h

pub InRow-column_cells :
    (values : Values) (k lit : Text) (cols : List Column)
    → contains (names cols) k ≡ true
    → lookup k values ≡ some lit
    → InRow k lit (column_cells values [] cols)
unfolding column_cells contains
InRow-column_cells values k lit [] h e = cc h
InRow-column_cells values k lit (c ∷ cols) h e = elim (Bool-cases (same c.name k)) [
  | inl x ↦
      let eq : c.name ≡ k = (same_iff c.name k).0 x in
      inl (eq, filled (lookup c.name values) (ap (λ n. lookup n values) eq ∙ e))
  | inr x ↦ inr (InRow-column_cells values k lit cols (rw x at h) e)
]

-- The root of a planned model: its key is its primary key, one of its columns, and the tables below
-- it refer to it; all of them are listed.
pub record IsRooted (m : Model) : Type 0 where
  pub no_parent : (spec m.tree).parent ≡ none
  pub key : (spec m.tree).key_cols ≡ (spec m.tree).pk ∷ []
  pub column : contains (names (spec m.tree).columns) (spec m.tree).pk ≡ true
  pub below : Under (spec m.tree) (arrays m.tree)
  pub listed : Listed (spec m.tree) m.tables
  pub held : Held m.tables (arrays m.tree)
  pub shaped : All RootOrRow m.tables

module _ (pk type : Text) (t : TableSpec) (ts : Forest) (h : t.parent ≡ none) (e : t.pk ≡ pk)
    (column : contains (names t.columns) pk ≡ true) where
  with_key-parts :
      ((spec (with_key pk type (table t ts))).parent ≡ none)
      × ((spec (with_key pk type (table t ts))).key_cols
          ≡ (spec (with_key pk type (table t ts))).pk ∷ [])
      × (contains
            (names (spec (with_key pk type (table t ts))).columns)
            (spec (with_key pk type (table t ts))).pk
          ≡ true)
      × Under (spec (with_key pk type (table t ts))) (arrays (with_key pk type (table t ts)))
  unfolding with_key
  with_key-parts = (h, rw e refl, rw e column, finish_forest-Under _ ts)

pub plan-IsRooted :
    (fuel : ℕ) (unmarshal : Text → Option Document) (schema_doc table_name pk : Text)
    (headers : List (Text × Text)) (m : Model)
    → plan fuel unmarshal schema_doc table_name pk headers ≡ ok m
    → IsRooted m
plan-IsRooted fuel unmarshal schema_doc table_name pk headers m h =
    let r = plan-IsResult fuel unmarshal schema_doc table_name pk headers m h in
    let column = pk_type-contains pk (spec r.planned).columns [] refl r.pk_found in
    let (a, b, c, d) =
      at_tree r.planned (planned-parent m.doc fuel (some m.doc.root) _ r.planned refl r.ran)
        (planned-pk m.doc fuel (some m.doc.root) pk _ r.planned refl r.ran) column in
    record {
      no_parent = rw r.tree_finished a;
      key = rw r.tree_finished b;
      column = rw r.tree_finished c;
      below = rw r.tree_finished d;
      listed = rw r.tables_ordered (table_order-Held m.tree).0;
      held = rw r.tables_ordered (table_order-Held m.tree).1;
      shaped =
          RootThenRows-RootOrRow m.tables
            (plan-IsRow fuel unmarshal schema_doc table_name pk headers m h);
    }
  where
    at_tree :
        (planned : Tree)
        → (spec planned).parent ≡ none
        → (spec planned).pk ≡ pk
        → contains (names (spec planned).columns) pk ≡ true
        → let tree = with_key pk (pk_type pk (spec planned).columns []) planned in
          ((spec tree).parent ≡ none)
          × ((spec tree).key_cols ≡ (spec tree).pk ∷ [])
          × (contains (names (spec tree).columns) (spec tree).pk ≡ true)
          × Under (spec tree) (arrays tree)
    at_tree (table t ts) h e c = with_key-parts pk _ t ts h e c
