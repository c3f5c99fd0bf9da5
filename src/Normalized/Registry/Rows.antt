-- ===== src/Normalized/Registry/Rows.antt =====
-- The registry names every table and every view of a planned model, once.
use mathlib.Core.List.{map-append}
use schema_to_table.Prelude.{
  ℕ, ◌≡◌, refl, sym, ap, false, Option, none, some, List, [], ◌∷◌, ◌++◌, map, All, All-append,
}
use schema_to_table.Text.{Text}
use schema_to_table.Outcome.{ok}
use schema_to_table.Schema.Node.{Document, Node}
use schema_to_table.Schema.Types.{is_nil}
use schema_to_table.Normalized.Model.{
  ParentKey, TableSpec, Tree, table, Forest, nil, cons, spec, arrays,
}
use schema_to_table.Normalized.Plan.{
  Model, plan, with_key, finish_spec, finish_tree, finish_forest, table_order, forest_order,
}
use schema_to_table.Normalized.Model.{own_key}
use schema_to_table.Normalized.Plan.Result.{plan-IsResult}
use schema_to_table.Normalized.Plan.Keys.{planned-parent}
use schema_to_table.Normalized.Ddl.{view_name, children}
use schema_to_table.Normalized.Registry.{table_rows, view_row, registry_rows}

abbrev IsChild : TableSpec → Type 0
IsChild t = is_nil t.parent ≡ false

mutual
  unfolding finish_tree table_order finish_spec

  finish_tree-IsChild : (p : ParentKey) (t : Tree) → All IsChild (table_order (finish_tree p t))
  finish_tree-IsChild p (table t ts) = (refl, finish_forest-IsChild (own_key (finish_spec p t)) ts)

  finish_forest-IsChild :
      (p : ParentKey) (ts : Forest) → All IsChild (forest_order (finish_forest p ts))
  finish_forest-IsChild p nil = tt
  finish_forest-IsChild p (cons t ts) =
      All-append IsChild (table_order (finish_tree p t)) _ (finish_tree-IsChild p t)
        (finish_forest-IsChild p ts)

table_rows-IsChild :
    (ts : List TableSpec)
    → All IsChild ts
    → map (λ r. r.logical) (table_rows ts) ≡ map (λ t. t.name) ts
unfolding table_rows
table_rows-IsChild [] h = refl
table_rows-IsChild (t ∷ ts) (e, h) = rw e (ap (λ l. t.name ∷ l) (table_rows-IsChild ts h))

view_row-logical :
    (m : Model) (ts : List TableSpec)
    → map (λ r. r.logical) (map (view_row m) ts) ≡ map (view_name m) ts
unfolding view_row
view_row-logical m [] = refl
view_row-logical m (t ∷ ts) = ap (λ l. view_name m t ∷ l) (view_row-logical m ts)

with_key-Named :
    (pk type : Text) (planned : Tree)
    → (spec planned).parent ≡ none
    → let tree = with_key pk type planned in
      map (λ t. t.name) (table_order tree)
      ≡ (spec tree).name ∷ map (λ r. r.logical) (table_rows (table_order tree))
unfolding with_key table_order table_rows
with_key-Named pk type (table t ts) e =
    rw e (ap (λ l. t.name ∷ l) (sym (table_rows-IsChild _ (finish_forest-IsChild _ ts))))

-- The rows of the registry of a model that Plan returned name the tables, in the order in which they
-- are created, and then the views, in the order in which ViewStatements creates them.
pub registry_rows-names :
    (fuel : ℕ) (unmarshal : Text → Option Document) (schema_doc table_name pk : Text)
    (headers : List (Text × Text)) (m : Model)
    → plan fuel unmarshal schema_doc table_name pk headers ≡ ok m
    → (root : Node)
    → map (λ r. r.logical) (registry_rows m root)
      ≡ map (λ t. t.name) m.tables ++ map (view_name m) (children (arrays m.tree))
unfolding registry_rows
registry_rows-names fuel unmarshal schema_doc table_name pk headers m h root =
    let r = plan-IsResult fuel unmarshal schema_doc table_name pk headers m h in
    let parent = planned-parent m.doc fuel (some m.doc.root) _ r.planned refl r.ran in
    let tables : map (λ t. t.name) m.tables
        ≡ (spec m.tree).name ∷ map (λ r. r.logical) (table_rows m.tables) =
      rw (r.tables_ordered, r.tree_finished) (with_key-Named pk _ r.planned parent) in
    rw (
      tables,
      map-append (λ r. r.logical) (table_rows m.tables)
          (map (view_row m) (children (arrays m.tree))),
      view_row-logical m (children (arrays m.tree)),
    )
