-- ===== src/Normalized/Plan.antt =====
-- internal/normalized/model.go: Plan, which finishes the planned tables with their keys.
pub mod Result
pub mod Cycle
pub mod Keys
pub mod Shape
pub mod Ranked
pub mod Total
use schema_to_table.Prelude.{
  ℕ, Bool, true, false, ◌&&◌, Option, none, some, List, [], ◌∷◌, ◌++◌, map, if◌then◌else◌,
}
use schema_to_table.Text.{Text, codes, is_empty, trim_space}
use schema_to_table.Text.Equality.{same, contains}
use schema_to_table.Outcome.{
  Outcome, ok, err, table_name_required, pk_required, pk_not_planned, ◌>>=◌,
}
use schema_to_table.Schema.Node
use schema_to_table.Schema.Node.{Node, Ptr, Document, deref}
use schema_to_table.Schema.Types.{Column, is_none}
use schema_to_table.Normalized.Model.{
  ParentKey, own_key, TableSpec, Tree, table, Forest, nil, cons, spec, arrays, names, new_spec,
  plan_node,
}
use schema_to_table.Normalized.Consts.{detect_discriminator}

-- Model. The tables are those of `tree`, in the order of `table_order`.
pub record Model : Type 0 where
  pub tree : Tree
  pub tables : List TableSpec
  pub discriminator : Text
  pub doc : Document
  pub headers : List (Text × Text)

-- tableOrder: every table before those of its arrays.
unfoldable mutual
  pub table_order : Tree → List TableSpec
  table_order (table t ts) = t ∷ forest_order ts

  pub forest_order : Forest → List TableSpec
  forest_order nil = []
  forest_order (cons t ts) = table_order t ++ forest_order ts

-- childFkCols
unfoldable pub child_fk_cols : ParentKey → List Text
child_fk_cols p = map (λ k. p.name ++ (codes "_" ++ k)) p.key_cols

-- The columns of two lists side by side.
unfoldable pub zip_columns : List Text → List Text → List Column
zip_columns (n ∷ ns) (t ∷ ts) = record { name = n; type = t } ∷ zip_columns ns ts
zip_columns _ _ = []

-- The columns whose names are not taken.
unfoldable pub drop_taken : List Text → List Column → List Column
drop_taken taken [] = []
drop_taken taken (c ∷ cols) =
    let rest = drop_taken taken cols in if contains taken c.name then rest else c ∷ rest

unfoldable pub key_columns : TableSpec → List Column
unfolding zip_columns
key_columns t =
    zip_columns t.fk_cols t.fk_col_types
    ++ (if is_empty t.row_no_col
        then []
        else record { name = t.row_no_col; type = codes "INT" } ∷ [])

-- reorderChildColumns
unfoldable pub reorder_child_columns : TableSpec → TableSpec
unfolding key_columns drop_taken
reorder_child_columns t =
    let prepend = key_columns t in
    record t { columns = prepend ++ drop_taken (names prepend) t.columns }

-- The second phase of Plan for one table. What is read of its Parent is now that of the finished
-- parent `p`.
unfoldable pub finish_spec : ParentKey → TableSpec → TableSpec
unfolding reorder_child_columns child_fk_cols
finish_spec p t =
    let fks = child_fk_cols p in
    reorder_child_columns (record t {
      parent = some p;
      fk_cols = fks;
      fk_col_types = p.key_col_types;
      key_cols = fks ++ (t.row_no_col ∷ []);
      key_col_types = p.key_col_types ++ (codes "INT" ∷ []);
    })

-- The loop of the second phase, which takes a parent before its children.
unfoldable mutual
  pub finish_tree : ParentKey → Tree → Tree
  finish_tree p (table t ts) = let t' = finish_spec p t in table t' (finish_forest (own_key t') ts)

  pub finish_forest : ParentKey → Forest → Forest
  finish_forest p nil = nil
  finish_forest p (cons t ts) = cons (finish_tree p t) (finish_forest p ts)

-- The type of the column `pk`, "" if there is none; the last of them counts.
unfoldable pub pk_type : Text → List Column → Text → Text
pk_type pk [] found = found
pk_type pk (c ∷ cols) found = pk_type pk cols (if same c.name pk then c.type else found)

-- The root with its key, and its children finished.
unfoldable pub with_key : Text → Text → Tree → Tree
unfolding finish_tree
with_key pk type (table t ts) =
    let root = record t { key_cols = pk ∷ []; key_col_types = type ∷ [] } in
    table root (finish_forest (own_key root) ts)

unfoldable pub find_discriminator : ℕ → Document → Node → Outcome Text
unfolding detect_discriminator
find_discriminator fuel doc root =
    if is_none root.one_of && is_none root.any_of
    then ok []
    else detect_discriminator doc fuel (root.one_of ++ root.any_of)

-- The whole of the function Plan.
unfoldable pub plan :
    ℕ → (Text → Option Document) → Text → Text → Text → List (Text × Text) → Outcome Model
unfolding find_discriminator with_key pk_type table_order
plan fuel unmarshal schema_doc table_name pk headers = do
  doc ← Node.parse unmarshal schema_doc
  if is_empty (trim_space table_name)
      then err table_name_required
      else if is_empty (trim_space pk)
      then err pk_required
      else do
        planned ←
            plan_node doc fuel [] [] (some doc.root)
              (table (record (new_spec table_name pk) { schema = some doc.root }) nil)
        let type = pk_type pk (spec planned).columns []
        let tree = with_key pk type planned
        if is_empty type then err (pk_not_planned pk) else do
          root ← deref doc (some doc.root)
          found ← find_discriminator fuel doc root
          ok (record {
            tree = tree;
            tables = table_order tree;
            discriminator = found;
            doc = doc;
            headers = headers;
          })
