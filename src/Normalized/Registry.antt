-- ===== src/Normalized/Registry.antt =====
-- internal/normalized/registry.go: the table that documents the planned tables and views.
pub mod Rows
use schema_to_table.Prelude.{
  Bool, true, false, Option, none, some, List, [], ◌∷◌, ◌++◌, map, if◌then◌else◌,
}
use schema_to_table.Text.{Text, codes, join, concat}
use schema_to_table.Outcome.{Outcome, ok, ◌>>=◌}
use schema_to_table.Schema.Names.{quote_ident, quote_literal, ident_name}
use schema_to_table.Schema.Node.{Node, deref}
use schema_to_table.Schema.Types.{Column, is_nil}
use schema_to_table.Landing.{column_lines}
use schema_to_table.Normalized.Model.{TableSpec, spec, arrays, schema_desc}
use schema_to_table.Normalized.Plan.{Model}
use schema_to_table.Normalized.Ddl.{view_name, children}

-- registryRow
pub record RegistryRow : Type 0 where
  pub type : Text
  pub logical : Text
  pub path : Text
  pub desc : Text

-- jsonPath
unfoldable pub json_path : List Text → Text
json_path path = codes "/" ++ join (codes "/") path

-- The rows of the tables but the root.
unfoldable pub table_rows : List TableSpec → List RegistryRow
unfolding json_path
table_rows [] = []
table_rows (t ∷ ts) =
    let rest = table_rows ts in
    if is_nil t.parent
    then rest
    else record {
      type = codes "table";
      logical = t.name;
      path = codes "$" ++ json_path t.path;
      desc = t.desc;
    }
      ∷ rest

unfoldable pub view_row : Model → TableSpec → RegistryRow
unfolding json_path view_name
view_row m child = record {
  type = codes "view";
  logical = view_name m child;
  path = codes "$" ++ json_path child.path;
  desc = codes "denormalized view for array " ++ join (codes " → ") child.path;
}

-- The rows, before they are rendered.
unfoldable pub registry_rows : Model → Node → List RegistryRow
unfolding table_rows view_row
registry_rows m root =
    record {
      type = codes "table";
      logical = (spec m.tree).name;
      path = codes "$";
      desc = schema_desc root;
    }
    ∷ (table_rows m.tables ++ map (view_row m) (children (arrays m.tree)))

registry_line : RegistryRow → Text
registry_line r = concat (
    codes "    ("
    ∷ join (codes ", ")
        (map quote_literal (r.type ∷ r.logical ∷ ident_name r.logical ∷ r.path ∷ r.desc ∷ []))
    ∷ codes ")"
    ∷ [])

text_column : Text → Column
text_column name = record { name = name; type = codes "TEXT" }

-- RegistryStatements. There is always a row, so the INSERT is always there.
unfoldable pub registry_statements : Model → Outcome (List Text)
unfolding registry_rows registry_line text_column
registry_statements m = do
  root ← deref m.doc (some m.doc.root)
  let registry = (spec m.tree).name ++ codes "_registry"
  let cols =
      text_column (codes "object_type")
      ∷ text_column (codes "logical_name")
      ∷ text_column (codes "sql_name")
      ∷ text_column (codes "json_path")
      ∷ text_column (codes "description")
      ∷ []
  ok (
      concat (
        codes "CREATE TABLE "
        ∷ quote_ident registry
        ∷ codes " (\n"
        ∷ column_lines cols
        ∷ codes ");\n"
        ∷ codes "INSERT INTO "
        ∷ quote_ident registry
        ∷ codes " (object_type, logical_name, sql_name, json_path, description) VALUES\n"
        ∷ join (codes ",\n") (map registry_line (registry_rows m root))
        ∷ codes ";\n"
        ∷ [])
      ∷ [])
