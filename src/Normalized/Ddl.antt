-- ===== src/Normalized/Ddl.antt =====
-- internal/normalized/ddl.go: the tables and the views. The root is the table without a parent.
pub mod Views
use schema_to_table.Prelude.{none, some, List, [], ◌∷◌, ◌++◌, map, if◌then◌else◌}
use schema_to_table.Text.{Text, codes, is_empty, join, concat}
use schema_to_table.Text.Equality.{contains}
use schema_to_table.Maps.{lookup}
use schema_to_table.Outcome.{Outcome, ok, err, table_without_columns, ◌>>=◌}
use schema_to_table.Schema.Names.{quote_ident, sorted_keys}
use schema_to_table.Schema.Types.{Column, is_nil, is_none}
use schema_to_table.Landing.{column_lines}
use schema_to_table.Normalized.Model.{TableSpec, table, Forest, nil, cons, spec, arrays, names}
use schema_to_table.Normalized.Plan.{Model}

abbrev pub quoted : List Text → Text
quoted cols = join (codes ", ") (map quote_ident cols)

-- The columns of the ingestion headers, in the order of their keys.
unfoldable pub header_columns : List (Text × Text) → List Text → List Column
unfolding lookup
header_columns headers [] = []
header_columns headers (k ∷ ks) =
    record {
      name = codes "header_" ++ k;
      type = elim (lookup k headers) [ none ↦ [] | some t ↦ t ];
    }
    ∷ header_columns headers ks

-- All columns of a table; those of the headers come first in the root.
unfoldable pub all_columns : List (Text × Text) → TableSpec → List Column
unfolding header_columns
all_columns headers t =
    if is_nil t.parent then header_columns headers (sorted_keys headers) ++ t.columns else t.columns

primary_key : TableSpec → Text
primary_key t = concat (
    codes "ALTER TABLE "
    ∷ quote_ident t.name
    ∷ codes " ADD PRIMARY KEY ("
    ∷ (if is_empty t.pk then quoted t.key_cols else quote_ident t.pk)
    ∷ codes ");\n"
    ∷ [])

foreign_key : TableSpec → Text
foreign_key t = elim t.parent [
  | none ↦ []
  | some p ↦ concat (
      codes "ALTER TABLE "
      ∷ quote_ident t.name
      ∷ codes " ADD FOREIGN KEY ("
      ∷ quoted t.fk_cols
      ∷ codes ") REFERENCES "
      ∷ quote_ident p.name
      ∷ codes " ("
      ∷ quoted p.key_cols
      ∷ codes ");\n"
      ∷ [])
]

-- createTableStmt
unfoldable pub create_table_stmt : List (Text × Text) → TableSpec → Outcome Text
unfolding all_columns primary_key foreign_key
create_table_stmt headers t =
    let cols = all_columns headers t in
    if is_none cols
    then err (table_without_columns t.name)
    else ok (
        concat (
          codes "CREATE TABLE "
          ∷ quote_ident t.name
          ∷ codes " (\n"
          ∷ column_lines cols
          ∷ codes ");\n"
          ∷ primary_key t
          ∷ foreign_key t
          ∷ []))

unfoldable pub create_all : List (Text × Text) → List TableSpec → Outcome (List Text)
unfolding create_table_stmt
create_all headers [] = ok []
create_all headers (t ∷ ts) = do
  s ← create_table_stmt headers t
  rest ← create_all headers ts
  ok (s ∷ rest)

-- CreateStatements
unfoldable pub create_statements : Model → Outcome (List Text)
unfolding create_all
create_statements m = create_all m.headers m.tables

-- viewName
unfoldable pub view_name : Model → TableSpec → Text
view_name m child =
    concat (codes "v_" ∷ (spec m.tree).name ∷ codes "_" ∷ join (codes "_") child.path ∷ [])

-- The last key of a path, "child" if it is empty.
last_segment : List Text → Text
last_segment [] = codes "child"
last_segment (s ∷ []) = s
last_segment (s ∷ t ∷ path) = last_segment (t ∷ path)

-- The names under which a view shows the child's columns, given the names used so far.
unfoldable pub view_columns : Text → List Text → List Text → List Text
view_columns segment used [] = []
view_columns segment used (c ∷ cols) =
    let out = if contains used c then segment ++ (codes "_" ++ c) else c in
    out ∷ view_columns segment (out ∷ used) cols

view_child_lines : List Text → List Text → List Text
view_child_lines (c ∷ cols) (o ∷ outs) =
    concat (
      codes "    "
      ∷ quote_ident (codes "p")
      ∷ codes "."
      ∷ quote_ident c
      ∷ codes " AS "
      ∷ quote_ident o
      ∷ [])
    ∷ view_child_lines cols outs
view_child_lines _ _ = []

join_conditions : List Text → List Text → List Text
join_conditions (f ∷ fs) (k ∷ ks) =
    concat (
      quote_ident (codes "p")
      ∷ codes "."
      ∷ quote_ident f
      ∷ codes " = "
      ∷ quote_ident (codes "o")
      ∷ codes "."
      ∷ quote_ident k
      ∷ [])
    ∷ join_conditions fs ks
join_conditions _ _ = []

-- rootChildView
unfoldable pub root_child_view : Model → TableSpec → Text
unfolding all_columns view_name last_segment view_columns view_child_lines join_conditions
root_child_view m child =
    let root = spec m.tree in
    let root_cols =
      names (header_columns m.headers (sorted_keys m.headers)) ++ names root.columns in
    let outs = view_columns (last_segment child.path) root_cols (names child.columns) in
    let root_lines =
      map (λ c. concat (codes "    " ∷ quote_ident (codes "o") ∷ codes "." ∷ quote_ident c ∷ []))
        root_cols in
    concat (
      codes "CREATE VIEW "
      ∷ quote_ident (view_name m child)
      ∷ codes " AS\nSELECT\n"
      ∷ join (codes ",\n") (root_lines ++ view_child_lines (names child.columns) outs)
      ∷ codes "\nFROM "
      ∷ quote_ident root.name
      ∷ codes " AS "
      ∷ quote_ident (codes "o")
      ∷ codes "\nJOIN "
      ∷ quote_ident child.name
      ∷ codes " AS "
      ∷ quote_ident (codes "p")
      ∷ codes " ON "
      ∷ join (codes " AND ") (join_conditions child.fk_cols root.key_cols)
      ∷ codes ";\n"
      ∷ [])

-- The specs of a table's Arrays.
unfoldable pub children : Forest → List TableSpec
children nil = []
children (cons (table t ts) rest) = t ∷ children rest

-- ViewStatements, which does not fail
unfoldable pub view_statements : Model → List Text
unfolding root_child_view children
view_statements m = map (root_child_view m) (children (arrays m.tree))
