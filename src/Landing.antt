-- ===== src/Landing.antt =====
-- internal/landing: one flat table for a JSON Schema. Parse, Columns and walkSchema are table.go,
-- CreateTable is ddl.go, Insert, Upsert and renderValues are dml.go.
pub mod Total
pub mod Mirror
pub mod Names
pub mod Plan
pub mod Statements
use schema_to_table.Prelude.{
  ℕ, zero, suc, ◌+◌, Bool, true, false, Option, none, some, List, [], ◌∷◌, ◌++◌, map, length,
  if◌then◌else◌,
}
use schema_to_table.Text.{Text, codes, is_empty, trim_space, join}
use schema_to_table.Text.Equality.{same, contains}
use schema_to_table.Maps.{lookup, put}
use schema_to_table.Json.{Json}
use schema_to_table.Outcome.{
  Error, table_name_required, no_columns, conflict_required, conflict_unknown, no_updates, Outcome,
  ok, err, diverge, ◌>>=◌, wrap, each,
}
use schema_to_table.Schema.Names.{quote_ident, quote_literal, sanitize_ident, sorted_keys}
use schema_to_table.Schema.Node
use schema_to_table.Schema.Node.{Node, Ptr, Document, deref, resolve, child}
use schema_to_table.Schema.Types.{Column, sql_type, is_array, is_composite, is_none}
use schema_to_table.Schema.Values.{Values, child_prefix, visits, collect_values, parse_payload}

pub record Table : Type 0 where
  pub doc : Document
  pub complex_type : Text

-- Parse; json.Unmarshal is a parameter.
unfoldable pub parse : (Text → Option Document) → Text → Text → Outcome Table
parse unmarshal text complex_type = do
  doc ← Node.parse unmarshal text
  ok (record {
    doc = doc;
    complex_type = if is_empty (trim_space complex_type) then codes "TEXT" else complex_type;
  })

abbrev pub names : List Column → List Text
names cols = map (λ c. c.name) cols

-- The closure addColumn. The keys of its map `seen` are the names of the columns so far.
unfoldable pub add_column : Text → Text → List Column → List Column
add_column name type cols =
    let clean = sanitize_ident name in
    if contains (names cols) clean
    then cols
    else cols ++ (record { name = clean; type = type } ∷ [])

module _ (doc : Document) (complex_type : Text) where
  -- One round of the loop over the properties; `recur` is the call of walkSchema.
  unfoldable pub walk_property :
      (Text → Ptr → List Column → Outcome (List Column))
      → Text
      → List (Text × Ptr)
      → Text
      → List Column
      → Outcome (List Column)
  unfolding add_column
  walk_property recur prefix properties key cols = do
    let name = child_prefix prefix key
    resolved ← resolve doc (child key properties)
    n ← deref doc resolved
    if is_array n
        then ok (add_column name complex_type cols)
        else if is_composite n
        then recur name resolved cols
        else ok (add_column name (sql_type n complex_type) cols)

  unfoldable pub walk_node :
      (Text → Ptr → List Column → Outcome (List Column))
      → Text
      → Node
      → List Column
      → Outcome (List Column)
  unfolding walk_property
  walk_node recur prefix n cols = do
    cols₁ ← each (λ sub. recur prefix sub) n.all_of cols
    cols₂ ← each (λ sub. recur prefix sub) (n.one_of ++ n.any_of) cols₁
    each (walk_property recur prefix n.properties) (sorted_keys n.properties) cols₂

  -- walkSchema. The mark of a node is taken back on return, so it is passed down only.
  unfoldable pub walk_schema : ℕ → List Ptr → Text → Ptr → List Column → Outcome (List Column)
  unfolding walk_node
  walk_schema zero visited prefix s cols = diverge
  walk_schema (suc fuel) visited prefix none cols = ok cols
  walk_schema (suc fuel) visited prefix (some i) cols = do
    resolved ← resolve doc (some i)
    if visits visited resolved then ok cols else do
      n ← deref doc resolved
      walk_node (walk_schema fuel (resolved ∷ visited)) prefix n cols

-- Each call of a walk marks one more node of the document, so this much is enough.
unfoldable pub walk_fuel : Document → ℕ
walk_fuel doc = length doc.nodes + 1

-- The header columns, in the order of their keys.
pub header_columns : List (Text × Text) → List Text → List Column → List Column
unfolding add_column
header_columns headers [] cols = cols
header_columns headers (k ∷ ks) cols =
    header_columns headers ks
      (add_column (codes "header_" ++ k) (elim (lookup k headers) [ none ↦ [] | some t ↦ t ]) cols)

-- Columns
unfoldable pub columns : Table → List (Text × Text) → Outcome (List Column)
unfolding header_columns walk_fuel
columns t headers = do
  let first = header_columns headers (sorted_keys headers) []
  cols ←
      wrap (codes "plan columns")
        (walk_schema t.doc t.complex_type (walk_fuel t.doc) [] [] (some t.doc.root) first)
  if is_none cols then err no_columns else ok cols

-- The lines of a CREATE TABLE; all but the last end with a comma.
unfoldable pub column_lines : List Column → Text
unfolding quote_ident
column_lines [] = []
column_lines (c ∷ []) =
    codes "    " ++ (quote_ident c.name ++ (codes " " ++ (c.type ++ codes "\n")))
column_lines (c ∷ d ∷ cols) =
    codes "    "
    ++ (quote_ident c.name ++ (codes " " ++ (c.type ++ (codes ",\n" ++ column_lines (d ∷ cols)))))

-- CreateTable
unfoldable pub create_table : Table → Text → List (Text × Text) → Outcome Text
create_table t table_name headers =
    if is_empty (trim_space table_name) then err table_name_required else do
      cols ← columns t headers
      ok (
          codes "CREATE TABLE "
          ++ (quote_ident table_name ++ (codes " (\n" ++ (column_lines cols ++ codes ");\n"))))

-- headerTypeShim
unfoldable pub header_type_shim : List Text → List (Text × Text)
header_type_shim [] = []
header_type_shim (k ∷ ks) = (k, codes "TEXT") ∷ header_type_shim ks

pub header_literals : List (Text × Text) → List Text → Values → Values
header_literals headers [] values = values
header_literals headers (k ∷ ks) values = header_literals headers ks (
    put (sanitize_ident (codes "header_" ++ k))
      (quote_literal (elim (lookup k headers) [ none ↦ [] | some v ↦ v ])) values)

-- A column's literal; a missing value is NULL.
unfoldable pub literal : Values → Text → Text
literal values name = elim (lookup name values) [ none ↦ codes "NULL" | some lit ↦ lit ]

-- renderValues: the column names and their literals.
unfoldable pub render_values :
    (Text → Option Json) → Table → List (Text × Text) → Text → Outcome (List Text × List Text)
unfolding header_literals header_type_shim literal
render_values unmarshal t header_values payload = do
  let header_keys = sorted_keys header_values
  planned ← columns t (header_type_shim header_keys)
  value ← wrap (codes "render values") (parse_payload unmarshal payload)
  values ← wrap (codes "render values") (
      collect_values t.doc t.complex_type (walk_fuel t.doc) [] [] (some t.doc.root) value
        (header_literals header_values header_keys []))
  ok (names planned, map (literal values) (names planned))

insert_into : Text → List Text → List Text → Text
insert_into table_name cols lits =
    codes "INSERT INTO "
    ++ (quote_ident table_name
        ++ (codes " ("
            ++ (join (codes ", ") (map quote_ident cols)
                ++ (codes ")\nVALUES (" ++ (join (codes ", ") lits ++ codes ")")))))

-- Insert
unfoldable pub insert :
    (Text → Option Json) → Table → Text → List (Text × Text) → Text → Outcome Text
unfolding insert_into
insert unmarshal t table_name header_values payload =
    if is_empty (trim_space table_name) then err table_name_required else do
      (cols, lits) ← render_values unmarshal t header_values payload
      ok (insert_into table_name cols lits ++ codes ";\n")

-- The columns that an upsert overwrites: all but the conflict column.
unfoldable pub updated : Text → List Text → List Text
updated conflict [] = []
updated conflict (c ∷ cols) =
    let rest = updated conflict cols in if same c conflict then rest else c ∷ rest

assignment : Text → Text
assignment c = quote_ident c ++ (codes " = EXCLUDED." ++ quote_ident c)

-- The statement that Upsert renders.
unfoldable pub upsert_into : Text → List Text → List Text → Text → Text
unfolding insert_into updated assignment
upsert_into table_name cols lits conflict =
    insert_into table_name cols lits
    ++ (codes "\nON CONFLICT ("
        ++ (quote_ident conflict
            ++ (codes ") DO UPDATE SET\n    "
                ++ (join (codes ",\n    ") (map assignment (updated conflict cols))
                    ++ codes ";\n"))))

-- Upsert
unfoldable pub upsert :
    (Text → Option Json) → Table → Text → List (Text × Text) → Text → Text → Outcome Text
upsert unmarshal t table_name headers payload conflict_column =
    let conflict = sanitize_ident conflict_column in
    if is_empty (trim_space table_name)
    then err table_name_required
    else if is_empty (trim_space conflict_column)
    then err conflict_required
    else do
      (cols, lits) ← render_values unmarshal t headers payload
      if contains cols conflict
          then (if is_none (updated conflict cols)
              then err (no_updates conflict)
              else ok (upsert_into table_name cols lits conflict))
          else err (conflict_unknown conflict)
