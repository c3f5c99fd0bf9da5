-- ===== src/Normalized/Dml.antt =====
-- internal/normalized/dml.go: the statements that load one document. json.Unmarshal of the payload
-- is a parameter. A statement is a record until it is rendered, so that proofs can speak of it.
pub mod Loops
pub mod Rows
pub mod Deletes
pub mod Inserts
pub mod Scope
pub mod Nested
pub mod Total
pub mod Listed
pub mod Key
pub mod RootKey
pub mod References
use schema_to_table.Prelude.{
  ℕ, zero, suc, ◌+◌, Bool, true, false, not, ◌||◌, ◌&&◌, Option, none, some, List, [], ◌∷◌, ◌++◌,
  map, length, if◌then◌else◌,
}
use schema_to_table.Text.{Text, codes, is_empty, join, concat}
use schema_to_table.Text.Equality.{same, contains}
use schema_to_table.Maps.{lookup, keys, put}
use schema_to_table.Json.{Json, null, bool, num, str, arr, obj, items_list, fields_list, show}
use schema_to_table.Outcome.{
  Outcome, ok, err, invalid_data, expected_array, pk_not_found, conflict_not_pk, nothing_to_update,
  ◌>>=◌, wrap,
}
use schema_to_table.Schema.Names.{quote_ident, quote_literal, sanitize_ident, sorted_keys, to_snake}
use schema_to_table.Schema.Node.{Node, Ptr, Document, deref}
use schema_to_table.Schema.Types.{Column, primary_type, is_nil, is_none}
use schema_to_table.Schema.Values.{Values, collect_values, format_literal}
use schema_to_table.Landing.{walk_fuel}
use schema_to_table.Normalized.Model.{
  TableSpec, Tree, table, Forest, nil, cons, spec, arrays, names,
}
use schema_to_table.Normalized.Plan.{Model}

-- A rendered statement with what it is about: a table's name, and the key literals of the parent
-- row and the row number, or the conditions, that the text was built from.
pub data Stmt : Type 0 where
  insert_row : Text → List Text → List Text → Stmt
  upsert_row : Text → List Text → List Text → Text → List Text → Stmt
  delete_rows : Text → List Text → List Text → Stmt

-- Whether every FK column has a literal.
unfoldable pub fits : List Text → List Text → Bool
fits [] lits = true
fits (f ∷ fs) [] = false
fits (f ∷ fs) (lit ∷ lits) = fits fs lits

conditions : List Text → List Text → List Text
conditions (f ∷ fs) (lit ∷ lits) =
    concat (quote_ident f ∷ codes " = " ∷ lit ∷ []) ∷ conditions fs lits
conditions _ _ = []

insert_head : Text → List Text → List Text → Text
insert_head name cols lits = concat (
    codes "INSERT INTO "
    ∷ quote_ident name
    ∷ codes " ("
    ∷ join (codes ", ") (map quote_ident cols)
    ∷ codes ")\nVALUES ("
    ∷ join (codes ", ") lits
    ∷ codes ")"
    ∷ [])

-- The text of a statement: renderInsert, the upsert in insert, and the end of childDeleteStmt.
unfoldable pub render : Stmt → Text
unfolding insert_head conditions
render (insert_row name cols lits) = insert_head name cols lits ++ codes ";\n"
render (upsert_row name cols lits pk updates) = concat (
    insert_head name cols lits
    ∷ codes "\nON CONFLICT ("
    ∷ quote_ident pk
    ∷ codes ") DO UPDATE SET\n"
    ∷ join (codes ",\n") (
        map (λ c. concat (codes "    " ∷ quote_ident c ∷ codes " = EXCLUDED." ∷ quote_ident c ∷ []))
          updates)
    ∷ codes ";\n"
    ∷ [])
render (delete_rows name fks lits) = concat (
    codes "DELETE FROM "
    ∷ quote_ident name
    ∷ codes " WHERE "
    ∷ join (codes " AND ") (conditions fks lits)
    ∷ codes ";\n"
    ∷ [])

-- The first key whose snake case is the segment. (Go ranges over the map in any order.)
snake_key : Text → List (Text × Json) → Text
snake_key seg [] = []
snake_key seg ((k, v) ∷ m) = let rest = snake_key seg m in if same (to_snake k) seg then k else rest

-- The value of a path segment: that of the key itself, or else of a key with that snake case.
unfoldable pub step_into : Text → List (Text × Json) → Json
unfolding snake_key lookup
step_into seg m =
    let key = if contains (keys m) seg then seg else snake_key seg m in
    if is_empty key then null else elim (lookup key m) [ none ↦ null | some v ↦ v ]

-- navigatePath
unfoldable pub navigate_path : Json → List Text → Json
unfolding step_into
navigate_path v [] = v
navigate_path (obj fs) (seg ∷ path) = navigate_path (step_into seg (fields_list fs)) path
navigate_path v (seg ∷ path) = null

unfoldable pub header_values : List (Text × Text) → Values → Values
header_values [] out = out
header_values ((k, v) ∷ headers) out =
    header_values headers (put (codes "header_" ++ k) (quote_literal v) out)

unfoldable pub header_cells : Values → List Text → List (Text × Text)
unfolding lookup
header_cells values [] = []
header_cells values (k ∷ ks) =
    (
      codes "header_" ++ k,
      elim (lookup (codes "header_" ++ k) values) [ none ↦ [] | some lit ↦ lit ],
    )
    ∷ header_cells values ks

-- The FK columns with the parent's key literals; NULL where there are too few.
unfoldable pub fk_cells : List Text → List Text → List (Text × Text)
fk_cells [] lits = []
fk_cells (f ∷ fs) [] = (f, codes "NULL") ∷ fk_cells fs []
fk_cells (f ∷ fs) (lit ∷ lits) = (f, lit) ∷ fk_cells fs lits

-- The cells of the planned columns but those of `taken`.
unfoldable pub column_cells : Values → List Text → List Column → List (Text × Text)
unfolding lookup
column_cells values taken [] = []
column_cells values taken (c ∷ cols) =
    let rest = column_cells values taken cols in
    if contains taken c.name
    then rest
    else (c.name, elim (lookup c.name values) [ none ↦ codes "NULL" | some lit ↦ lit ]) ∷ rest

abbrev pub cols : List (Text × Text) → List Text
cols cells = map (λ c. c.0) cells

abbrev pub lits : List (Text × Text) → List Text
lits cells = map (λ c. c.1) cells

-- childDeleteStmt. Its errors are dropped by the caller, so there is a statement or none.
unfoldable pub child_delete_stmt : TableSpec → List Text → List Stmt
unfolding fits
child_delete_stmt child parent_key =
    if is_none child.fk_cols
    then []
    else if fits child.fk_cols parent_key
    then delete_rows child.name child.fk_cols parent_key ∷ []
    else []

-- The loop over the items of an array, with their row numbers.
unfoldable pub over_items :
    (Json → ℕ → List Stmt → Outcome (List Stmt)) → List Json → ℕ → List Stmt → Outcome (List Stmt)
over_items body [] i out = ok out
over_items body (item ∷ items) i out = do
  out' ← body item (suc i) out
  over_items body items (suc i) out'

-- `arr == nil` skips the table, and anything but an array is an error.
unfoldable pub over_array :
    (Json → ℕ → List Stmt → Outcome (List Stmt))
    → TableSpec
    → Json
    → (List Stmt → List Stmt)
    → List Stmt
    → Outcome (List Stmt)
unfolding over_items
over_array body child null after out = ok out
over_array body child (arr xs) after out = do
  out' ← over_items body (items_list xs) 0 out
  ok (after out')
over_array body child v after out = err (expected_array (join (codes ".") child.path))

-- collectDeletes: the DELETE of a table follows those of the tables below it.
unfoldable pub collect_deletes : Forest → Json → List Text → List Stmt → Outcome (List Stmt)
unfolding over_array child_delete_stmt
collect_deletes nil subject parent_key out = ok out
collect_deletes (cons (table child arrays) rest) subject parent_key out =
    over_array (λ item i out. collect_deletes arrays item (parent_key ++ (show i ∷ [])) out) child
      (navigate_path subject child.path) (λ out. out ++ child_delete_stmt child parent_key) out
    >>= λ out'. collect_deletes rest subject parent_key out'

-- The columns that the upsert of the root overwrites.
unfoldable pub updates : Text → List Text → List Text
updates pk [] = []
updates pk (c ∷ cs) = let rest = updates pk cs in if same c pk then rest else c ∷ rest

module _ (m : Model) where
  -- gatherRowValues; only the root has header values.
  unfoldable pub gather_row_values : TableSpec → Json → List (Text × Text) → Outcome Values
  unfolding header_values
  gather_row_values t value headers = wrap (codes "gather row " ++ t.name) (
      collect_values m.doc (codes "TEXT") (walk_fuel m.doc) [] [] t.schema value
        (if is_nil t.parent then header_values headers [] else []))

  -- rowColumnsLits: the cells of a row, each a column's name and a literal.
  unfoldable pub row_cells : TableSpec → Values → List Text → ℕ → List (Text × Text)
  row_cells t values parent_key row_no =
      if is_nil t.parent
      then header_cells values (sorted_keys m.headers) ++ column_cells values [] t.columns
      else fk_cells t.fk_cols parent_key
        ++ ((t.row_no_col, show row_no) ∷ column_cells values (t.row_no_col ∷ t.fk_cols) t.columns)

  -- The cells of one row of a child table.
  unfoldable pub child_cells : TableSpec → Json → List Text → ℕ → Outcome (List (Text × Text))
  unfolding row_cells
  child_cells child item parent_key i =
      if is_empty child.value_col
      then (do values ← gather_row_values child item []; ok (row_cells child values parent_key i))
      else (do
        n ← deref m.doc child.schema
        ok (
            row_cells child ((child.value_col, format_literal item (primary_type n)) ∷ [])
              parent_key i))

  -- renderChildren: the INSERT of a row precedes those of the rows below it.
  unfoldable pub render_children : Forest → Json → List Text → List Stmt → Outcome (List Stmt)
  unfolding over_array child_cells
  render_children nil subject parent_key out = ok out
  render_children (cons (table child arrays) rest) subject parent_key out =
      over_array
        (λ item i out. child_cells child item parent_key i >>= λ cells.
          render_children arrays item (parent_key ++ (show i ∷ []))
            (out ++ (insert_row child.name (cols cells) (lits cells) ∷ [])))
        child (navigate_path subject child.path) (λ out. out) out
      >>= λ out'. render_children rest subject parent_key out'

  -- The statements of the root row: a plain INSERT, or the deletes and an upsert.
  unfoldable pub root_statements : Bool → Json → Text → List (Text × Text) → Outcome (List Stmt)
  root_statements false value key cells =
      ok (insert_row (spec m.tree).name (cols cells) (lits cells) ∷ [])
  root_statements true value key cells = do
    deletes ← collect_deletes (arrays m.tree) value (key ∷ []) []
    let overwritten = updates (spec m.tree).pk (names (spec m.tree).columns)
    if is_none overwritten
        then err nothing_to_update
        else ok (
            deletes
            ++ (upsert_row (spec m.tree).name (cols cells) (lits cells) (spec m.tree).pk overwritten
                ∷ []))

  -- The literal of the root's primary key in its row, "" if there is none.
  unfoldable pub root_literal : Values → Text
  unfolding lookup
  root_literal values = elim (lookup (spec m.tree).pk values) [ none ↦ [] | some lit ↦ lit ]

  -- The part of insert behind the decoding of the payload.
  unfoldable pub insert_value : Bool → List (Text × Text) → Json → Outcome (List Stmt)
  insert_value upsert headers value = do
    values ← gather_row_values (spec m.tree) value headers
    let key = root_literal values
    if is_empty key || same key (codes "NULL") then err (pk_not_found (spec m.tree).pk) else do
      first ← root_statements upsert value key (row_cells (spec m.tree) values [] 0)
      render_children (arrays m.tree) value (key ∷ []) first

  -- insert
  unfoldable pub insert :
      (Text → Option Json) → Bool → List (Text × Text) → Text → Text → Outcome (List Stmt)
  insert unmarshal upsert headers payload conflict =
      if upsert && not (same (sanitize_ident conflict) (spec m.tree).pk)
      then err (conflict_not_pk conflict)
      else elim (unmarshal payload) [
        | none ↦ err invalid_data
        | some value ↦ insert_value upsert headers value
      ]

  -- InsertStatements and UpsertStatements
  unfoldable pub insert_statements :
      (Text → Option Json) → List (Text × Text) → Text → Outcome (List Text)
  unfolding insert
  insert_statements unmarshal headers payload = do
    stmts ← insert unmarshal false headers payload []
    ok (map render stmts)

  unfoldable pub upsert_statements :
      (Text → Option Json) → List (Text × Text) → Text → Text → Outcome (List Text)
  unfolding insert
  upsert_statements unmarshal headers payload conflict = do
    stmts ← insert unmarshal true headers payload conflict
    ok (map render stmts)
