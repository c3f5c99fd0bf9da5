-- ===== src/Tests/Examples.antt =====
-- The theorems at the test data.
use mathlib.Core.List.{Perm}
use schema_to_table.Prelude.{
  ◌≡◌, ◌↔◌, ◌≤◌, refl, true, false, Option, some, List, [], ◌∷◌, ◌++◌, map, All, length,
}
use schema_to_table.Text.{Text, codes, is_empty, trim_space}
use schema_to_table.Text.Equality.{contains, Distinct}
use schema_to_table.Maps.{keys}
use schema_to_table.Outcome.{ok}
use schema_to_table.Outcome.Laws.{Ends, Agree}
use schema_to_table.Schema.Names.{
  quote_literal, quote_ident, ident_name, sanitize_ident, sorted_keys,
}
use schema_to_table.Schema.Names.Quote.{
  read_quoted, read_quoted-quote_literal, read_quoted-quote_ident,
}
use schema_to_table.Schema.Names.Sanitize.{IsIdent, ident_name_bounds, ident_name_idem}
use schema_to_table.Schema.Names.Sorted.{IsSorted, sorted_keys-IsSorted}
use schema_to_table.Schema.Types.{Column}
use schema_to_table.Schema.Values.{collect_values}
use schema_to_table.Schema.Values.Total.{collect_values_total}
use schema_to_table.Landing
use schema_to_table.Landing.{columns, header_columns, walk_schema}
use schema_to_table.Landing.Mirror.{SameNames, collect_values_mirror}
use schema_to_table.Landing.Plan.{
  IsPlanned, columns-IsPlanned, header_name, header_column, columns_headers_first,
}
use schema_to_table.Landing.Statements.{upsert_succeeds}
use schema_to_table.Landing.Total.{table_operations_total}
use schema_to_table.Normalized.Consts.{Consts}
use schema_to_table.Normalized.Model.{arrays, names}
use schema_to_table.Schema.Node
use schema_to_table.Schema.Node.{Document}
use schema_to_table.Normalized.Plan.Shape.{RootThenRows, plan-IsRow}
use schema_to_table.Normalized.Ddl.{all_columns, view_name, children}
use schema_to_table.Normalized.Registry.{registry_rows}
use schema_to_table.Normalized.Registry.Rows.{registry_rows-names}
use schema_to_table.Normalized.Dml
use schema_to_table.Normalized.Dml.{row_cells, cols, render_children, navigate_path}
use schema_to_table.Normalized.Dml.Rows.{insert_matches_create}
use schema_to_table.Normalized.Dml.Scope.{IsUpsert, insert-IsUpsert}
use schema_to_table.Normalized.Dml.Nested.{first_level, NoSelfKeys, nested_rows_lost}
use schema_to_table.Normalized.Dml.Total.{insert_total}
use schema_to_table.Tests.{
  orders, decode_orders, order, decode_order, flat_orders, part, parts, result_of,
}
use schema_to_table.Tests.Runs.{
  flat_render, flat_cols, flat_lits, flat_rendered, model, planned, dml_run, order_stmts,
  order_upserted,
}

insert_matches_create_example :
    All
      (λ t. cols (row_cells model t [] (codes "'a1'" ∷ []) 1) ≡ names (all_columns model.headers t))
      model.tables
insert_matches_create_example =
    insert_matches_create 9 decode_orders (codes "{}") (codes "orders") (codes "id") [] model
      planned [] (codes "'a1'" ∷ []) 1

abbrev order_cols : List Text
order_cols = codes "id" ∷ codes "name" ∷ []

abbrev line_cols : List Text
line_cols = codes "orders_id" ∷ codes "row_no" ∷ codes "id" ∷ []

collect_values_mirror_example :
    Agree SameNames
      (walk_schema orders (codes "JSONB") 9 [] [] (some 0) [])
      (collect_values orders (codes "JSONB") 9 [] [] (some 0) order [])
collect_values_mirror_example =
    collect_values_mirror orders (codes "JSONB") 9 [] [] (some 0) order [] [] (λ k. refl)

insert-IsUpsert_example : IsUpsert model decode_order [] (codes "{}") order_stmts
insert-IsUpsert_example =
    insert-IsUpsert 9 decode_orders (codes "{}") (codes "orders") (codes "id") [] model decode_order
      [] (codes "{}") (codes "id") order_stmts planned order_upserted

read_quoted-quote_literal_example :
    read_quoted b'\'' (quote_literal (codes "it's") ++ codes ", 1)")
    ≡ some (codes "it's", codes ", 1)")
read_quoted-quote_literal_example = read_quoted-quote_literal (codes "it's") (codes ", 1)") refl

read_quoted-quote_ident_example :
    read_quoted b'"' (quote_ident (codes "Order No") ++ codes " TEXT")
    ≡ some (ident_name (codes "Order No"), codes " TEXT")
read_quoted-quote_ident_example = read_quoted-quote_ident (codes "Order No") (codes " TEXT") refl

named : is_empty (trim_space (codes "orders")) ≡ false
unfolding flat_render
named = refl

keyed : is_empty (trim_space (codes "id")) ≡ false
unfolding flat_render
keyed = refl

upsert_succeeds_example :
    ((stmt : Text) × (Landing.upsert decode_order flat_orders
          (codes "orders")
          []
          (codes "{}")
          (codes "id")
        ≡ ok stmt))
    ↔ ((contains flat_cols (sanitize_ident (codes "id")) ≡ true) × (2 ≤ length flat_cols))
upsert_succeeds_example =
    upsert_succeeds decode_order flat_orders [] (codes "orders") (codes "{}") (codes "id") flat_cols
      flat_lits named keyed flat_rendered

no_self_keys : NoSelfKeys order (arrays model.tree)
unfolding dml_run
no_self_keys = ((refl, tt), tt)

nested_rows_lost_example :
    render_children model (arrays model.tree) order (codes "'a1'" ∷ []) []
    ≡ render_children model (first_level (arrays model.tree)) order (codes "'a1'" ∷ []) []
nested_rows_lost_example =
    nested_rows_lost 9 decode_orders (codes "{}") (codes "orders") (codes "id") [] model order
      (codes "'a1'" ∷ []) [] planned no_self_keys

abbrev decode_parts : Text → Option Document
decode_parts _ = some parts

plan-IsRow_example : RootThenRows model.tables
plan-IsRow_example =
    plan-IsRow 9 decode_orders (codes "{}") (codes "orders") (codes "id") [] model planned

insert_total_example : Ends (Dml.insert model decode_order true [] (codes "{}") (codes "id"))
insert_total_example = insert_total model decode_order true [] (codes "{}") (codes "id")

table_operations_total_example :
    Ends (Landing.create_table flat_orders (codes "orders") [])
    × Ends (Landing.insert decode_order flat_orders (codes "orders") [] (codes "{}"))
    × Ends (Landing.upsert decode_order flat_orders (codes "orders") [] (codes "{}") (codes "id"))
table_operations_total_example =
    table_operations_total decode_order flat_orders [] (codes "orders") (codes "{}") (codes "id")

collect_values_total_example : Ends (collect_values parts (codes "JSONB") 4 [] [] (some 0) order [])
collect_values_total_example = collect_values_total parts (codes "JSONB") [] (some 0) order []

ident_name_bounds_example :
    (length (ident_name (codes "Order No")) ≤ 63) × All IsIdent (ident_name (codes "Order No"))
ident_name_bounds_example = ident_name_bounds (codes "Order No")

ident_name_idem_example : ident_name (ident_name (codes "Order No")) ≡ ident_name (codes "Order No")
ident_name_idem_example = ident_name_idem (codes "Order No")

abbrev headers : List (Text × Text)
headers = (codes "source", codes "TEXT") ∷ (codes "at", codes "DATE") ∷ []

sorted_keys-IsSorted_example :
    IsSorted (sorted_keys headers) × Perm (sorted_keys headers) (keys headers)
sorted_keys-IsSorted_example = sorted_keys-IsSorted headers

abbrev flat_columns : List Column
flat_columns = result_of [] (columns flat_orders headers)

planned_columns : columns flat_orders headers ≡ ok flat_columns
unfolding flat_render
planned_columns = refl

columns-IsPlanned_example : IsPlanned flat_columns
columns-IsPlanned_example = columns-IsPlanned flat_orders headers flat_columns planned_columns

header_names-Distinct : Distinct (map header_name (sorted_keys headers))
unfolding flat_render
header_names-Distinct = (refl, (refl, tt))

columns_headers_first_example :
    (more : List Column) × (flat_columns
      ≡ map (header_column headers) (sorted_keys headers) ++ more)
columns_headers_first_example =
    columns_headers_first flat_orders headers flat_columns header_names-Distinct planned_columns

abbrev variant : Text → Consts
variant kind = (codes "version", codes "1") ∷ (codes "kind", kind) ∷ []

registry_rows-names_example :
    map (λ r. r.logical) (registry_rows model part)
    ≡ map (λ t. t.name) model.tables ++ map (view_name model) (children (arrays model.tree))
registry_rows-names_example =
    registry_rows-names 9 decode_orders (codes "{}") (codes "orders") (codes "id") [] model planned
      part
