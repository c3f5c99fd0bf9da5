-- ===== src/Tests/Runs.antt =====
-- Runs of the operations on the test data.
use schema_to_table.Prelude.{◌≡◌, refl, true, List, [], ◌∷◌, map}
use schema_to_table.Text
use schema_to_table.Text.{Text, codes}
use schema_to_table.Text.Equality.{same, contains}
use schema_to_table.Maps.{lookup, put}
use schema_to_table.Json
use schema_to_table.Json.{Json}
use schema_to_table.Outcome.{Outcome, ok, err, conflict_unknown, each}
use schema_to_table.Schema.Names
use schema_to_table.Schema.Node
use schema_to_table.Schema.Types
use schema_to_table.Schema.Values
use schema_to_table.Landing
use schema_to_table.Landing.{Table}
use schema_to_table.Normalized.Model
use schema_to_table.Normalized.Plan
use schema_to_table.Normalized.Plan.{Model as PlannedModel}
use schema_to_table.Normalized.Consts
use schema_to_table.Normalized.Dml
use schema_to_table.Tests.{orders, decode_orders, decode_order, flat_orders, result_of}

-- The program's helpers, computed.
names_run : Text → Text
unfolding Names.quote_ident Names.quote_literal Names.ident_name Names.sanitize_ident
    Names.replace_runs Names.is_ident Names.to_snake Names.split_camel Names.is_boundary
    Names.hex_digits Names.sorted_keys Names.sort_texts Names.insert_text same contains lookup put
    each Text.lower Text.upper Text.to_lower Text.to_upper Text.is_space Text.in_range
    Text.trim_left Text.trim_right Text.trim_space Text.has_prefix Text.contains_text Text.double
    Text.join Text.text_le
names_run t = Names.quote_ident t

-- The reading of a schema, computed.
schema_run : Text → Text
unfolding names_run Node.parse Node.deref Node.child Node.resolve Types.sql_type Types.primary_type
    Types.unmarshal_text Types.is_array Types.is_composite Types.is_object Values.visits
    Values.child_prefix Values.get_child Values.parse_payload Values.collect_values
    Values.collect_node Values.collect_property Values.format_literal Values.serialize_complex
    Json.fields_list Json.items_list Json.format_float Json.format_int Json.marshal Json.show
schema_run t = names_run t

unfoldable pub flat_render : Outcome (List Text × List Text)
unfolding schema_run Landing.insert Landing.upsert Landing.create_table Landing.render_values
    Landing.columns Landing.walk_schema Landing.walk_node Landing.walk_property Landing.add_column
    Landing.header_type_shim Landing.literal Landing.walk_fuel Landing.updated
flat_render = Landing.render_values decode_order flat_orders [] (codes "{}")

abbrev pub flat_cols : List Text
flat_cols = codes "id" ∷ codes "lines" ∷ codes "name" ∷ []

abbrev pub flat_lits : List Text
flat_lits = codes "'a1'" ∷ codes "'[{\"sku\":\"x\",\"tags\":[\"t\"]}]'::JSONB" ∷ codes "NULL" ∷ []

pub flat_rendered :
    Landing.render_values decode_order flat_orders [] (codes "{}") ≡ ok (flat_cols, flat_lits)
unfolding flat_render
flat_rendered = refl

-- The conflict column is looked up by its sanitized name.
flat_upsert_unknown :
    Landing.upsert decode_order flat_orders (codes "orders") [] (codes "{}") (codes "Order No")
    ≡ err (conflict_unknown (codes "order_no"))
unfolding flat_render
flat_upsert_unknown = refl

unfoldable pub plan_run : Outcome PlannedModel
unfolding schema_run Plan.plan Plan.find_discriminator Plan.with_key Plan.pk_type Plan.table_order
    Plan.finish_spec Plan.finish_forest Plan.child_fk_cols Plan.drop_taken Plan.key_columns
    Plan.reorder_child_columns Plan.zip_columns Model.plan_node Model.plan_branches
    Model.plan_property Model.plan_child_table Model.has_table Model.type_of Model.is_scalar
    Model.add_model_column Model.append_tree Model.schema_desc Consts.detect_discriminator
plan_run = Plan.plan 9 decode_orders (codes "{}") (codes "orders") (codes "id") []

abbrev no_model : PlannedModel
no_model = record {
  tree = Model.table (Model.new_spec [] []) Model.nil;
  tables = [];
  discriminator = [];
  doc = orders;
  headers = [];
}

abbrev pub model : PlannedModel
model = result_of no_model (Plan.plan 9 decode_orders (codes "{}") (codes "orders") (codes "id") [])

-- The schema can be planned.
pub planned : Plan.plan 9 decode_orders (codes "{}") (codes "orders") (codes "id") [] ≡ ok model
unfolding plan_run
planned = refl

table_names :
    map (λ t. t.name) model.tables
    ≡ codes "orders" ∷ codes "orders_lines" ∷ codes "orders_lines_tags" ∷ []
unfolding plan_run
table_names = refl

key_of_tags :
    map (λ t. t.key_cols) model.tables
    ≡ (codes "id" ∷ [])
      ∷ (codes "orders_id" ∷ codes "row_no" ∷ [])
      ∷ (codes "orders_lines_orders_id" ∷ codes "orders_lines_row_no" ∷ codes "row_no" ∷ [])
      ∷ []
unfolding plan_run
key_of_tags = refl

unfoldable pub dml_run : Outcome (List Dml.Stmt)
unfolding plan_run Dml.insert Dml.insert_value Dml.root_literal Dml.root_statements
    Dml.render_children Dml.child_cells Dml.row_cells Dml.gather_row_values Dml.updates
    Dml.collect_deletes Dml.over_array Dml.over_items Dml.child_delete_stmt Dml.column_cells
    Dml.fk_cells Dml.header_cells Dml.header_values Dml.navigate_path Dml.step_into Dml.fits
    Landing.walk_fuel
dml_run = Dml.insert model decode_order true [] (codes "{}") (codes "id")

-- The statements of the upsert of the payload: no row of the tags is written.
abbrev pub order_stmts : List Dml.Stmt
order_stmts =
    Dml.delete_rows (codes "orders_lines") (codes "orders_id" ∷ []) (codes "'a1'" ∷ [])
    ∷ Dml.upsert_row (codes "orders") (codes "id" ∷ codes "name" ∷ [])
        (codes "'a1'" ∷ codes "NULL" ∷ []) (codes "id") (codes "name" ∷ [])
    ∷ Dml.insert_row (codes "orders_lines") (codes "orders_id" ∷ codes "row_no" ∷ codes "sku" ∷ [])
        (codes "'a1'" ∷ codes "1" ∷ codes "'x'" ∷ [])
    ∷ []

pub order_upserted :
    Dml.insert model decode_order true [] (codes "{}") (codes "id") ≡ ok order_stmts
unfolding dml_run
order_upserted = refl
