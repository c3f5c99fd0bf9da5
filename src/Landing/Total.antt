-- ===== src/Landing/Total.antt =====
-- walkSchema, and with it every operation of a Table, ends on cyclic schemas too.
use schema_to_table.Prelude.{
  ℕ, zero, suc, ◌+◌, ◌<◌, Option, none, some, List, [], ◌∷◌, ◌++◌, length, arith, inl, inr,
  Bool-cases,
}
use schema_to_table.Text.{Text, codes}
use schema_to_table.Json.{Json}
use schema_to_table.Outcome.{Outcome, wrap, each}
use schema_to_table.Outcome.Laws.{Ends, Ends-wrap, Ends-bind, Ends-each}
use schema_to_table.Schema.Names.{sorted_keys}
use schema_to_table.Schema.Node.{Node, Ptr, Document, deref, resolve, child}
use schema_to_table.Schema.Types.{Column}
use schema_to_table.Schema.Values.{child_prefix, visits, parse_payload, collect_values}
use schema_to_table.Schema.Values.Visits.{room, room-le, room-deref, deref-Ends, resolve-Ends}
use schema_to_table.Schema.Values.Total.{collect_values_total}
use schema_to_table.Landing.{
  Table, header_columns, header_literals, header_type_shim, walk_property, walk_node, walk_schema,
  walk_fuel, columns, create_table, render_values, insert, upsert,
}

module _ (doc : Document) (complex_type : Text) where
  module _ (recur : Text → Ptr → List Column → Outcome (List Column))
      (h : (prefix : Text) (s : Ptr) (cols : List Column) → Ends (recur prefix s cols)) where
    walk_property-Ends :
        (prefix : Text) (properties : List (Text × Ptr)) (key : Text) (cols : List Column)
        → Ends (walk_property doc complex_type recur prefix properties key cols)
    unfolding walk_property
    walk_property-Ends prefix properties key cols =
        Ends-bind (resolve doc (child key properties)) _ (resolve-Ends doc (child key properties))
          λ r _.
            Ends-bind (deref doc r) _ (deref-Ends doc r)
              λ n _. ground (arith, h (child_prefix prefix key) r cols)

    walk_node-Ends :
        (prefix : Text) (n : Node) (cols : List Column)
        → Ends (walk_node doc complex_type recur prefix n cols)
    unfolding walk_node
    walk_node-Ends prefix n cols =
        Ends-bind (each (λ sub. recur prefix sub) n.all_of cols) _
          (Ends-each (λ sub. recur prefix sub) (λ sub c. h prefix sub c) n.all_of cols)
          λ c₁ _.
            Ends-bind (each (λ sub. recur prefix sub) (n.one_of ++ n.any_of) c₁) _
              (Ends-each (λ sub. recur prefix sub) (λ sub c. h prefix sub c) (n.one_of ++ n.any_of)
                c₁)
              λ c₂ _.
                Ends-each (walk_property doc complex_type recur prefix n.properties)
                  (walk_property-Ends prefix n.properties) (sorted_keys n.properties) c₂

  walk_schema-Ends :
      (fuel : ℕ) (visited : List Ptr) (prefix : Text) (s : Ptr) (cols : List Column)
      → room (length doc.nodes) visited < fuel
      → Ends (walk_schema doc complex_type fuel visited prefix s cols)
  unfolding walk_schema
  walk_schema-Ends zero visited prefix s cols lt = elim lt [ ]
  walk_schema-Ends (suc fuel) visited prefix none cols lt = tt
  walk_schema-Ends (suc fuel) visited prefix (some i) cols lt =
      Ends-bind (resolve doc (some i)) _ (resolve-Ends doc (some i)) λ r _.
        elim (Bool-cases (visits visited r)) [
          | inl old ↦ rw old tt
          | inr new ↦ rw new (
              Ends-bind (deref doc r) _ (deref-Ends doc r) λ n e.
                walk_node-Ends (walk_schema doc complex_type fuel (r ∷ visited))
                  (λ p q c.
                    walk_schema-Ends fuel (r ∷ visited) p q c
                      (omega (arith, room-deref doc r n visited e new)))
                  prefix n cols)
        ]

columns-Ends : (t : Table) (headers : List (Text × Text)) → Ends (columns t headers)
unfolding columns
columns-Ends t headers =
    Ends-bind
      (wrap (codes "plan columns") (
        walk_schema t.doc t.complex_type (length t.doc.nodes + 1) [] [] (some t.doc.root)
          (header_columns headers (sorted_keys headers) [])))
      _
      (Ends-wrap _ _ (
        walk_schema-Ends t.doc t.complex_type (length t.doc.nodes + 1) [] [] (some t.doc.root)
          (header_columns headers (sorted_keys headers) [])
          (omega (arith, room-le (length t.doc.nodes) []))))
      λ cols _. ground arith

module _ (unmarshal : Text → Option Json) (t : Table) (headers : List (Text × Text)) where
  render_values-Ends : (payload : Text) → Ends (render_values unmarshal t headers payload)
  unfolding render_values parse_payload walk_fuel
  render_values-Ends payload =
      Ends-bind (columns t (header_type_shim (sorted_keys headers))) _
        (columns-Ends t (header_type_shim (sorted_keys headers)))
        λ planned _.
          Ends-bind (wrap (codes "render values") (parse_payload unmarshal payload)) _
            (ground arith)
            λ value _.
              Ends-bind
                (wrap (codes "render values") (
                  collect_values t.doc t.complex_type (length t.doc.nodes + 1) [] []
                    (some t.doc.root) value (header_literals headers (sorted_keys headers) [])))
                _
                (Ends-wrap (codes "render values") _ (
                  collect_values_total t.doc t.complex_type [] (some t.doc.root) value
                    (header_literals headers (sorted_keys headers) [])))
                λ values _. tt

  -- CreateTable, Insert and Upsert end on every schema, also where references form a cycle, on
  -- every table name, on all headers and on every payload.
  pub table_operations_total :
      (table_name payload conflict : Text)
      → Ends (create_table t table_name headers)
        × Ends (insert unmarshal t table_name headers payload)
        × Ends (upsert unmarshal t table_name headers payload conflict)
  unfolding create_table insert upsert
  table_operations_total table_name payload conflict = (
    ground (arith, columns-Ends t headers),
    ground (arith, render_values-Ends payload),
    ground (arith, render_values-Ends payload),
  )
