-- ===== src/Schema/Values/Total.antt =====
-- CollectValues ends, also on a schema whose references form a cycle.
use schema_to_table.Prelude.{
  ℕ, zero, suc, ◌+◌, ◌<◌, none, some, List, [], ◌∷◌, ◌++◌, length, arith, inl, inr, Bool-cases,
}
use schema_to_table.Text.{Text}
use schema_to_table.Json.{Json}
use schema_to_table.Outcome.{Outcome, each}
use schema_to_table.Outcome.Laws.{Ends, Ends-bind, Ends-each}
use schema_to_table.Schema.Names.{sorted_keys}
use schema_to_table.Schema.Node.{Node, Ptr, Document, deref, resolve, child}
use schema_to_table.Schema.Values.{
  Values, child_prefix, get_child, visits, collect_property, collect_node, collect_values,
}
use schema_to_table.Schema.Values.Visits.{room, room-le, room-deref, deref-Ends, resolve-Ends}

module _ (doc : Document) (complex_type : Text) where
  module _ (recur : Text → Ptr → Json → Values → Outcome Values)
      (h : (prefix : Text) (s : Ptr) (value : Json) (out : Values)
        → Ends (recur prefix s value out)) where
    collect_property-Ends :
        (prefix : Text) (properties : List (Text × Ptr)) (value : Json) (key : Text) (out : Values)
        → Ends (collect_property doc complex_type recur prefix properties value key out)
    unfolding collect_property
    collect_property-Ends prefix properties value key out =
        Ends-bind (resolve doc (child key properties)) _ (resolve-Ends doc (child key properties))
          λ r _.
            Ends-bind (deref doc r) _ (deref-Ends doc r)
              λ n _. ground (arith, h (child_prefix prefix key) r (get_child value key) out)

    collect_node-Ends :
        (prefix : Text) (n : Node) (value : Json) (out : Values)
        → Ends (collect_node doc complex_type recur prefix n value out)
    unfolding collect_node
    collect_node-Ends prefix n value out =
        Ends-bind (each (λ sub. recur prefix sub value) n.all_of out) _
          (Ends-each (λ sub. recur prefix sub value) (λ sub o. h prefix sub value o) n.all_of out)
          λ o₁ _.
            Ends-bind (each (λ sub. recur prefix sub value) (n.one_of ++ n.any_of) o₁) _
              (Ends-each (λ sub. recur prefix sub value) (λ sub o. h prefix sub value o)
                (n.one_of ++ n.any_of) o₁)
              λ o₂ _.
                Ends-each (collect_property doc complex_type recur prefix n.properties value)
                  (collect_property-Ends prefix n.properties value) (sorted_keys n.properties) o₂

  pub collect_values-Ends :
      (fuel : ℕ) (visited : List Ptr) (prefix : Text) (s : Ptr) (value : Json) (out : Values)
      → room (length doc.nodes) visited < fuel
      → Ends (collect_values doc complex_type fuel visited prefix s value out)
  unfolding collect_values
  collect_values-Ends zero visited prefix s value out lt = elim lt [ ]
  collect_values-Ends (suc fuel) visited prefix none value out lt = tt
  collect_values-Ends (suc fuel) visited prefix (some i) value out lt =
      Ends-bind (resolve doc (some i)) _ (resolve-Ends doc (some i)) λ r _.
        elim (Bool-cases (visits visited r)) [
          | inl old ↦ rw old tt
          | inr new ↦ rw new (
              Ends-bind (deref doc r) _ (deref-Ends doc r) λ n e.
                collect_node-Ends (collect_values doc complex_type fuel (r ∷ visited))
                  (λ p q w o.
                    collect_values-Ends fuel (r ∷ visited) p q w o
                      (omega (arith, room-deref doc r n visited e new)))
                  prefix n value out)
        ]

  -- With as much fuel as the document has nodes, and one more, CollectValues ends on every schema,
  -- cyclic ones too, and on every payload: it returns, fails, or panics at a nil node.
  pub collect_values_total :
      (prefix : Text) (s : Ptr) (value : Json) (out : Values)
      → Ends (collect_values doc complex_type (length doc.nodes + 1) [] prefix s value out)
  collect_values_total prefix s value out =
      collect_values-Ends (length doc.nodes + 1) [] prefix s value out
        (omega (arith, room-le (length doc.nodes) []))
