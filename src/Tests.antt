-- ===== src/Tests.antt =====
-- The data of the tests: a schema of orders with nested arrays, a recursive one, and a payload.
pub mod Runs
pub mod Examples
pub mod Streams
pub mod Ranks
pub mod Commands
pub mod Sessions
use schema_to_table.Prelude.{Option, none, some, List, [], ◌∷◌}
use schema_to_table.Text.{Text, codes}
use schema_to_table.Json.{Json, str, arr, obj, Items, nil, cons, Fields, end, field}
use schema_to_table.Outcome.{Outcome, ok, err, panic, diverge}
use schema_to_table.Schema.Node.{Node, Ptr, Document}
use schema_to_table.Landing.{Table}

abbrev pub node : Text → List (Text × Ptr) → Ptr → Node
node type properties items = record {
  type = some (str type);
  ref = [];
  format = [];
  const = none;
  title = [];
  description = [];
  properties = properties;
  items = items;
  all_of = [];
  one_of = [];
  any_of = [];
  defs = [];
}

-- {"properties": {"id": string, "name": string, "lines": array of {"sku": string, "tags": array of string}}}
abbrev pub orders : Document
orders = record {
  nodes =
      node (codes "object")
        ((codes "id", some 1) ∷ (codes "name", some 2) ∷ (codes "lines", some 3) ∷ []) none
      ∷ node (codes "string") [] none
      ∷ node (codes "string") [] none
      ∷ node (codes "array") [] (some 4)
      ∷ node (codes "object") ((codes "sku", some 5) ∷ (codes "tags", some 6) ∷ []) none
      ∷ node (codes "string") [] none
      ∷ node (codes "array") [] (some 7)
      ∷ node (codes "string") [] none
      ∷ [];
  root = 0;
}

-- A node whose array `sub` has items of the node itself, by a reference.
abbrev pub reference : Node
reference = record (node (codes "") [] none) { ref = codes "#/$defs/part" }

abbrev pub part : Node
part = record (node (codes "object") ((codes "sub", some 1) ∷ []) none) {
  defs = (codes "part", some 0) ∷ [];
}

abbrev pub parts : Document
parts = record { nodes = part ∷ node (codes "array") [] (some 2) ∷ reference ∷ []; root = 0 }

abbrev pub decode_orders : Text → Option Document
decode_orders _ = some orders

-- {"id": "a1", "lines": [{"sku": "x", "tags": ["t"]}]}
abbrev pub order : Json
order = obj (
    field (codes "id") (str (codes "a1")) (
      field (codes "lines")
        (arr (
          cons
            (obj (
              field (codes "sku") (str (codes "x"))
                (field (codes "tags") (arr (cons (str (codes "t")) nil)) end)))
            nil))
        end))

abbrev pub decode_order : Text → Option Json
decode_order _ = some order

abbrev pub flat_orders : Table
flat_orders = record { doc = orders; complex_type = codes "JSONB" }

abbrev pub result_of {ℓ} : {A : Type ℓ} → A → Outcome A → A
result_of d (ok a) = a
result_of d (err e) = d
result_of d panic = d
result_of d diverge = d
