-- ===== src/Normalized/Plan/Cycle.antt =====
-- A schema whose root is a plain object with one property, an array of the root again: on it planNode
-- of internal/normalized/model.go recurses without end.
use schema_to_table.Text.{Text}
use schema_to_table.Schema.Node
