-- ===== src/Schema.antt =====
-- internal/schema: the SQL primitives and the JSON Schema nodes that both pipelines share.
pub mod Names
pub mod Node
pub mod Types
pub mod Values
