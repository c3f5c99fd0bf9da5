-- ===== src/Normalized.antt =====
-- internal/normalized: one typed table for each array of a JSON Schema.
pub mod Model
pub mod Consts
pub mod Plan
pub mod Ddl
pub mod Registry
pub mod Dml
