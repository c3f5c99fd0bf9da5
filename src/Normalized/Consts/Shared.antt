-- ===== src/Normalized/Consts/Shared.antt =====
-- detectDiscriminator returns the first key of the first variant that is a constant in every
-- variant.
use schema_to_table.Text.{Text}
use schema_to_table.Normalized.Consts.{Consts}
