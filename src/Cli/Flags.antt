-- ===== src/Cli/Flags.antt =====
-- Flags of internal/cli/cli.go.
use schema_to_table.Prelude.{Bool}
use schema_to_table.Text.{Text}

pub record Flags : Type 0 where
  pub schema_path : Text
  pub data_dir : Text
  pub table_name : Text
  pub complex_type : Text
  pub conflict_column : Text
  pub mode : Text
  pub headers : Text
  pub header_values : Text
  pub dsn : Text
  pub drop : Bool
  pub pk : Text
  pub model_mode : Bool
