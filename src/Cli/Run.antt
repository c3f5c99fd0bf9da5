-- ===== src/Cli/Run.antt =====
-- Run of internal/cli/cli.go: flags, statements, printing, and execution.
pub mod Performed
pub mod Total
use schema_to_table.Prelude.{ℕ, Bool, not, Option, none, some, List, [], ◌∷◌, if◌then◌else◌}
use schema_to_table.Text.{Text, codes, is_empty}
use schema_to_table.Text.Equality.{contains}
use schema_to_table.Json.{Json}
use schema_to_table.Outcome.{
  invalid_mode, read_schema_failed, Outcome, ok, err, panic, diverge, ◌>>=◌,
}
use schema_to_table.Schema.Node.{Document}
use schema_to_table.Cli.Helpers.{FileSystem, data_files}
use schema_to_table.Cli.Headers.{StringMap, header_flags}
use schema_to_table.Cli.Build.{LabeledStmt, build_model_statements, build_flat_statements}
use schema_to_table.Cli.Flags.{Flags}
use schema_to_table.Cli.Exec.{Database, drop_statements, execute}

-- `switch f.Mode`
unfoldable pub valid_mode : Text → Bool
unfolding contains
valid_mode mode =
    contains (codes "create" ∷ codes "insert" ∷ codes "upsert" ∷ codes "all" ∷ []) mode

module _ (fs : FileSystem) (fuel : ℕ) (decode_schema : Text → Option Document)
    (decode : Text → Option Json) where
  -- What the checks and the files give: the schema's text, the header types, and the statements in
  -- the order of their execution.
  unfoldable pub build_statements : Flags → Outcome (Text × StringMap × List LabeledStmt)
  unfolding valid_mode
  build_statements f =
      if not (valid_mode f.mode)
      then err (invalid_mode f.mode)
      else elim (fs.read_file f.schema_path) [
        | none ↦ err read_schema_failed
        | some schema_doc ↦ do
          (types, values) ← header_flags f.mode f.headers f.header_values
          files ← data_files fs f.data_dir
          stmts ←
              (if f.model_mode
                then build_model_statements fs decode f.mode values fuel decode_schema schema_doc
                    f.table_name f.pk f.conflict_column types files
                else build_flat_statements fs decode f.mode values decode_schema schema_doc
                    f.complex_type f.table_name f.pk f.conflict_column types files)
          ok (schema_doc, types, stmts)
      ]

-- What a run leaves: the statements it printed, the database, and an error or the number of
-- statements executed, none if there is no DSN.
pub record RunResult (S : Type 0) : Type 0 where
  pub printed : List LabeledStmt
  pub db : S
  pub result : Outcome (Option ℕ)

module _ {S : Type 0} (d : Database S) (fs : FileSystem) (quote : Text → Text) (fuel : ℕ)
    (decode_schema : Text → Option Document) (decode : Text → Option Json) where
  -- The part of Run behind the building of the statements.
  unfoldable pub print_and_execute :
      Flags → Outcome (Text × StringMap × List LabeledStmt) → S → RunResult S
  unfolding drop_statements execute
  print_and_execute f (ok (schema_doc, types, stmts)) db =
      let ran =
        execute d f.dsn (drop_statements fuel decode_schema quote f schema_doc types) stmts db in
      if is_empty f.dsn
      then record { printed = stmts; db = db; result = ok none }
      else record { printed = stmts; db = ran.0; result = ran.1 }
  print_and_execute f (err e) db = record { printed = []; db = db; result = err e }
  print_and_execute f panic db = record { printed = []; db = db; result = panic }
  print_and_execute f diverge db = record { printed = []; db = db; result = diverge }

  -- Run
  unfoldable pub run : Flags → S → RunResult S
  unfolding build_statements print_and_execute
  run f db = print_and_execute f (build_statements fs fuel decode_schema decode f) db
