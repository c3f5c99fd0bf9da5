-- ===== src/Cli/Exec.antt =====
-- The execution against a database in internal/cli/cli.go: what is dropped, and the statements up to
-- the first error. The database and the verb %q of fmt are parameters.
pub mod Order
pub mod Quoted
use mathlib.Core.List.{reverse}
use schema_to_table.Prelude.{
  ℕ, Bool, not, Option, some, List, [], ◌∷◌, ◌++◌, map, length, if◌then◌else◌,
}
use schema_to_table.Text.{Text, codes, concat}
use schema_to_table.Text.Split.{trim_prefix}
use schema_to_table.Outcome.{
  Error, open_failed, connect_failed, drop_failed, exec_failed, Outcome, ok, err, panic, diverge,
  ◌>>=◌, wrap,
}
use schema_to_table.Schema.Node.{Document}
use schema_to_table.Normalized.Model.{TableSpec, arrays, spec}
use schema_to_table.Normalized.Plan.{Model, plan}
use schema_to_table.Normalized.Ddl.{children}
use schema_to_table.Cli.Helpers.{or_default}
use schema_to_table.Cli.Headers.{StringMap}
use schema_to_table.Cli.Build.{LabeledStmt}
use schema_to_table.Cli.Flags.{Flags}

-- What is dropped in front of the statements, each with its label in an error; `quote` is the verb
-- %q.
unfoldable pub drop_view : (Text → Text) → Model → TableSpec → LabeledStmt
drop_view quote m child =
    let name = (spec m.tree).name in
    let view = codes "v_" ++ (name ++ (codes "_" ++ trim_prefix child.name (name ++ codes "_"))) in
    record { label = codes "view " ++ view; sql = codes "DROP VIEW IF EXISTS " ++ quote view }

unfoldable pub drop_table : (Text → Text) → Text → Text → LabeledStmt
drop_table quote label name = record {
  label = label;
  sql = concat (codes "DROP TABLE IF EXISTS " ∷ quote name ∷ codes " CASCADE" ∷ []);
}

unfoldable pub drop_statements :
    ℕ
    → (Text → Option Document)
    → (Text → Text)
    → Flags
    → Text
    → StringMap
    → Outcome (List LabeledStmt)
unfolding drop_view drop_table
drop_statements fuel decode_schema quote f schema_doc types =
    if not f.drop
    then ok []
    else if f.model_mode
    then (do
      m ←
          wrap (codes "drop/plan")
            (plan fuel decode_schema schema_doc f.table_name (or_default f.pk (codes "id")) types)
      ok (
          map (drop_view quote m) (children (arrays m.tree))
          ++ (map (λ t. drop_table quote t.name t.name) (reverse m.tables)
              ++ (drop_table quote (codes "registry") (f.table_name ++ codes "_registry") ∷ []))))
    else ok (drop_table quote f.table_name f.table_name ∷ [])

-- The database: whether it can be opened and answers, and what a statement does; false is an error.
pub record Database (S : Type 0) : Type 0 where
  pub opens : Text → Bool
  pub answers : S → Bool
  pub exec : Text → S → S × Bool

module _ {S : Type 0} (d : Database S) where
  -- Execution up to the first error, which `failing` makes of the statement's label.
  unfoldable pub exec_all : (Text → Error) → List LabeledStmt → S → S × Outcome (Unit {0})
  exec_all failing [] db = (db, ok tt)
  exec_all failing (st ∷ stmts) db =
      let after = d.exec st.sql db in
      let rest = exec_all failing stmts after.0 in
      if after.1 then rest else (after.0, err (failing st.label))

  -- The drops and the statements, one after the other.
  unfoldable pub exec_both : List LabeledStmt → List LabeledStmt → S → S × Outcome (Option ℕ)
  unfolding exec_all
  exec_both drops stmts db =
      let dropped = exec_all drop_failed drops db in
      let executed = exec_all exec_failed stmts dropped.0 in
      elim dropped.1 [
        | ok _ ↦ (executed.0, executed.1 >>= λ _. ok (some (length stmts)))
        | err e ↦ (dropped.0, err e)
        | panic ↦ (dropped.0, panic)
        | diverge ↦ (dropped.0, diverge)
      ]

  unfoldable pub execute :
      Text → Outcome (List LabeledStmt) → List LabeledStmt → S → S × Outcome (Option ℕ)
  unfolding exec_both
  execute dsn drops stmts db =
      if not (d.opens dsn)
      then (db, err open_failed)
      else if not (d.answers db)
      then (db, err connect_failed)
      else elim drops [
        | ok drops ↦ exec_both drops stmts db
        | err e ↦ (db, err e)
        | panic ↦ (db, panic)
        | diverge ↦ (db, diverge)
      ]
