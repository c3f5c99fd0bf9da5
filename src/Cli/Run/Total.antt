-- ===== src/Cli/Run/Total.antt =====
-- A run ends.
use schema_to_table.Prelude.{
  ℕ, ◌<◌, ◌≡◌, refl, not, Option, some, List, inl, inr, Bool-cases, if◌then◌else◌,
}
use schema_to_table.Text.{Text, codes, is_empty}
use schema_to_table.Json.{Json}
use schema_to_table.Outcome.{Outcome, ok, err, panic, diverge, wrap}
use schema_to_table.Outcome.Laws.{Holds, Holds-bind, Ends, Ends-bind, Ends-if, Ends-wrap}
use schema_to_table.Schema.Node.{Ptr, Document}
use schema_to_table.Normalized.Plan.{plan}
use schema_to_table.Normalized.Plan.Ranked.{IsRanked}
use schema_to_table.Normalized.Plan.Total.{plan_total}
use schema_to_table.Cli.Helpers.{FileSystem, data_files, or_default}
use schema_to_table.Cli.Headers.{StringMap, header_flags}
use schema_to_table.Cli.Build.{LabeledStmt, build_model_statements, build_flat_statements}
use schema_to_table.Cli.Flags.{Flags}
use schema_to_table.Cli.Exec.{Database, drop_statements, exec_both, execute}
use schema_to_table.Cli.Exec.Order.{RanBoth, exec_both-RanBoth}
use schema_to_table.Cli.Run.{valid_mode, build_statements, print_and_execute, run}
use schema_to_table.Cli.Headers.Total.{header_flags-Ends, data_files-Ends}
use schema_to_table.Cli.Build.Total.{build_flat_statements-Ends, build_model_statements-Ends}

module _ (fs : FileSystem) (quote : Text → Text) (fuel : ℕ) (decode_schema : Text → Option Document)
    (decode : Text → Option Json) (schema_doc : Text) (doc : Document) (rank : Ptr → ℕ)
    (u : decode_schema schema_doc ≡ some doc) (r : IsRanked doc rank)
    (lt : rank (some doc.root) < fuel) where
  -- The statements of the mode.
  abbrev chosen : Flags → StringMap → StringMap → List Text → Outcome (List LabeledStmt)
  chosen f types values files =
      if f.model_mode
      then build_model_statements fs decode f.mode values fuel decode_schema schema_doc f.table_name
          f.pk f.conflict_column types files
      else build_flat_statements fs decode f.mode values decode_schema schema_doc f.complex_type
          f.table_name f.pk f.conflict_column types files

  build_statements-Ends :
      (f : Flags)
      → fs.read_file f.schema_path ≡ some schema_doc
      → Ends (build_statements fs fuel decode_schema decode f)
  unfolding build_statements
  build_statements-Ends f e = Ends-if (not (valid_mode f.mode)) _ _ tt (
      rw e (
        Ends-bind (header_flags f.mode f.headers f.header_values) _
          (header_flags-Ends f.mode f.headers f.header_values)
          λ (types, values) _.
            Ends-bind (data_files fs f.data_dir) _ (data_files-Ends fs f.data_dir) λ files _.
              Ends-bind (chosen f types values files) _
                (Ends-if f.model_mode _ _
                  (build_model_statements-Ends fs decode f.mode values fuel decode_schema schema_doc
                    doc rank u r lt f.table_name f.pk f.conflict_column types files)
                  (build_flat_statements-Ends fs decode f.mode values decode_schema schema_doc
                    f.complex_type f.table_name f.pk f.conflict_column types files))
                λ stmts _. tt))

  -- The schema that is given back is the one that is read.
  abbrev IsRead : Text × StringMap × List LabeledStmt → Type 0
  IsRead built = built.0 ≡ schema_doc

  build_statements-IsRead :
      (f : Flags)
      → fs.read_file f.schema_path ≡ some schema_doc
      → Holds IsRead (build_statements fs fuel decode_schema decode f)
  unfolding build_statements
  build_statements-IsRead f e = elim (Bool-cases (not (valid_mode f.mode))) [
    | inl bad ↦ rw bad tt
    | inr good ↦
        rw (good, e)
          (Holds-bind IsRead (header_flags f.mode f.headers f.header_values) _ λ h _.
            Holds-bind IsRead (data_files fs f.data_dir) _ λ files _.
              Holds-bind IsRead (chosen f h.0 h.1 files) (λ stmts. ok (schema_doc, h.0, stmts))
                λ stmts _. refl)
  ]

  drop_statements-Ends :
      (f : Flags) (types : StringMap)
      → Ends (drop_statements fuel decode_schema quote f schema_doc types)
  unfolding drop_statements
  drop_statements-Ends f types = Ends-if (not f.drop) _ _ tt (
      Ends-if f.model_mode _ _
        (Ends-bind
          (wrap (codes "drop/plan")
            (plan fuel decode_schema schema_doc f.table_name (or_default f.pk (codes "id")) types))
          _
          (Ends-wrap _ _
            (plan_total decode_schema doc rank fuel schema_doc f.table_name _ types u r lt))
          λ m _. tt)
        tt)

  module _ {S : Type 0} (d : Database S) where
    exec_both-Ends : (drops stmts : List LabeledStmt) (db : S) → Ends (exec_both d drops stmts db).1
    exec_both-Ends drops stmts db =
        of_result (exec_both d drops stmts db) (exec_both-RanBoth d drops stmts db)
      where
        of_result : (o : S × Outcome (Option ℕ)) → RanBoth d drops stmts db o → Ends o.1
        of_result (db', ok n) h = tt
        of_result (db', err e) h = tt
        of_result (db', panic) h = tt
        of_result (db', diverge) h = h

    execute-Ends :
        (dsn : Text) (o : Outcome (List LabeledStmt)) (stmts : List LabeledStmt) (db : S)
        → Ends o
        → Ends (execute d dsn o stmts db).1
    unfolding execute
    execute-Ends dsn o stmts db h = elim (Bool-cases (d.opens dsn)) [
      | inr shut ↦ rw shut tt
      | inl opened ↦ elim (Bool-cases (d.answers db)) [
        | inr mute ↦ rw (opened, mute) tt
        | inl answers ↦ rw (opened, answers) (at_drops o h)
      ]
    ]
      where
        at_drops :
            (o : Outcome (List LabeledStmt))
            → Ends o
            → (let after : S × Outcome (Option ℕ) = elim o [
              | ok drops ↦ exec_both d drops stmts db
              | err e ↦ (db, err e)
              | panic ↦ (db, panic)
              | diverge ↦ (db, diverge)
            ] in
                Ends after.1)
        at_drops (ok drops) h = exec_both-Ends drops stmts db
        at_drops (err e) h = tt
        at_drops panic h = tt
        at_drops diverge h = h

    -- A run on a schema file whose document has ranks, with fuel above that of the root, ends with a
    -- result: in every mode, with every flag, on every data directory and every database.
    pub run_total :
        (f : Flags) (db : S)
        → fs.read_file f.schema_path ≡ some schema_doc
        → Ends (run d fs quote fuel decode_schema decode f db).result
    unfolding run print_and_execute
    run_total f db e =
        at_built (build_statements fs fuel decode_schema decode f) (build_statements-Ends f e)
          (build_statements-IsRead f e)
      where
        at_built :
            (o : Outcome (Text × StringMap × List LabeledStmt))
            → Ends o
            → Holds IsRead o
            → Ends (print_and_execute d fs quote fuel decode_schema decode f o db).result
        at_built (ok (sd, types, stmts)) h same_doc = elim (Bool-cases (is_empty f.dsn)) [
          | inl x ↦ rw x tt
          | inr x ↦
              rw (x, same_doc)
                (execute-Ends f.dsn (drop_statements fuel decode_schema quote f schema_doc types)
                  stmts db (drop_statements-Ends f types))
        ]
        at_built (err x) h same_doc = tt
        at_built panic h same_doc = tt
        at_built diverge h same_doc = h
