-- ===== src/Cli/Run/Performed.antt =====
-- What a run prints and executes.
use schema_to_table.Prelude.{
  ℕ, ◌≡◌, refl, true, false, Option, none, some, List, ◌++◌, ◌⊎◌, length, inl, inr, Bool-cases,
}
use schema_to_table.Text.{Text, is_empty}
use schema_to_table.Json.{Json}
use schema_to_table.Outcome.{Error, drop_failed, exec_failed, Outcome, ok, err, panic, diverge}
use schema_to_table.Schema.Node.{Document}
use schema_to_table.Cli.Helpers.{FileSystem}
use schema_to_table.Cli.Headers.{StringMap}
use schema_to_table.Cli.Build.{LabeledStmt}
use schema_to_table.Cli.Flags.{Flags}
use schema_to_table.Cli.Exec.{Database, drop_statements, exec_both, execute}
use schema_to_table.Cli.Exec.Order.{Executed, Stopped, RanBoth, exec_both-RanBoth}
use schema_to_table.Cli.Run.{build_statements, RunResult, print_and_execute, run}

module _ {S : Type 0} (d : Database S) (fs : FileSystem) (quote : Text → Text) (fuel : ℕ)
    (decode_schema : Text → Option Document) (decode : Text → Option Json) (f : Flags) where
  -- The statements that are built for the flags.
  pub record Built (stmts drops : List LabeledStmt) : Type 0 where
    pub schema_doc : Text
    pub types : StringMap
    pub built : build_statements fs fuel decode_schema decode f ≡ ok (schema_doc, types, stmts)
    pub dropped : drop_statements fuel decode_schema quote f schema_doc types ≡ ok drops

  -- A statement that failed, under its label, and what was executed before it.
  pub record Failed (stmts : List LabeledStmt) (e : Error) (db db' : S) : Type 0 where
    pub drops : List LabeledStmt
    pub built : Built stmts drops
    pub label : Text
    pub error : (e ≡ drop_failed label) ⊎ (e ≡ exec_failed label)
    pub stopped : Stopped d label (drops ++ stmts) db db'

  -- All the statements were executed, in front of them what is dropped.
  pub record Finished (stmts : List LabeledStmt) (n : ℕ) (db db' : S) : Type 0 where
    pub drops : List LabeledStmt
    pub built : Built stmts drops
    pub count : n ≡ length stmts
    pub executed : Executed d (drops ++ stmts) db db'

  abbrev pub Performed : S → RunResult S → Outcome (Option ℕ) → Type 0
  Performed db r (ok none) = (is_empty f.dsn ≡ true) × (r.db ≡ db)
  Performed db r (ok (some n)) = (is_empty f.dsn ≡ false) × Finished r.printed n db r.db
  Performed db r (err e) = (r.db ≡ db) ⊎ Failed r.printed e db r.db
  Performed db r _ = r.db ≡ db

  -- The same of what execute returns for the statements printed.
  abbrev ExecutedAs : List LabeledStmt → S → S × Outcome (Option ℕ) → Type 0
  ExecutedAs stmts db (db', ok none) = ⊥
  ExecutedAs stmts db (db', ok (some n)) = Finished stmts n db db'
  ExecutedAs stmts db (db', err e) = (db' ≡ db) ⊎ Failed stmts e db db'
  ExecutedAs stmts db (db', _) = db' ≡ db

  module _ (stmts : List LabeledStmt) (schema_doc : Text) (types : StringMap)
      (built : build_statements fs fuel decode_schema decode f
        ≡ ok (schema_doc, types, stmts)) where
    exec_both-ExecutedAs :
        (drops : List LabeledStmt) (db : S) (r : S × Outcome (Option ℕ))
        → drop_statements fuel decode_schema quote f schema_doc types ≡ ok drops
        → RanBoth d drops stmts db r
        → ExecutedAs stmts db r
    exec_both-ExecutedAs drops db (db', ok none) h r = r
    exec_both-ExecutedAs drops db (db', ok (some n)) h (count, executed) = record {
      drops = drops;
      built = record { schema_doc = schema_doc; types = types; built = built; dropped = h };
      count = count;
      executed = executed;
    }
    exec_both-ExecutedAs drops db (db', err e) h (label, error, stopped) = inr (record {
      drops = drops;
      built = record { schema_doc = schema_doc; types = types; built = built; dropped = h };
      label = label;
      error = error;
      stopped = stopped;
    })
    exec_both-ExecutedAs drops db (db', panic) h r = absurd r
    exec_both-ExecutedAs drops db (db', diverge) h r = absurd r

    execute-ExecutedAs :
        (db : S) (o : Outcome (List LabeledStmt))
        → drop_statements fuel decode_schema quote f schema_doc types ≡ o
        → ExecutedAs stmts db (execute d f.dsn o stmts db)
    unfolding execute
    execute-ExecutedAs db o h = elim (Bool-cases (d.opens f.dsn)) [
      | inr shut ↦ rw shut (inl refl)
      | inl opened ↦ elim (Bool-cases (d.answers db)) [
        | inr mute ↦ rw (opened, mute) (inl refl)
        | inl answers ↦ rw (opened, answers) (at_drops o h)
      ]
    ]
      where
        at_drops :
            (o : Outcome (List LabeledStmt))
            → drop_statements fuel decode_schema quote f schema_doc types ≡ o
            → ExecutedAs stmts db (elim o [
              | ok drops ↦ exec_both d drops stmts db
              | err e ↦ (db, err e)
              | panic ↦ (db, panic)
              | diverge ↦ (db, diverge)
            ])
        at_drops (ok drops) h =
            exec_both-ExecutedAs drops db (exec_both d drops stmts db) h
              (exec_both-RanBoth d drops stmts db)
        at_drops (err e) h = inl refl
        at_drops panic h = refl
        at_drops diverge h = refl

    printed-Performed :
        (db : S) (ran : S × Outcome (Option ℕ))
        → is_empty f.dsn ≡ false
        → ExecutedAs stmts db ran
        → Performed db (record { printed = stmts; db = ran.0; result = ran.1 }) ran.1
    printed-Performed db (db', ok none) h r = absurd r
    printed-Performed db (db', ok (some n)) h r = (h, r)
    printed-Performed db (db', err e) h r = r
    printed-Performed db (db', panic) h r = r
    printed-Performed db (db', diverge) h r = r

  -- A run that reports n executed statements has a DSN and printed n statements; it executed what is
  -- dropped and then the statements printed, one after the other in their order and all of them with
  -- success, and the database is what they led to. A run without a DSN leaves the database alone. If
  -- a run ends with an error then the database is as it was, or the error names one of these
  -- statements, which failed after all of those before it had succeeded, and none was executed behind
  -- it. A crash leaves the database as it was.
  pub run-Performed :
      (db : S)
      → Performed db
          (run d fs quote fuel decode_schema decode f db)
          (run d fs quote fuel decode_schema decode f db).result
  unfolding run print_and_execute
  run-Performed db = at_built (build_statements fs fuel decode_schema decode f) refl
    where
      at_built :
          (o : Outcome (Text × StringMap × List LabeledStmt))
          → build_statements fs fuel decode_schema decode f ≡ o
          → Performed db
              (print_and_execute d fs quote fuel decode_schema decode f o db)
              (print_and_execute d fs quote fuel decode_schema decode f o db).result
      at_built (ok (schema_doc, types, stmts)) h = elim (Bool-cases (is_empty f.dsn)) [
        | inl e ↦ rw e (e, refl)
        | inr e ↦ rw e (
            printed-Performed stmts schema_doc types h db _ e (
              execute-ExecutedAs stmts schema_doc types h db
                (drop_statements fuel decode_schema quote f schema_doc types) refl))
      ]
      at_built (err e) h = inl refl
      at_built panic h = refl
      at_built diverge h = refl
