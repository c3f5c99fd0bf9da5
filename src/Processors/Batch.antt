-- ===== src/Processors/Batch.antt =====
-- pkg/processors/processor.go, errors.go and alreadyExists of db.go: the messages of a batch are
-- stored one by one in one transaction. The database is a parameter, a state with the operations of
-- tx; so are strings.EqualFold, json.Unmarshal, and for every message the HTTP client and the
-- readings of the clock. The logger and the mutex of ensureSink are left out.
pub mod Transient
pub mod Rejected
pub mod Known
pub mod Commit
use schema_to_table.Prelude.{
  ℕ, Bool, true, false, not, ◌&&◌, ◌||◌, Option, none, some, List, [], ◌∷◌, if◌then◌else◌,
}
use schema_to_table.Text.{Text, codes, is_empty, trim_space, to_lower, contains_text}
use schema_to_table.Text.Equality.{same, contains}
use schema_to_table.Maps.{lookup}
use schema_to_table.Json.{Json}
use schema_to_table.Outcome.{Error, Outcome, ok, err, panic, diverge}
use schema_to_table.Schema.Node.{Document}
use schema_to_table.Normalized.Plan.{Model, plan}
use schema_to_table.Normalized.Ddl.{create_statements, view_statements}
use schema_to_table.Normalized.Registry.{registry_statements}
use schema_to_table.Normalized.Dml.{insert_statements, upsert_statements}
use schema_to_table.Processors.Loader.{
  SchemaLoader, Fetched, LoadError, Loaded, loaded, failed, rejected, load,
}

-- An error of the database: the code of a PgError, and the message.
pub record DbError : Type 0 where
  pub code : Option Text
  pub message : Text

-- alreadyExists
unfoldable pub already_exists : DbError → Bool
already_exists e =
    elim e.code [ none ↦ false | some c ↦ same c (codes "42P07") || same c (codes "42P16") ]
    || contains_text (to_lower e.message) (codes "already exists")

-- tx: Exec, and TableExists, which is none on an error. A commit fails or makes the state durable.
pub record Tx (S : Type 0) : Type 0 where
  pub exec : Text → S → S × Option DbError
  pub table_exists : Text → S → Option Bool
  pub commits : S → Bool

-- processorConfig, with the flag `upsert` of the processor; per_message is the value of on_error.
pub record ProcessorConfig : Type 0 where
  pub schema_url_header : Text
  pub table_name_header : Text
  pub pk : Text
  pub headers : List (Text × Text)
  pub create_model : Bool
  pub per_message : Bool
  pub upsert : Bool

-- A message: its metadata, its bytes, none if they cannot be read, and the client and the clock
-- while it is stored.
pub record Message : Type 0 where
  pub metadata : List (Text × Text)
  pub contents : Option Text
  pub get : Text → Fetched
  pub now : ℕ
  pub store_at : ℕ
  pub sweep_at : ℕ

pub data Cause : Type 0 where
  no_table_name no_schema_url contents_unreadable existence_unknown : Cause
  schema_failed : LoadError → Cause
  not_planned not_rendered : Error → Cause
  not_created not_executed : DbError → Cause

-- How the storing of a message ends. A failure is permanent or not; a crash is a panic, or a
-- recursion without end.
pub data Status : Type 0 where
  done crashed : Status
  failure : Bool → Cause → Status

-- What storeMessage changes: the loader, the database in the transaction, and `ensured`.
pub record World (S : Type 0) : Type 0 where
  pub loader : SchemaLoader
  pub db : S
  pub ensured : List Text

-- Go on where the status is done.
abbrev pub and_then :
    {S : Type 0} → World S × Status → (World S → World S × Status) → World S × Status
and_then (w, done) f = f w
and_then (w, s) f = (w, s)

-- Go on with the result of a function that has no effect, if there is one.
abbrev pub given :
    {S A : Type 0}
    → Outcome A
    → (Error → Status)
    → World S
    → (A → World S × Status)
    → World S × Status
given (ok a) failing w f = f a
given (err e) failing w f = (w, failing e)
given panic failing w f = (w, crashed)
given diverge failing w f = (w, crashed)

-- The last entry whose key is equal to the given one but for the case.
unfoldable pub walk_fold :
    (Text → Text → Bool) → Text → List (Text × Text) → Option Text → Option Text
walk_fold equal_fold key [] found = found
walk_fold equal_fold key ((k, v) ∷ metadata) found =
    walk_fold equal_fold key metadata (if equal_fold k key then some v else found)

-- metaGetFold
unfoldable pub meta_get_fold : (Text → Text → Bool) → Text → List (Text × Text) → Option Text
unfolding walk_fold
meta_get_fold equal_fold key metadata = elim (lookup key metadata) [
  | some v ↦ some v
  | none ↦ walk_fold equal_fold key metadata none
]

-- A required metadata value, trimmed; none if it is missing or blank.
unfoldable pub required_meta : (Text → Text → Bool) → Text → List (Text × Text) → Option Text
unfolding meta_get_fold
required_meta equal_fold key metadata = elim (meta_get_fold equal_fold key metadata) [
  | none ↦ none
  | some v ↦ if is_empty (trim_space v) then none else some (trim_space v)
]

-- headerValues
unfoldable pub ingestion_values :
    (Text → Text → Bool) → List (Text × Text) → List (Text × Text) → List (Text × Text)
unfolding meta_get_fold
ingestion_values equal_fold metadata [] = []
ingestion_values equal_fold metadata ((k, type) ∷ headers) =
    (k, elim (meta_get_fold equal_fold k metadata) [ none ↦ [] | some v ↦ v ])
    ∷ ingestion_values equal_fold metadata headers

module _ {S : Type 0} (tx : Tx S) where
  -- The loop of execStatements, which passes over objects that are there.
  unfoldable pub exec_ddl : List Text → World S → World S × Status
  unfolding already_exists
  exec_ddl [] w = (w, done)
  exec_ddl (stmt ∷ stmts) w =
      let (db, e) = tx.exec stmt w.db in
      let rest = exec_ddl stmts (record w { db = db }) in
      elim e [
        | none ↦ rest
        | some e ↦
            if already_exists e then rest else (record w { db = db }, failure false (not_created e))
      ]

  -- The loop over the rows' statements.
  unfoldable pub exec_rows : List Text → World S → World S × Status
  exec_rows [] w = (w, done)
  exec_rows (stmt ∷ stmts) w =
      let (db, e) = tx.exec stmt w.db in
      let rest = exec_rows stmts (record w { db = db }) in
      elim e [ none ↦ rest | some e ↦ (record w { db = db }, failure false (not_executed e)) ]

  -- The creation of the model, in three calls of execStatements. Their errors are not permanent.
  unfoldable pub create_model : Model → World S → World S × Status
  unfolding exec_ddl
  create_model m w =
      and_then
        (and_then
          (given (create_statements m) (λ e. failure false (not_planned e)) w
            λ stmts. exec_ddl stmts w)
          (λ w. exec_ddl (view_statements m) w))
        (λ w.
          given (registry_statements m) (λ e. failure false (not_planned e)) w
            λ stmts. exec_ddl stmts w)

  -- ensureModel
  unfoldable pub ensure_model : ProcessorConfig → Text → Model → World S → World S × Status
  unfolding create_model
  ensure_model cfg table_name m w =
      if not cfg.create_model
      then (w, done)
      else if contains w.ensured table_name
      then (w, done)
      else elim (tx.table_exists table_name w.db) [
        | none ↦ (w, failure false existence_unknown)
        | some exists ↦
            and_then (if exists then (w, done) else create_model m w)
              (λ w. (record w { ensured = table_name ∷ w.ensured }, done))
      ]

  module _ (equal_fold : Text → Text → Bool) (fuel : ℕ) (decode_schema : Text → Option Document)
      (decode : Text → Option Json) (cfg : ProcessorConfig) where
    -- InsertStatements or UpsertStatements
    unfoldable pub row_statements : Model → Message → Text → Outcome (List Text)
    unfolding ingestion_values
    row_statements m msg contents =
        let values = ingestion_values equal_fold msg.metadata cfg.headers in
        if cfg.upsert
        then upsert_statements m decode values contents cfg.pk
        else insert_statements m decode values contents

    -- The part of storeMessage behind ensureModel.
    unfoldable pub store_rows : Model → Message → World S → World S × Status
    unfolding row_statements exec_rows
    store_rows m msg w = elim msg.contents [
      | none ↦ (w, failure false contents_unreadable)
      | some contents ↦
          given (row_statements m msg contents) (λ e. failure true (not_rendered e)) w
            λ stmts. exec_rows stmts w
    ]

    -- The part of storeMessage behind Load.
    unfoldable pub store_planned : Text → Text → Message → World S → World S × Status
    unfolding ensure_model store_rows
    store_planned table_name schema_doc msg w =
        given (plan fuel decode_schema schema_doc table_name cfg.pk cfg.headers)
          (λ e. failure true (not_planned e)) w
          λ m. and_then (ensure_model cfg table_name m w) (λ w. store_rows m msg w)

    unfoldable pub store_loaded : Text → Message → Loaded → World S → World S × Status
    unfolding store_planned
    store_loaded table_name msg (loaded doc) w = store_planned table_name doc msg w
    store_loaded table_name msg (failed e) w = (w, failure false (schema_failed e))
    store_loaded table_name msg (rejected e) w = (w, failure true (schema_failed e))

    -- storeMessage
    unfoldable pub store_message : Message → World S → World S × Status
    unfolding required_meta store_loaded
    store_message msg w = elim (required_meta equal_fold cfg.table_name_header msg.metadata) [
      | none ↦ (w, failure true no_table_name)
      | some table_name ↦ elim (required_meta equal_fold cfg.schema_url_header msg.metadata) [
        | none ↦ (w, failure true no_schema_url)
        | some url ↦
            let (result, loader) = load msg.get msg.now msg.store_at msg.sweep_at url w.loader in
            store_loaded table_name msg result (record w { loader = loader })
      ]
    ]
