-- ===== src/Processors/Batch/Known.antt =====
-- Storing a message takes no table from those that are known to be there.
use schema_to_table.Prelude.{
  ℕ, ◌≡◌, Bool, true, false, not, Option, none, some, List, [], ◌∷◌, arith, inl, inr, Bool-cases,
  if◌then◌else◌,
}
use schema_to_table.Text.{Text}
use schema_to_table.Text.Equality.{contains}
use schema_to_table.Json.{Json}
use schema_to_table.Outcome.{Error, Outcome, ok, err, panic, diverge}
use schema_to_table.Schema.Node.{Document}
use schema_to_table.Normalized.Plan.{Model, plan}
use schema_to_table.Normalized.Ddl.{create_statements, view_statements}
use schema_to_table.Normalized.Registry.{registry_statements}
use schema_to_table.Processors.Loader.{SchemaLoader, Loaded, loaded, failed, rejected, load}
use schema_to_table.Processors.Batch.{
  DbError, already_exists, Tx, ProcessorConfig, Message, Cause, Status, done, crashed, failure,
  World, and_then, given, required_meta, exec_ddl, exec_rows, create_model, ensure_model,
  row_statements, store_rows, store_planned, store_loaded, store_message, not_planned, not_rendered,
  not_created, not_executed,
}

module _ {S : Type 0} (t : Text) where
  -- The table is known to be there.
  abbrev pub Known : World S × Status → Type 0
  Known r = contains r.0.ensured t ≡ true

  Known-and_then :
      (r : World S × Status) (f : World S → World S × Status)
      → Known r
      → ((w : World S) → Known (w, done) → Known (f w))
      → Known (and_then r f)
  Known-and_then (w, done) f h k = k w h
  Known-and_then (w, crashed) f h k = h
  Known-and_then (w, failure b cause) f h k = h

  Known-given :
      {A : Type 0} (o : Outcome A) (c : Error → Status) (w : World S) (f : A → World S × Status)
      → Known (w, done)
      → ((a : A) → Known (f a))
      → Known (given o c w f)
  Known-given (ok a) c w f h k = k a
  Known-given (err e) c w f h k = h
  Known-given panic c w f h k = h
  Known-given diverge c w f h k = h

  module _ (tx : Tx S) where
    exec_ddl-Known :
        (stmts : List Text) (w : World S) → Known (w, done) → Known (exec_ddl tx stmts w)
    unfolding exec_ddl
    exec_ddl-Known [] w h = h
    exec_ddl-Known (stmt ∷ stmts) w h = at_error (tx.exec stmt w.db).1 (exec_ddl-Known stmts _ h)
      where
        w' : World S
        w' = record w { db = (tx.exec stmt w.db).0 }

        at_error :
            (e : Option DbError)
            → Known (exec_ddl tx stmts w')
            → Known (elim e [
              | none ↦ exec_ddl tx stmts w'
              | some e ↦
                  if already_exists e
                  then exec_ddl tx stmts w'
                  else (w', failure false (not_created e))
            ])
        at_error none k = k
        at_error (some e) k = elim (Bool-cases (already_exists e)) [
          | inl x ↦ rw x k
          | inr x ↦ rw x h
        ]

    exec_rows-Known :
        (stmts : List Text) (w : World S) → Known (w, done) → Known (exec_rows tx stmts w)
    unfolding exec_rows
    exec_rows-Known [] w h = h
    exec_rows-Known (stmt ∷ stmts) w h = at_error (tx.exec stmt w.db).1 (exec_rows-Known stmts _ h)
      where
        w' : World S
        w' = record w { db = (tx.exec stmt w.db).0 }

        at_error :
            (e : Option DbError)
            → Known (exec_rows tx stmts w')
            → Known (elim e [
              | none ↦ exec_rows tx stmts w'
              | some e ↦ (w', failure false (not_executed e))
            ])
        at_error none k = k
        at_error (some e) k = h

    create_model-Known : (m : Model) (w : World S) → Known (w, done) → Known (create_model tx m w)
    unfolding create_model
    create_model-Known m w h =
        Known-and_then (and_then created views) registered
          (Known-and_then created views
            (Known-given (create_statements m) (λ e. failure false (not_planned e)) w
              (λ stmts. exec_ddl tx stmts w) h (λ stmts. exec_ddl-Known stmts w h))
            (λ w k. exec_ddl-Known (view_statements m) w k))
          (λ w k.
            Known-given (registry_statements m) (λ e. failure false (not_planned e)) w
              (λ stmts. exec_ddl tx stmts w) k (λ stmts. exec_ddl-Known stmts w k))
      where
        created : World S × Status
        created =
            given (create_statements m) (λ e. failure false (not_planned e)) w
              λ stmts. exec_ddl tx stmts w

        views : World S → World S × Status
        views w = exec_ddl tx (view_statements m) w

        registered : World S → World S × Status
        registered w =
            given (registry_statements m) (λ e. failure false (not_planned e)) w
              λ stmts. exec_ddl tx stmts w

    -- ensureModel for any table.
    ensure_model-Known :
        (cfg : ProcessorConfig) (table_name : Text) (m : Model) (w : World S)
        → Known (w, done)
        → Known (ensure_model tx cfg table_name m w)
    unfolding ensure_model contains
    ensure_model-Known cfg table_name m w h = elim (Bool-cases (not cfg.create_model)) [
      | inl e ↦ rw e h
      | inr e ↦ elim (Bool-cases (contains w.ensured table_name)) [
        | inl f ↦ rw (e, f) h
        | inr f ↦ rw (e, f) (at_exists (tx.table_exists table_name w.db))
      ]
    ]
      where
        known : World S → World S × Status
        known w = (record w { ensured = table_name ∷ w.ensured }, done)

        added : (w : World S) → Known (w, done) → Known (known w)
        added w k = ground arith

        at_exists :
            (o : Option Bool)
            → Known (elim o [
              | none ↦ (w, failure false Cause.existence_unknown)
              | some exists ↦ and_then (if exists then (w, done) else create_model tx m w) known
            ])
        at_exists none = h
        at_exists (some true) = added w h
        at_exists (some false) =
            Known-and_then (create_model tx m w) known (create_model-Known m w h) added

    module _ (equal_fold : Text → Text → Bool) (fuel : ℕ) (decode_schema : Text → Option Document)
        (decode : Text → Option Json) (cfg : ProcessorConfig) where
      store_rows-Known :
          (m : Model) (msg : Message) (w : World S)
          → Known (w, done)
          → Known (store_rows tx equal_fold fuel decode_schema decode cfg m msg w)
      unfolding store_rows
      store_rows-Known m msg w h = at_contents msg.contents
        where
          at_contents :
              (o : Option Text)
              → Known (elim o [
                | none ↦ (w, failure false Cause.contents_unreadable)
                | some contents ↦
                    given
                      (row_statements tx equal_fold fuel decode_schema decode cfg m msg contents)
                      (λ e. failure true (not_rendered e))
                      w
                      λ stmts. exec_rows tx stmts w
              ])
          at_contents none = h
          at_contents (some contents) =
              Known-given
                (row_statements tx equal_fold fuel decode_schema decode cfg m msg contents)
                (λ e. failure true (not_rendered e)) w (λ stmts. exec_rows tx stmts w) h
                (λ stmts. exec_rows-Known stmts w h)

      store_loaded-Known :
          (table_name : Text) (msg : Message) (result : Loaded) (w : World S)
          → Known (w, done)
          → Known (store_loaded tx equal_fold fuel decode_schema decode cfg table_name msg result w)
      unfolding store_loaded store_planned
      store_loaded-Known table_name msg (failed e) w h = h
      store_loaded-Known table_name msg (rejected e) w h = h
      store_loaded-Known table_name msg (loaded doc) w h =
          Known-given (plan fuel decode_schema doc table_name cfg.pk cfg.headers)
            (λ e. failure true (not_planned e)) w
            (λ m. and_then (ensure_model tx cfg table_name m w) (rows m)) h
            (λ m.
              Known-and_then (ensure_model tx cfg table_name m w) (rows m)
                (ensure_model-Known cfg table_name m w h) (λ w k. store_rows-Known m msg w k))
        where
          rows : Model → World S → World S × Status
          rows m w = store_rows tx equal_fold fuel decode_schema decode cfg m msg w

      pub store_message-Known :
          (msg : Message) (w : World S)
          → Known (w, done)
          → Known (store_message tx equal_fold fuel decode_schema decode cfg msg w)
      unfolding store_message
      store_message-Known msg w h =
          at_name (required_meta equal_fold cfg.table_name_header msg.metadata)
        where
          served : Text → Loaded × SchemaLoader
          served url = load msg.get msg.now msg.store_at msg.sweep_at url w.loader

          at_url :
              (table_name : Text) (o : Option Text)
              → Known (elim o [
                | none ↦ (w, failure true Cause.no_schema_url)
                | some url ↦
                    store_loaded tx equal_fold fuel decode_schema decode cfg table_name msg
                      (served url).0
                      (record w { loader = (served url).1 })
              ])
          at_url table_name none = h
          at_url table_name (some url) = store_loaded-Known table_name msg (served url).0 _ h

          at_name :
              (o : Option Text)
              → Known (elim o [
                | none ↦ (w, failure true Cause.no_table_name)
                | some table_name ↦
                    elim (required_meta equal_fold cfg.schema_url_header msg.metadata) [
                      | none ↦ (w, failure true Cause.no_schema_url)
                      | some url ↦
                          store_loaded tx equal_fold fuel decode_schema decode cfg table_name msg
                            (served url).0
                            (record w { loader = (served url).1 })
                    ]
              ])
          at_name none = h
          at_name (some table_name) =
              at_url table_name (required_meta equal_fold cfg.schema_url_header msg.metadata)
