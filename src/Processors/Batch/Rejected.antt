-- ===== src/Processors/Batch/Rejected.antt =====
-- A message that is rejected for good has written no row.
use schema_to_table.Prelude.{
  ℕ, ◌≡◌, ◌⊎◌, refl, sym, ◌∙◌, ap, subst, Bool, true, false, Option, none, some, List, inl, inr,
}
use schema_to_table.Text.{Text}
use schema_to_table.Json.{Json}
use schema_to_table.Outcome.{Outcome, ok, err, panic, diverge}
use schema_to_table.Schema.Node.{Document}
use schema_to_table.Normalized.Plan.{Model, plan}
use schema_to_table.Processors.Loader.{SchemaLoader, Loaded, loaded, failed, rejected, load}
use schema_to_table.Processors.Batch.{
  Tx, ProcessorConfig, Message, Cause, Status, done, crashed, failure, World, and_then, given,
  required_meta, exec_rows, ensure_model, row_statements, store_rows, store_planned, store_loaded,
  store_message, not_planned, not_rendered,
}
use schema_to_table.Processors.Batch.Transient.{
  Permanently, Transient, exec_rows-Transient, ensure_model-Transient,
}

module _ {S : Type 0} (tx : Tx S) where
  module _ (equal_fold : Text → Text → Bool) (fuel : ℕ) (decode_schema : Text → Option Document)
      (decode : Text → Option Json) (cfg : ProcessorConfig) where
    store_rows-Permanently :
        (m : Model) (msg : Message) (w : World S)
        → Permanently
            (λ db. db ≡ w.db)
            (store_rows tx equal_fold fuel decode_schema decode cfg m msg w)
    unfolding store_rows
    store_rows-Permanently m msg w = at_contents msg.contents
      where
        P : World S × Status → Type 0
        P r = Permanently (λ db. db ≡ w.db) r

        widen : (r : World S × Status) → Transient r → P r
        widen (w, done) h = tt
        widen (w, crashed) h = tt
        widen (w, failure true cause) h = elim h [ ]
        widen (w, failure false cause) h = tt

        at_stmts :
            (o : Outcome (List Text))
            → P (given o (λ e. failure true (not_rendered e)) w λ stmts. exec_rows tx stmts w)
        at_stmts (ok stmts) = widen (exec_rows tx stmts w) (exec_rows-Transient tx stmts w)
        at_stmts (err e) = refl
        at_stmts panic = tt
        at_stmts diverge = tt

        at_contents :
            (o : Option Text)
            → P (elim o [
              | none ↦ (w, failure false Cause.contents_unreadable)
              | some contents ↦
                  given
                    (row_statements tx equal_fold fuel decode_schema decode cfg m msg contents)
                    (λ e. failure true (not_rendered e))
                    w
                    λ stmts. exec_rows tx stmts w
            ])
        at_contents none = tt
        at_contents (some contents) =
            at_stmts (row_statements tx equal_fold fuel decode_schema decode cfg m msg contents)

    -- The model of the message's table was planned from the schema that was loaded for its URL, and the
    -- database is as ensureModel left it, without an error, for that table and that model.
    pub record OnlyModel (msg : Message) (w : World S) (db : S) : Type 0 where
      pub table_name : Text
      pub url : Text
      pub doc : Text
      pub m : Model
      pub named : required_meta equal_fold cfg.table_name_header msg.metadata ≡ some table_name
      pub located : required_meta equal_fold cfg.schema_url_header msg.metadata ≡ some url
      pub read : (load msg.get msg.now msg.store_at msg.sweep_at url w.loader).0 ≡ loaded doc
      pub planned : plan fuel decode_schema doc table_name cfg.pk cfg.headers ≡ ok m
      pub left :
          db
          ≡ (ensure_model tx cfg table_name m (record w {
            loader = (load msg.get msg.now msg.store_at msg.sweep_at url w.loader).1;
          })).0.db
      pub created :
          (ensure_model tx cfg table_name m (record w {
            loader = (load msg.get msg.now msg.store_at msg.sweep_at url w.loader).1;
          })).1
          ≡ done

    -- The database is as before the message, or as the creation of its model left it.
    abbrev pub NoRows : Message → World S → S → Type 0
    NoRows msg w db = (db ≡ w.db) ⊎ OnlyModel msg w db

    module _ (msg : Message) (w : World S) (table_name url : Text)
        (named : required_meta equal_fold cfg.table_name_header msg.metadata ≡ some table_name)
        (located : required_meta equal_fold cfg.schema_url_header msg.metadata ≡ some url) where
      abbrev served : Loaded × SchemaLoader
      served = load msg.get msg.now msg.store_at msg.sweep_at url w.loader

      abbrev fetched : World S
      fetched = record w { loader = served.1 }

      abbrev P : World S × Status → Type 0
      P r = Permanently (NoRows msg w) r

      abbrev rows : Model → World S → World S × Status
      rows m w = store_rows tx equal_fold fuel decode_schema decode cfg m msg w

      module _ (doc : Text) (read : served.0 ≡ loaded doc) where
        after :
            (m : Model) (r s : World S × Status)
            → plan fuel decode_schema doc table_name cfg.pk cfg.headers ≡ ok m
            → r.0.db ≡ (ensure_model tx cfg table_name m fetched).0.db
            → done ≡ (ensure_model tx cfg table_name m fetched).1
            → Permanently (λ db. db ≡ r.0.db) s
            → P s
        after m r (w', done) p e f h = tt
        after m r (w', crashed) p e f h = tt
        after m r (w', failure true cause) p e f h = inr (record {
          table_name = table_name;
          url = url;
          doc = doc;
          m = m;
          named = named;
          located = located;
          read = read;
          planned = p;
          left = h ∙ e;
          created = sym f;
        })
        after m r (w', failure false cause) p e f h = tt

        at_model :
            (m : Model) (r : World S × Status)
            → plan fuel decode_schema doc table_name cfg.pk cfg.headers ≡ ok m
            → r ≡ ensure_model tx cfg table_name m fetched
            → Transient r
            → P (and_then r (rows m))
        at_model m (w', done) p e h =
            after m (w', done) (rows m w') p (ap (λ r. r.0.db) e) (ap (λ r. r.1) e)
              (store_rows-Permanently m msg w')
        at_model m (w', crashed) p e h = tt
        at_model m (w', failure true cause) p e h = elim h [ ]
        at_model m (w', failure false cause) p e h = tt

        at_plan :
            (o : Outcome Model)
            → plan fuel decode_schema doc table_name cfg.pk cfg.headers ≡ o
            → P (
                given o
                  (λ e. failure true (not_planned e))
                  fetched
                  λ m. and_then (ensure_model tx cfg table_name m fetched) (rows m))
        at_plan (ok m) p =
            at_model m (ensure_model tx cfg table_name m fetched) p refl
              (ensure_model-Transient tx cfg table_name m fetched)
        at_plan (err e) p = inl refl
        at_plan panic p = tt
        at_plan diverge p = tt

        store_planned-NoRows :
            P (store_planned tx equal_fold fuel decode_schema decode cfg table_name doc msg fetched)
        unfolding store_planned
        store_planned-NoRows =
            at_plan (plan fuel decode_schema doc table_name cfg.pk cfg.headers) refl

      store_loaded-NoRows :
          (result : Loaded)
          → served.0 ≡ result
          → P (
              store_loaded tx equal_fold fuel decode_schema decode cfg table_name msg result
                fetched)
      unfolding store_loaded
      store_loaded-NoRows (loaded doc) e = store_planned-NoRows doc e
      store_loaded-NoRows (failed c) e = tt
      store_loaded-NoRows (rejected c) e = inl refl

    store_message-Permanently :
        (msg : Message) (w : World S)
        → Permanently
            (NoRows msg w)
            (store_message tx equal_fold fuel decode_schema decode cfg msg w)
    unfolding store_message
    store_message-Permanently msg w =
        at_name (required_meta equal_fold cfg.table_name_header msg.metadata) refl
      where
        loads : Text → Loaded × SchemaLoader
        loads url = load msg.get msg.now msg.store_at msg.sweep_at url w.loader

        at_url :
            (table_name : Text) (o : Option Text)
            → required_meta equal_fold cfg.table_name_header msg.metadata ≡ some table_name
            → required_meta equal_fold cfg.schema_url_header msg.metadata ≡ o
            → Permanently (NoRows msg w) (elim o [
              | none ↦ (w, failure true Cause.no_schema_url)
              | some url ↦
                  store_loaded tx equal_fold fuel decode_schema decode cfg table_name msg
                    (loads url).0
                    (record w { loader = (loads url).1 })
            ])
        at_url table_name none n e = inl refl
        at_url table_name (some url) n e =
            store_loaded-NoRows msg w table_name url n e (loads url).0 refl

        at_name :
            (o : Option Text)
            → required_meta equal_fold cfg.table_name_header msg.metadata ≡ o
            → Permanently (NoRows msg w) (elim o [
              | none ↦ (w, failure true Cause.no_table_name)
              | some table_name ↦
                  elim (required_meta equal_fold cfg.schema_url_header msg.metadata) [
                    | none ↦ (w, failure true Cause.no_schema_url)
                    | some url ↦
                        store_loaded tx equal_fold fuel decode_schema decode cfg table_name msg
                          (loads url).0
                          (record w { loader = (loads url).1 })
                  ]
            ])
        at_name none e = inl refl
        at_name (some table_name) e =
            at_url table_name (required_meta equal_fold cfg.schema_url_header msg.metadata) e refl

    -- A message with a permanent failure, which per_message rejects alone, has written no row: the
    -- database is as it was, or as ensureModel left it, run without an error for the table that the message names and
    -- for the model that Plan makes of the schema loaded for the message's URL.
    pub store_message-NoRows :
        (msg : Message) (w w' : World S) (cause : Cause)
        → store_message tx equal_fold fuel decode_schema decode cfg msg w ≡ (w', failure true cause)
        → NoRows msg w w'.db
    store_message-NoRows msg w w' cause h =
        subst (Permanently (NoRows msg w)) h (store_message-Permanently msg w)
