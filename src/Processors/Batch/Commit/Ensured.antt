-- ===== src/Processors/Batch/Commit/Ensured.antt =====
-- A table whose model is ensured once is left alone for the rest of the batch.
use schema_to_table.Prelude.{
  ℕ, ◌≡◌, refl, subst, Bool, true, false, Option, none, some, List, ◌∷◌, inl, inr, Bool-cases,
  if◌then◌else◌,
}
use schema_to_table.Text.{Text}
use schema_to_table.Text.Equality.{same_refl, contains}
use schema_to_table.Json.{Json}
use schema_to_table.Schema.Node.{Document}
use schema_to_table.Normalized.Plan.{Model}
use schema_to_table.Processors.Batch.{
  Tx, ProcessorConfig, Message, Cause, Status, done, crashed, failure, World, and_then,
  create_model, ensure_model, store_message,
}
use schema_to_table.Processors.Batch.Commit.Atomic.{StoredAs, all_stored, one_stored}
use schema_to_table.Processors.Batch.Known.{Known, store_message-Known}

module _ {S : Type 0} (t : Text) where
  module _ (tx : Tx S) where
    module _ (equal_fold : Text → Text → Bool) (fuel : ℕ) (decode_schema : Text → Option Document)
        (decode : Text → Option Json) (cfg : ProcessorConfig) where
      StoredAs-Known :
          (per_message : Bool) (batch : List Message) (errors : List (Option Cause))
          (w w' : World S)
          → StoredAs per_message
              (store_message tx equal_fold fuel decode_schema decode cfg)
              batch
              errors
              w
              w'
          → Known t (w, done)
          → Known t (w', done)
      StoredAs-Known per_message _ _ w _ all_stored h = h
      StoredAs-Known per_message _ _ w w'' (one_stored {batch} {errors} {w'} msg e stored p rest)
            h =
          StoredAs-Known per_message batch errors w' w'' rest (
            subst (Known t) stored
              (store_message-Known t tx equal_fold fuel decode_schema decode cfg msg w h))

    abbrev noted : World S → World S × Status
    noted w = (record w { ensured = t ∷ w.ensured }, done)

    noted-Known :
        (r : World S × Status) (w' : World S) → and_then r noted ≡ (w', done) → Known t (w', done)
    unfolding contains
    noted-Known (v, done) w' h = subst (Known t) h (rw (same_refl t) refl)
    noted-Known (v, crashed) w' h = absurd (cc h)
    noted-Known (v, failure b cause) w' h = absurd (cc h)

    -- What ensureModel leaves where it succeeds.
    ensure_model_done :
        (cfg : ProcessorConfig) (m : Model) (w w' : World S)
        → ensure_model tx cfg t m w ≡ (w', done)
        → cfg.create_model ≡ true
        → Known t (w', done)
    unfolding ensure_model
    ensure_model_done cfg m w w' h c = elim (Bool-cases (contains w.ensured t)) [
      | inl f ↦ subst (Known t) (rw (c, f) at h) f
      | inr f ↦ at_exists (tx.table_exists t w.db) (rw (c, f) at h)
    ]
      where
        at_exists :
            (o : Option Bool)
            → ◌≡◌ {A = World S × Status}
                (elim o [
                  | none ↦ (w, failure false Cause.existence_unknown)
                  | some exists ↦ and_then (if exists then (w, done) else create_model tx m w) noted
                ])
                (w', done)
            → Known t (w', done)
        at_exists none e = absurd (cc e)
        at_exists (some true) e = noted-Known (w, done) w' e
        at_exists (some false) e = noted-Known (create_model tx m w) w' e

    ensure_model_still :
        (cfg : ProcessorConfig) (m : Model) (w : World S)
        → (cfg.create_model ≡ true → Known t (w, done))
        → ensure_model tx cfg t m w ≡ (w, done)
    unfolding ensure_model
    ensure_model_still cfg m w h = elim (Bool-cases cfg.create_model) [
      | inl c ↦ rw (c, h c) refl
      | inr c ↦ rw c refl
    ]

    -- Once ensureModel has succeeded for a table, it does nothing more for that table in the batch:
    -- after any messages that are stored or rejected in between, a call for the table, with whatever
    -- model, succeeds and leaves the database, the loader and the tables ensured as they are.
    pub ensured_once :
        (equal_fold : Text → Text → Bool) (fuel : ℕ) (decode_schema : Text → Option Document)
        (decode : Text → Option Json) (cfg : ProcessorConfig) (per_message : Bool) (m m' : Model)
        (batch : List Message) (errors : List (Option Cause)) (w w' w'' : World S)
        → ensure_model tx cfg t m w ≡ (w', done)
        → StoredAs per_message
            (store_message tx equal_fold fuel decode_schema decode cfg)
            batch
            errors
            w'
            w''
        → ensure_model tx cfg t m' w'' ≡ (w'', done)
    ensured_once equal_fold fuel decode_schema decode cfg per_message m m' batch errors w w' w'' h
          s =
        ensure_model_still cfg m' w'' λ c.
          StoredAs-Known equal_fold fuel decode_schema decode cfg per_message batch errors w' w'' s
            (ensure_model_done cfg m w w' h c)
