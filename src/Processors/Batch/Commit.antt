-- ===== src/Processors/Batch/Commit.antt =====
-- ProcessBatch of pkg/processors/processor.go within a transaction: the loop over the messages, and
-- the commit. What comes before, ensureSink and Begin, is in Processors.Session.
pub mod Atomic
pub mod Ensured
use schema_to_table.Prelude.{
  ℕ, ◌+◌, Bool, true, false, ◌&&◌, Option, none, some, List, [], ◌∷◌, length, if◌then◌else◌,
}
use schema_to_table.Text.{Text}
use schema_to_table.Processors.Loader.{SchemaLoader}
use schema_to_table.Processors.Batch.{
  Tx, Message, Cause, Status, done, crashed, failure, World, ProcessorConfig,
}

-- The counters, but those of the loader.
pub record Counters : Type 0 where
  pub batches_processed : ℕ
  pub batches_failed : ℕ
  pub messages_processed : ℕ
  pub permanent_errors : ℕ

-- What the loop gives: for every message the error that is set on it, or the cause that stops it.
pub data Walked : Type 0 where
  all_seen : List (Option Cause) → Walked
  stopped : Option Cause → Walked

-- The result of ProcessBatch: the messages' errors, or an error, or a panic.
pub data Processed : Type 0 where
  committed : List (Option Cause) → Processed
  aborted : Option Cause → Processed
  panicked : Processed

abbrev pub seen : Option Cause → Walked → Walked
seen e (all_seen es) = all_seen (e ∷ es)
seen e (stopped c) = stopped c

abbrev pub count_permanent : Counters → Counters
count_permanent c = record c { permanent_errors = c.permanent_errors + 1 }

module _ {S : Type 0} (per_message : Bool) (store : Message → World S → World S × Status) where
  -- One round of the loop over the messages, after storeMessage; `rest` is the loop over the others.
  unfoldable pub message_ends :
      (World S → Counters → Walked × World S × Counters)
      → Counters
      → World S × Status
      → Walked × World S × Counters
  message_ends rest c (w, done) = let r = rest w c in (seen none r.0, r.1, r.2)
  message_ends rest c (w, crashed) = (stopped none, w, c)
  message_ends rest c (w, failure permanent cause) =
      let r = rest w (count_permanent c) in
      if per_message && permanent
      then (seen (some cause) r.0, r.1, r.2)
      else (stopped (some cause), w, c)

  -- The loop of ProcessBatch. It is left at the first failure that is not set on its message.
  unfoldable pub store_messages : List Message → World S → Counters → Walked × World S × Counters
  unfolding message_ends
  store_messages [] w c = (all_seen [], w, c)
  store_messages (msg ∷ batch) w c = message_ends (λ w c. store_messages batch w c) c (store msg w)

  -- The end of ProcessBatch: Commit, or else the deferred Rollback, which leaves the database as it
  -- was before the batch.
  unfoldable pub finish_batch :
      Tx S → S → ℕ → Walked × World S × Counters → Processed × SchemaLoader × S × Counters
  finish_batch tx before size (stopped (some cause), w, c) =
      (aborted (some cause), w.loader, before, record c { batches_failed = c.batches_failed + 1 })
  finish_batch tx before size (stopped none, w, c) = (panicked, w.loader, before, c)
  finish_batch tx before size (all_seen errors, w, c) =
      if tx.commits w.db
      then (
        committed errors,
        w.loader,
        w.db,
        record c {
          batches_processed = c.batches_processed + 1;
          messages_processed = c.messages_processed + size;
        },
      )
      else (aborted none, w.loader, before, record c { batches_failed = c.batches_failed + 1 })

  -- ProcessBatch
  unfoldable pub process_batch :
      Tx S → List Message → SchemaLoader → S → Counters → Processed × SchemaLoader × S × Counters
  unfolding store_messages finish_batch
  process_batch tx batch loader db c =
      finish_batch tx db (length batch)
        (store_messages batch (record { loader = loader; db = db; ensured = [] }) c)
