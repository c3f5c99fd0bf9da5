-- ===== src/Processors/Session.antt =====
-- The life of a processor: its constructors in pkg/processors/insert.go and upsert.go, and ensureSink,
-- Close and ProcessBatch of processor.go. A connection of database/sql is a parameter. The counters
-- and the logger that wire may leave nil are counted all the same.
pub mod Counted
pub mod Life
use schema_to_table.Prelude.{
  ℕ, ◌+◌, Bool, true, false, not, Option, none, some, List, [], ◌∷◌, if◌then◌else◌,
}
use schema_to_table.Text.{Text}
use schema_to_table.Json.{Json}
use schema_to_table.Outcome.{Outcome, ok, ◌>>=◌}
use schema_to_table.Schema.Node.{Document}
use schema_to_table.Processors.Loader.{SchemaLoader, new_schema_loader}
use schema_to_table.Processors.Batch.{Tx, Message, Status, World, store_message}
use schema_to_table.Processors.Batch.Commit.{Counters, Processed, process_batch}
use schema_to_table.Processors.Config.{ParsedConfig, Settings, parse_config, processor_config}

-- The database while an operation runs: opening, none on an error, whether a ping is answered, and
-- whether a transaction begins.
pub record Driver (C S : Type 0) : Type 0 where
  pub opens : Text → Option C
  pub pings : C → Bool
  pub begins : C → Bool
  pub tx : Tx S

-- batchProcessor
pub record BatchProcessor (C : Type 0) : Type 0 where
  pub cfg : Settings
  pub upsert : Bool
  pub loader : SchemaLoader
  pub sink : Option C
  pub counters : Counters
  pub opened : Bool

-- newInsertProcessor and newUpsertProcessor
unfoldable pub new_processor : {C : Type 0} → Bool → ParsedConfig → Outcome (BatchProcessor C)
unfolding parse_config
new_processor upsert conf = do
  cfg ← parse_config conf
  ok (record {
    cfg = cfg;
    upsert = upsert;
    loader = new_schema_loader cfg.schema_ttl;
    sink = none;
    counters = record {
      batches_processed = 0;
      batches_failed = 0;
      messages_processed = 0;
      permanent_errors = 0;
    };
    opened = false;
  })

-- The result of a batch: it did not get to its messages, or it was processed.
pub data BatchResult : Type 0 where
  not_connected not_begun nil_sink : BatchResult
  processed : Processed → BatchResult

-- Close
unfoldable pub close : {C : Type 0} → BatchProcessor C → BatchProcessor C
close p = elim p.sink [ none ↦ p | some s ↦ record p { sink = none; opened = false } ]

abbrev pub count_failed : {C : Type 0} → BatchProcessor C → BatchProcessor C
count_failed p = record p {
  counters = record p.counters { batches_failed = p.counters.batches_failed + 1 };
}

module _ {C S : Type 0} where
  -- ensureSink, with true where there is no error
  unfoldable pub ensure_sink : Driver C S → BatchProcessor C → BatchProcessor C × Bool
  ensure_sink d p = if p.opened then (p, true) else elim (d.opens p.cfg.dsn) [
    | none ↦ (p, false)
    | some s ↦ if d.pings s then (record p { sink = some s; opened = true }, true) else (p, false)
  ]

  module _ (equal_fold : Text → Text → Bool) (fuel : ℕ) (decode_schema : Text → Option Document)
      (decode : Text → Option Json) (d : Driver C S) (batch : List Message) where
    -- The part of ProcessBatch in the transaction.
    unfoldable pub process_begun : BatchProcessor C → S → BatchResult × BatchProcessor C × S
    unfolding processor_config store_message process_batch
    process_begun p db =
        let cfg = processor_config p.upsert p.cfg in
        let (r, loader, after, counters) =
          process_batch cfg.per_message
            (store_message d.tx equal_fold fuel decode_schema decode cfg) d.tx batch p.loader db
            p.counters in
        (processed r, record p { loader = loader; counters = counters }, after)

    -- The part of ProcessBatch behind ensureSink. A nil sink is dereferenced.
    unfoldable pub process_opened : BatchProcessor C → S → BatchResult × BatchProcessor C × S
    unfolding process_begun
    process_opened p db = elim p.sink [
      | none ↦ (nil_sink, p, db)
      | some s ↦ if d.begins s then process_begun p db else (not_begun, count_failed p, db)
    ]

    -- ProcessBatch, with no other call in between; Session.Life also takes its two parts apart.
    unfoldable pub process : BatchProcessor C → S → BatchResult × BatchProcessor C × S
    unfolding ensure_sink process_opened
    process p db =
        let (q, connected) = ensure_sink d p in
        if connected then process_opened q db else (not_connected, count_failed q, db)
