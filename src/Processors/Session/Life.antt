-- ===== src/Processors/Session/Life.antt =====
-- The calls of a processor between its construction and now. The calls come one after the other, or
-- those of different goroutines interleave: ensureSink and Close hold the mutex, and ProcessBatch
-- reads the sink between them without it.
use schema_to_table.Prelude.{ℕ, ◌+◌, ◌≡◌, Bool, true, false, Option, List, [], ◌∷◌, All, arith}
use schema_to_table.Text.{Text}
use schema_to_table.Json.{Json}
use schema_to_table.Outcome.{ok}
use schema_to_table.Outcome.Laws.{bind-eq-ok}
use schema_to_table.Schema.Node.{Document}
use schema_to_table.Processors.Batch.{Message}
use schema_to_table.Processors.Config.{ParsedConfig, parse_config}
use schema_to_table.Processors.Session.{
  Driver, BatchProcessor, new_processor, BatchResult, close, process, ensure_sink, count_failed,
  process_opened, not_connected,
}
use schema_to_table.Processors.Session.Counted.{
  commits, failures, Settled, NotNil, process-Ends, close-Settled, Counts, process_opened-Settled,
  ensure_sink-Settled,
}

abbrev pub total : (BatchResult → ℕ) → List BatchResult → ℕ
total f [] = 0
total f (r ∷ results) = f r + total f results

module _ {C : Type 0} where
  -- What holds of the processor and its results.
  abbrev pub IsCounted : Bool → BatchProcessor C → List BatchResult → Type 0
  IsCounted alone p results =
      Settled p
      × (alone ≡ true → All NotNil results)
      × (p.counters.batches_processed ≡ total commits results)
      × (p.counters.batches_failed ≡ total failures results)

  made-IsCounted :
      (alone upsert : Bool) (conf : ParsedConfig) (p : BatchProcessor C)
      → new_processor upsert conf ≡ ok p
      → IsCounted alone p []
  unfolding new_processor
  made-IsCounted alone upsert conf p h =
      let (cfg, _, e) = bind-eq-ok (parse_config conf) _ _ h in (cc e, λ _. tt, cc e, cc e)

module _ {C : Type 0} (S : Type 0) (equal_fold : Text → Text → Bool) (fuel : ℕ)
    (decode_schema : Text → Option Document) (decode : Text → Option Json) where
  -- A processor was made for some configuration, ran batches, of which the last result comes first,
  -- and was closed any number of times. The database may be another one for every batch. If it was
  -- not used alone, the parts of several calls may stand in any order: the locked section of
  -- ensureSink, the count of a batch that it refused, and the rest of a batch, which is one step.
  pub data Lives (alone : Bool) : BatchProcessor C → List BatchResult → Type 0 where
    made :
        {p : BatchProcessor C} (upsert : Bool) (conf : ParsedConfig)
        → new_processor upsert conf ≡ ok p
        → Lives alone p []
    ran :
        {p : BatchProcessor C} {results : List BatchResult} (d : Driver C S) (batch : List Message)
        (db : S)
        → Lives alone p results
        → Lives alone
            (process {S = S} equal_fold fuel decode_schema decode d batch p db).1
            ((process {S = S} equal_fold fuel decode_schema decode d batch p db).0 ∷ results)
    closed :
        {p : BatchProcessor C} {results : List BatchResult}
        → Lives alone p results
        → Lives alone (close p) results
    ensured :
        {p : BatchProcessor C} {results : List BatchResult} (d : Driver C S)
        → alone ≡ false
        → Lives alone p results
        → Lives alone (ensure_sink d p).0 results
    refused :
        {p : BatchProcessor C} {results : List BatchResult}
        → alone ≡ false
        → Lives alone p results
        → Lives alone (count_failed p) (not_connected ∷ results)
    entered :
        {p : BatchProcessor C} {results : List BatchResult} (d : Driver C S) (batch : List Message)
        (db : S)
        → alone ≡ false
        → Lives alone p results
        → Lives alone
            (process_opened {S = S} equal_fold fuel decode_schema decode d batch p db).1
            ((process_opened {S = S} equal_fold fuel decode_schema decode d batch p db).0 ∷ results)

  module _ (alone : Bool) where
    ran-IsCounted :
        (r : BatchResult × BatchProcessor C × S) (p : BatchProcessor C) (results : List BatchResult)
        → IsCounted alone p results
        → (alone ≡ true → NotNil r.0)
        → Settled r.1
        → Counts r.0 p.counters r.1.counters
        → IsCounted alone r.1 (r.0 ∷ results)
    ran-IsCounted (r, q, db) p results (s, n, e, f) m t (c, d) =
        (t, λ a. (m a, n a), omega (arith, e, c), omega (arith, f, d))

    -- The calls of a processor come one after the other, or interleave with a batch behind ensureSink
    -- as one step. Either way its connection is there just while it counts as opened, a batch that
    -- is committed is counted once as processed and one that ends with an error once as failed. If
    -- the calls come one after the other, no batch ever meets a missing connection.
    pub Lives-IsCounted :
        (p : BatchProcessor C) (results : List BatchResult)
        → Lives alone p results
        → IsCounted alone p results
    Lives-IsCounted p _ (made upsert conf h) = made-IsCounted alone upsert conf p h
    Lives-IsCounted _ _ (ran {p} {results} d batch db l) =
        let before = Lives-IsCounted p results l in
        let (m, t, c) = process-Ends equal_fold fuel decode_schema decode d batch p db before.0 in
        ran-IsCounted (process {S = S} equal_fold fuel decode_schema decode d batch p db) p results
          before (λ _. m) t c
    Lives-IsCounted _ results (closed {p} l) =
        let (s, n, e, f) = Lives-IsCounted p results l in
        let (t, c) = close-Settled p s in (t, n, rw c e, rw c f)
    Lives-IsCounted _ results (ensured {p} d a l) =
        let (s, n, e, f) = Lives-IsCounted p results l in
        let (t, c, _) = ensure_sink-Settled d p s in (t, n, rw c e, rw c f)
    Lives-IsCounted _ _ (refused {p} {results} a l) =
        let (s, n, e, f) = Lives-IsCounted p results l in
        (s, λ b. (tt, n b), omega (arith, e), omega (arith, f))
    Lives-IsCounted _ _ (entered {p} {results} d batch db a l) =
        let before = Lives-IsCounted p results l in
        let (t, c) =
          process_opened-Settled equal_fold fuel decode_schema decode d batch p db before.0 in
        ran-IsCounted (process_opened {S = S} equal_fold fuel decode_schema decode d batch p db) p
          results before (λ b. absurd (cc (a, b))) t c
