-- ===== src/Processors/Session/Counted.antt =====
-- The connection and the counters of a processor through its life.
use schema_to_table.Prelude.{
  ℕ, ◌+◌, ◌≡◌, refl, sym, ◌∙◌, ap, Bool, true, false, ◌&&◌, Option, none, some, List, [], ◌∷◌,
  arith, length, inl, inr, Bool-cases, if◌then◌else◌,
}
use schema_to_table.Text.{Text}
use schema_to_table.Json.{Json}
use schema_to_table.Schema.Node.{Document}
use schema_to_table.Processors.Loader.{SchemaLoader}
use schema_to_table.Processors.Batch.{Tx, Message, Status, done, crashed, failure, World}
use schema_to_table.Processors.Batch.Commit.{
  Counters, Walked, all_seen, stopped, committed, aborted, count_permanent, message_ends,
  store_messages, finish_batch, process_batch,
}
use schema_to_table.Processors.Session.{
  Driver, BatchProcessor, BatchResult, not_connected, not_begun, nil_sink, processed, ensure_sink,
  close, count_failed, process_begun, process_opened, process,
}

-- 1 for a batch that was committed, 1 for one that ended with an error; a panic is neither.
abbrev pub commits : BatchResult → ℕ
commits (processed (committed errors)) = 1
commits _ = 0

abbrev pub failures : BatchResult → ℕ
failures not_connected = 1
failures not_begun = 1
failures (processed (aborted cause)) = 1
failures _ = 0

-- The counts of the batches are those before, and the one of the result.
abbrev pub Counts : BatchResult → Counters → Counters → Type 0
Counts r c c' =
    (c'.batches_processed ≡ c.batches_processed + commits r)
    × (c'.batches_failed ≡ c.batches_failed + failures r)

abbrev SameBatches : Counters → Counters → Type 0
SameBatches c c' =
    (c'.batches_processed ≡ c.batches_processed) × (c'.batches_failed ≡ c.batches_failed)

module _ {S : Type 0} (per_message : Bool) (store : Message → World S → World S × Status) where
  message_ends-SameBatches :
      (rest : World S → Counters → Walked × World S × Counters)
      → ((w : World S) (c : Counters) → SameBatches c (rest w c).2)
      → (c : Counters) (after : World S × Status)
      → SameBatches c (message_ends per_message store rest c after).2
  unfolding message_ends
  message_ends-SameBatches rest h c (w, done) = h w c
  message_ends-SameBatches rest h c (w, crashed) = (refl, refl)
  message_ends-SameBatches rest h c (w, failure permanent cause) =
      elim (Bool-cases (per_message && permanent)) [
        | inl e ↦ rw e (h w (count_permanent c))
        | inr e ↦ rw e (refl, refl)
      ]

  store_messages-SameBatches :
      (batch : List Message) (w : World S) (c : Counters)
      → SameBatches c (store_messages per_message store batch w c).2
  unfolding store_messages
  store_messages-SameBatches [] w c = (refl, refl)
  store_messages-SameBatches (msg ∷ batch) w c =
      message_ends-SameBatches (λ w c. store_messages per_message store batch w c)
        (λ w c. store_messages-SameBatches batch w c) c (store msg w)

  finish_batch-Counts :
      (tx : Tx S) (before : S) (size : ℕ) (c : Counters) (r : Walked × World S × Counters)
      → SameBatches c r.2
      → Counts
          (processed (finish_batch per_message store tx before size r).0)
          c
          (finish_batch per_message store tx before size r).3
  unfolding finish_batch
  finish_batch-Counts tx before size c (stopped (some cause), w, c') (e, f) =
      (omega (arith, e), omega (arith, f))
  finish_batch-Counts tx before size c (stopped none, w, c') (e, f) =
      (omega (arith, e), omega (arith, f))
  finish_batch-Counts tx before size c (all_seen errors, w, c') (e, f) =
      elim (Bool-cases (tx.commits w.db)) [
        | inl y ↦ rw y (omega (arith, e), omega (arith, f))
        | inr n ↦ rw n (omega (arith, e), omega (arith, f))
      ]

  process_batch-Counts :
      (tx : Tx S) (batch : List Message) (loader : SchemaLoader) (db : S) (c : Counters)
      → Counts
          (processed (process_batch per_message store tx batch loader db c).0)
          c
          (process_batch per_message store tx batch loader db c).3
  unfolding process_batch
  process_batch-Counts tx batch loader db c =
      finish_batch-Counts tx db (length batch) c _
        (store_messages-SameBatches batch (record { loader = loader; db = db; ensured = [] }) c)

abbrev pub has_sink {ℓ} : {C : Type ℓ} → Option C → Bool
has_sink none = false
has_sink (some s) = true

-- There is a sink just while the processor is opened.
abbrev pub Settled : {C : Type 0} → BatchProcessor C → Type 0
Settled p = p.opened ≡ has_sink p.sink

abbrev pub NotNil : BatchResult → Type 0
NotNil nil_sink = ⊥
NotNil _ = Unit

pub close-Settled :
    {C : Type 0} (p : BatchProcessor C)
    → Settled p
    → Settled (close p) × ((close p).counters ≡ p.counters)
unfolding close
close-Settled {C} p h = at_sink p.sink refl
  where
    at_sink :
        (o : Option C)
        → p.sink ≡ o
        → (let r : BatchProcessor C = elim o [
          | none ↦ p
          | some s ↦ record p { sink = none; opened = false }
        ] in
            Settled r × (r.counters ≡ p.counters))
    at_sink none e = (h, refl)
    at_sink (some s) e = (refl, refl)

module _ {C S : Type 0} where
  -- An opened processor that has not counted.
  pub ensure_sink-Settled :
      (d : Driver C S) (p : BatchProcessor C)
      → Settled p
      → Settled (ensure_sink d p).0
        × ((ensure_sink d p).0.counters ≡ p.counters)
        × ((ensure_sink d p).1 ≡ true → (ensure_sink d p).0.opened ≡ true)
  unfolding ensure_sink
  ensure_sink-Settled d p h = elim (Bool-cases p.opened) [
    | inl o ↦ rw o (sym o ∙ h, refl, λ _. refl)
    | inr o ↦ rw o (at_open (d.opens p.cfg.dsn))
  ]
    where
      at_open :
          (o : Option C)
          → (let r : BatchProcessor C × Bool = elim o [
            | none ↦ (p, false)
            | some s ↦
                if d.pings s then (record p { sink = some s; opened = true }, true) else (p, false)
          ] in
              Settled r.0 × (r.0.counters ≡ p.counters) × (r.1 ≡ true → r.0.opened ≡ true))
      at_open none = (h, refl, λ e. cc e)
      at_open (some s) = elim (Bool-cases (d.pings s)) [
        | inl y ↦ rw y (refl, refl, λ _. refl)
        | inr n ↦ rw n (h, refl, λ e. cc e)
      ]

  module _ (equal_fold : Text → Text → Bool) (fuel : ℕ) (decode_schema : Text → Option Document)
      (decode : Text → Option Json) where
    -- A result that is no nil dereference, a settled processor, and the counts.
    abbrev pub Ends : Counters → BatchResult × BatchProcessor C × S → Type 0
    Ends c (r, p, db) = NotNil r × Settled p × Counts r c p.counters

    -- Whether or not there is a sink.
    pub process_opened-Settled :
        (d : Driver C S) (batch : List Message) (p : BatchProcessor C) (db : S)
        → Settled p
        → (let (r, q, after) = process_opened equal_fold fuel decode_schema decode d batch p db in
            Settled q × Counts r p.counters q.counters)
    unfolding process_opened process_begun
    process_opened-Settled d batch p db h = at_sink p.sink
      where
        at_sink :
            (s : Option C)
            → (let (r, q, after) : BatchResult × BatchProcessor C × S = elim s [
              | none ↦ (nil_sink, p, db)
              | some s ↦
                  if d.begins s
                  then process_begun equal_fold fuel decode_schema decode d batch p db
                  else (not_begun, count_failed p, db)
            ] in
                Settled q × Counts r p.counters q.counters)
        at_sink none = (h, (omega arith, omega arith))
        at_sink (some s) = elim (Bool-cases (d.begins s)) [
          | inl y ↦ rw y (h, process_batch-Counts _ _ d.tx batch p.loader db p.counters)
          | inr n ↦ rw n (h, (omega arith, refl))
        ]

    process_opened-Ends :
        (d : Driver C S) (batch : List Message) (p : BatchProcessor C) (db : S)
        → Settled p
        → p.opened ≡ true
        → Ends p.counters (process_opened equal_fold fuel decode_schema decode d batch p db)
    unfolding process_opened process_begun
    process_opened-Ends d batch p db h o = at_sink p.sink refl
      where
        at_sink :
            (s : Option C)
            → p.sink ≡ s
            → Ends p.counters (elim s [
              | none ↦ (nil_sink, p, db)
              | some s ↦
                  if d.begins s
                  then process_begun equal_fold fuel decode_schema decode d batch p db
                  else (not_begun, count_failed p, db)
            ])
        at_sink none e = absurd (cc (h, o, ap has_sink e))
        at_sink (some s) e = elim (Bool-cases (d.begins s)) [
          | inl y ↦ rw y (tt, h, process_batch-Counts _ _ d.tx batch p.loader db p.counters)
          | inr n ↦ rw n (tt, h, (omega arith, refl))
        ]

    pub process-Ends :
        (d : Driver C S) (batch : List Message) (p : BatchProcessor C) (db : S)
        → Settled p
        → Ends p.counters (process equal_fold fuel decode_schema decode d batch p db)
    unfolding process
    process-Ends d batch p db h = at_ensured (ensure_sink d p) (ensure_sink-Settled d p h)
      where
        at_ensured :
            (r : BatchProcessor C × Bool)
            → Settled r.0 × (r.0.counters ≡ p.counters) × (r.1 ≡ true → r.0.opened ≡ true)
            → Ends p.counters (
                if r.1
                then process_opened equal_fold fuel decode_schema decode d batch r.0 db
                else (not_connected, count_failed r.0, db))
        at_ensured (q, true) (s, c, o) = rw (← c) (process_opened-Ends d batch q db s (o refl))
        at_ensured (q, false) (s, c, o) = rw (← c) (tt, s, (omega arith, refl))
