-- ===== src/Processors/Batch/Commit/Atomic.antt =====
-- A batch is stored as a whole or not at all, but for messages whose permanent failure is reported.
use schema_to_table.Prelude.{
  ◌≡◌, refl, Bool, true, false, ◌&&◌, Option, none, some, List, [], ◌∷◌, length, inl, inr,
  Bool-cases, if◌then◌else◌,
}
use schema_to_table.Processors.Loader.{SchemaLoader}
use schema_to_table.Processors.Batch.{Tx, Message, Cause, Status, done, crashed, failure, World}
use schema_to_table.Processors.Batch.Commit.{
  Counters, Walked, all_seen, stopped, Processed, committed, seen, count_permanent, message_ends,
  store_messages, finish_batch, process_batch,
}

-- The status behind the error that is set on a message.
abbrev pub status_of : Option Cause → Status
status_of none = done
status_of (some cause) = failure true cause

-- An error is set on a message only if the failures of messages are theirs alone.
abbrev pub Permitted : Bool → Option Cause → Type 0
Permitted per_message none = Unit
Permitted per_message (some cause) = per_message ≡ true

module _ {S : Type 0} (per_message : Bool) (store : Message → World S → World S × Status) where
  -- The messages, stored in their order from the first world to the last, end as the errors tell.
  pub data StoredAs : List Message → List (Option Cause) → World S → World S → Type 0 where
    all_stored : {w : World S} → StoredAs [] [] w w
    one_stored :
        {batch : List Message} {errors : List (Option Cause)} {w w' w'' : World S} (msg : Message)
        (e : Option Cause)
        → store msg w ≡ (w', status_of e)
        → Permitted per_message e
        → StoredAs batch errors w' w''
        → StoredAs (msg ∷ batch) (e ∷ errors) w w''

  abbrev WalkedAs : List Message → World S → Walked × World S × Counters → Type 0
  WalkedAs batch w (all_seen errors, w', c) = StoredAs batch errors w w'
  WalkedAs batch w (stopped cause, w', c) = Unit

  WalkedAs-seen :
      (msg : Message) (batch : List Message) (e : Option Cause) (w w' : World S)
      (r : Walked × World S × Counters)
      → store msg w ≡ (w', status_of e)
      → Permitted per_message e
      → WalkedAs batch w' r
      → WalkedAs (msg ∷ batch) w (seen e r.0, r.1, r.2)
  WalkedAs-seen msg batch e w w' (all_seen errors, w'', c) h p s = one_stored msg e h p s
  WalkedAs-seen msg batch e w w' (stopped cause, w'', c) h p s = tt

  message_ends-WalkedAs :
      (msg : Message) (batch : List Message) (w : World S) (c : Counters)
      (rest : World S → Counters → Walked × World S × Counters)
      → ((w' : World S) (c' : Counters) → WalkedAs batch w' (rest w' c'))
      → (after : World S × Status) → store msg w ≡ after
      → WalkedAs (msg ∷ batch) w (message_ends per_message store rest c after)
  unfolding message_ends
  message_ends-WalkedAs msg batch w c rest r (w', done) h =
      WalkedAs-seen msg batch none w w' (rest w' c) h tt (r w' c)
  message_ends-WalkedAs msg batch w c rest r (w', crashed) h = tt
  message_ends-WalkedAs msg batch w c rest r (w', failure permanent cause) h =
      at_rule per_message permanent refl refl
    where
      skipped : Walked × World S × Counters
      skipped = rest w' (count_permanent c)

      at_rule :
          (p q : Bool)
          → per_message ≡ p
          → permanent ≡ q
          → WalkedAs (msg ∷ batch) w (
              if p && q
              then (seen (some cause) skipped.0, skipped.1, skipped.2)
              else (stopped (some cause), w', c))
      at_rule true true e f =
          WalkedAs-seen msg batch (some cause) w w' skipped (rw f at h) e (r w' (count_permanent c))
      at_rule true false e f = tt
      at_rule false q e f = tt

  store_messages-WalkedAs :
      (batch : List Message) (w : World S) (c : Counters)
      → WalkedAs batch w (store_messages per_message store batch w c)
  unfolding store_messages
  store_messages-WalkedAs [] w c = all_stored
  store_messages-WalkedAs (msg ∷ batch) w c =
      message_ends-WalkedAs msg batch w c (λ w c. store_messages per_message store batch w c)
        (λ w c. store_messages-WalkedAs batch w c) (store msg w) refl

-- What ProcessBatch leaves behind: the messages' errors and the whole of the work, if it is
-- committed, or else the database as it was.
abbrev pub IsAtomic :
    {S : Type 0}
    → Bool
    → (Message → World S → World S × Status)
    → Tx S
    → List Message
    → SchemaLoader
    → S
    → Processed × SchemaLoader × S × Counters
    → Type 0
IsAtomic {S} per_message store tx batch loader db (committed errors, loader', db', c) =
    (w : World S) × StoredAs per_message store batch errors
      (record { loader = loader; db = db; ensured = [] }) w
    × (w.db ≡ db')
    × (w.loader ≡ loader')
    × (tx.commits db' ≡ true)
IsAtomic per_message store tx batch loader db (_, loader', db', c) = db' ≡ db

-- A batch is all or nothing. If ProcessBatch commits, every message was stored in its turn, each from
-- where the one before it ended, with success, or, under per_message only, with the permanent
-- failure that is set on it; and the database is what they led to. Otherwise, on an error, a failed
-- commit or a panic, the database is left as it was.
pub process_batch-IsAtomic :
    {S : Type 0} (per_message : Bool) (store : Message → World S → World S × Status) (tx : Tx S)
    (batch : List Message) (loader : SchemaLoader) (db : S) (c : Counters)
    → IsAtomic per_message store tx batch loader db
        (process_batch per_message store tx batch loader db c)
unfolding process_batch
process_batch-IsAtomic {S} per_message store tx batch loader db c =
    finish (store_messages per_message store batch start c)
      (store_messages-WalkedAs per_message store batch start c)
  where
    start : World S
    start = record { loader = loader; db = db; ensured = [] }

    finish :
        (r : Walked × World S × Counters)
        → WalkedAs per_message store batch start r
        → IsAtomic per_message store tx batch loader db
            (finish_batch per_message store tx db (length batch) r)
    finish (stopped none, w, c) s = refl
    finish (stopped (some cause), w, c) s = refl
    finish (all_seen errors, w, c) s = elim (Bool-cases (tx.commits w.db)) [
      | inl e ↦ rw e (w, s, refl, refl, e)
      | inr e ↦ rw e refl
    ]
