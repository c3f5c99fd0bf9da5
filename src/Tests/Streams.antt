-- ===== src/Tests/Streams.antt =====
-- The stream processors at concrete messages, over a database that is the list of its statements.
use schema_to_table.Prelude.{◌≡◌, refl, true, Option, none, some, List, [], ◌∷◌}
use schema_to_table.Text.{Text, codes}
use schema_to_table.Text.Equality.{same}
use schema_to_table.Json.{Json}
use schema_to_table.Outcome.{invalid_data}
use schema_to_table.Normalized.Dml.{upsert_statements}
use schema_to_table.Processors.Loader
use schema_to_table.Processors.Loader.{
  SchemaLoader, Fetched, response, new_schema_loader, load_cached, store,
}
use schema_to_table.Processors.Loader.Reach.{
  start, put_away, StoredLately, load_cached-StoredLately,
}
use schema_to_table.Processors.Batch
use schema_to_table.Processors.Batch.{
  Tx, ProcessorConfig, Message, Cause, no_table_name, not_rendered, Status, failure, World,
  store_message,
}
use schema_to_table.Processors.Batch.Rejected.{NoRows, store_message-NoRows}
use schema_to_table.Processors.Batch.Commit.{Counters, committed, process_batch}
use schema_to_table.Processors.Batch.Commit.Atomic.{
  IsAtomic, process_batch-IsAtomic, all_stored, one_stored,
}
use schema_to_table.Processors.Batch.Commit.Ensured.{ensured_once}
use schema_to_table.Tests.{decode_orders, decode_order}
use schema_to_table.Tests.Runs.{plan_run, model, dml_run}

abbrev fetched_at_3 : SchemaLoader
fetched_at_3 = store 3 3 (codes "u") (codes "{}") (new_schema_loader 10)

abbrev hit : Text × SchemaLoader
hit = elim (load_cached 7 7 (codes "u") fetched_at_3) [
  | none ↦ ([], new_schema_loader 10)
  | some p ↦ p
]

is_hit : load_cached 7 7 (codes "u") fetched_at_3 ≡ some (codes "{}", hit.1)
unfolding plan_run store load_cached
is_hit = refl

load_cached-StoredLately_example :
    StoredLately 10 7
      (codes "u")
      (codes "{}")
      (record { url = codes "u"; doc = codes "{}"; at = 3 } ∷ [])
load_cached-StoredLately_example =
    load_cached-StoredLately 10 fetched_at_3 hit.1
      (record { url = codes "u"; doc = codes "{}"; at = 3 } ∷ []) 7 7 (codes "u") (codes "{}")
      (put_away 3 3 (codes "u") (codes "{}") start) is_hit

abbrev memory : Tx (List Text)
memory = record {
  exec = λ stmt db. (stmt ∷ db, none);
  table_exists = λ name db. some true;
  commits = λ db. true;
}

abbrev config : ProcessorConfig
config = record {
  schema_url_header = codes "schema_url";
  table_name_header = codes "table_name";
  pk = codes "id";
  headers = [];
  create_model = true;
  per_message = true;
  upsert = true;
}

abbrev pub message : Message
message = record {
  metadata = (codes "table_name", codes "orders") ∷ (codes "schema_url", codes "u") ∷ [];
  contents = some (codes "{}");
  get = λ url. response 200 none (some (2, codes "{}"));
  now = 1;
  store_at = 2;
  sweep_at = 2;
}

abbrev unaddressed : Message
unaddressed = record message { metadata = [] }

abbrev undecodable : Text → Option Json
undecodable _ = none

abbrev before : World (List Text)
before = record { loader = new_schema_loader 10; db = []; ensured = [] }

abbrev store_into : (Text → Option Json) → Message → World (List Text) → World (List Text) × Status
store_into decode = store_message memory same 9 decode_orders decode config

abbrev left : World (List Text)
left = (store_into undecodable message before).0

refused : store_into undecodable message before ≡ (left, failure true (not_rendered invalid_data))
unfolding dml_run Batch.store_message Batch.required_meta Loader.load Batch.store_loaded
    Batch.ensure_model upsert_statements
refused = refl

store_message-NoRows_example :
    NoRows memory same 9 decode_orders undecodable config message before left.db
store_message-NoRows_example =
    store_message-NoRows memory same 9 decode_orders undecodable config message before left
      (not_rendered invalid_data) refused

abbrev zeros : Counters
zeros = record {
  batches_processed = 0;
  batches_failed = 0;
  messages_processed = 0;
  permanent_errors = 0;
}

process_batch-IsAtomic_example :
    IsAtomic true
      (store_into decode_order)
      memory
      (unaddressed ∷ message ∷ [])
      (new_schema_loader 10)
      []
      (process_batch true
        (store_into decode_order)
        memory
        (unaddressed ∷ message ∷ [])
        (new_schema_loader 10)
        []
        zeros)
process_batch-IsAtomic_example =
    process_batch-IsAtomic true (store_into decode_order) memory (unaddressed ∷ message ∷ [])
      (new_schema_loader 10) [] zeros

-- The message without metadata is rejected, the other is stored.
batch_committed :
    (process_batch true
      (store_into decode_order)
      memory
      (unaddressed ∷ message ∷ [])
      (new_schema_loader 10)
      []
      zeros).0
    ≡ committed (some no_table_name ∷ none ∷ [])
unfolding dml_run process_batch Batch.store_message Batch.required_meta Loader.load
    Batch.store_loaded Batch.ensure_model upsert_statements
batch_committed = refl

abbrev ensured : World (List Text)
ensured = (Batch.ensure_model memory config (codes "orders") model before).0

orders_ensured :
    Batch.ensure_model memory config (codes "orders") model before ≡ (ensured, Batch.done)
unfolding dml_run Batch.ensure_model
orders_ensured = refl

abbrev stored : World (List Text)
stored = (store_into decode_order message ensured).0

message_stored : store_into decode_order message ensured ≡ (stored, Batch.done)
unfolding dml_run Batch.store_message Batch.required_meta Loader.load Batch.store_loaded
    Batch.ensure_model upsert_statements
message_stored = refl

ensured_once_example :
    Batch.ensure_model memory config (codes "orders") model stored ≡ (stored, Batch.done)
ensured_once_example =
    ensured_once (codes "orders") memory same 9 decode_orders decode_order config true model model
      (message ∷ []) (none ∷ []) before ensured stored orders_ensured
      (one_stored message none message_stored tt all_stored)
