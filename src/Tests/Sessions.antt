-- ===== src/Tests/Sessions.antt =====
-- A processor's configuration, its life, and the calls of its loader.
use schema_to_table.Prelude.{
  ℕ, ◌≡◌, ◌↔◌, refl, true, false, none, some, List, [], ◌∷◌, arith, if◌then◌else◌,
}
use schema_to_table.Text.{Text, codes}
use schema_to_table.Text.Equality.{same}
use schema_to_table.Outcome.{ok}
use schema_to_table.Processors.Loader.{response, new_schema_loader}
use schema_to_table.Processors.Loader.Log.{Call, log_loads, loads}
use schema_to_table.Processors.Loader.Log.Mirror.{loads-log_loads}
use schema_to_table.Processors.Config.{ParsedConfig, Settings, parse_config}
use schema_to_table.Processors.Config.Checked.{IsRead, IsAccepted, trimmed, parse_config-eq-ok}
use schema_to_table.Processors.Session.{
  Driver, BatchProcessor, new_processor, BatchResult, close, process, ensure_sink, process_opened,
  nil_sink,
}
use schema_to_table.Processors.Session.Life.{made, ran, closed, IsCounted, Lives-IsCounted}
use schema_to_table.Tests.{decode_orders, decode_order, result_of}
use schema_to_table.Tests.Runs.{dml_run}
use schema_to_table.Tests.Streams.{message}

abbrev call : ℕ → Call
call now = record {
  url = codes "u";
  get = λ url. response 200 none (some (2, codes "{}"));
  now = now;
  store_at = now;
  sweep_at = now;
}

-- A fetch, a hit, and a fetch after the end of the entry.
abbrev calls : List Call
calls = call 3 ∷ call 7 ∷ call 20 ∷ []

loads-log_loads_example : loads calls (new_schema_loader 10) ≡ log_loads 10 calls []
loads-log_loads_example = loads-log_loads 10 calls (
  omega arith,
  omega arith,
  omega arith,
  (omega arith, omega arith, omega arith, (omega arith, omega arith, omega arith, tt)),
)

-- The DSN and a header name are given with blanks around them.
abbrev conf : ParsedConfig
conf = record {
  field_string = λ name. some (
      if same name (codes "on_error")
      then codes "abort"
      else if same name (codes "pk")
      then codes "id"
      else if same name (codes "schema_url_header")
      then codes "schema_url"
      else if same name (codes "table_name_header")
      then codes " table_name"
      else codes " x ");
  field_string_map = λ name. some [];
  field_bool = λ name. some true;
  field_duration = λ name. some 10;
}

abbrev settings : Settings
settings = record {
  dsn = codes "x";
  schema_url_header = codes "schema_url";
  table_name_header = codes "table_name";
  pk = codes "id";
  headers = [];
  create_model = true;
  schema_ttl = 10;
  on_error = codes "abort";
}

parse_config-eq-ok_example :
    (parse_config conf ≡ ok settings)
    ↔ ((r : Settings) × IsRead conf r × IsAccepted r × (settings ≡ trimmed r))
parse_config-eq-ok_example = parse_config-eq-ok conf settings

accepted : parse_config conf ≡ ok settings
unfolding dml_run parse_config
accepted = refl

-- A connection is a number, and the database is the list of its statements.
abbrev driver : Driver ℕ (List Text)
driver = record {
  opens = λ dsn. some 1;
  pings = λ c. true;
  begins = λ c. true;
  tx = record {
    exec = λ stmt db. (stmt ∷ db, none);
    table_exists = λ name db. some true;
    commits = λ db. true;
  };
}

abbrev unreachable : Driver ℕ (List Text)
unreachable = record driver { pings = λ c. false }

abbrev no_processor : BatchProcessor ℕ
no_processor = record {
  cfg = settings;
  upsert = false;
  loader = new_schema_loader 10;
  sink = none;
  counters = record {
    batches_processed = 0;
    batches_failed = 0;
    messages_processed = 0;
    permanent_errors = 0;
  };
  opened = false;
}

abbrev fresh : BatchProcessor ℕ
fresh = result_of no_processor (new_processor false conf)

fresh_made : new_processor {C = ℕ} false conf ≡ ok fresh
unfolding dml_run new_processor
fresh_made = refl

abbrev run : Driver ℕ (List Text) → BatchProcessor ℕ → BatchResult × BatchProcessor ℕ × List Text
run d p = process same 9 decode_orders decode_order d (message ∷ []) p []

abbrev results : List BatchResult
results = (run driver (run unreachable fresh).1).0 ∷ (run unreachable fresh).0 ∷ []

abbrev used : BatchProcessor ℕ
used = close (run driver (run unreachable fresh).1).1

Lives-IsCounted_example : IsCounted true used results
Lives-IsCounted_example =
    Lives-IsCounted (List Text) same 9 decode_orders decode_order true used results (
      closed (
        ran driver (message ∷ []) []
          (ran unreachable (message ∷ []) [] (made false conf fresh_made))))

-- A Close between ensureSink and the read of the sink in ProcessBatch.
closed_between :
    (process_opened same 9 decode_orders decode_order driver
      (message ∷ [])
      (close (ensure_sink driver fresh).0)
      []).0
    ≡ nil_sink
unfolding dml_run new_processor ensure_sink close process_opened
closed_between = refl
