-- ===== src/Processors/Config.antt =====
-- parseConfig of pkg/processors/spec.go. Bento's ParsedConfig is a parameter: for every kind of field
-- a reader, which is none on an error. A negative duration does what 0 does.
pub mod Checked
use schema_to_table.Prelude.{ℕ, Bool, not, ◌&&◌, Option, none, some, List, [], ◌∷◌, if◌then◌else◌}
use schema_to_table.Text.{Text, codes, is_empty, trim_space}
use schema_to_table.Text.Equality.{same}
use schema_to_table.Outcome.{
  Outcome, ok, err, setting_unreadable, setting_required, bad_on_error, ◌>>=◌,
}
use schema_to_table.Processors.Batch.{ProcessorConfig}

pub record ParsedConfig : Type 0 where
  pub field_string : Text → Option Text
  pub field_string_map : Text → Option (List (Text × Text))
  pub field_bool : Text → Option Bool
  pub field_duration : Text → Option ℕ

-- processorConfig, all of it
pub record Settings : Type 0 where
  pub dsn : Text
  pub schema_url_header : Text
  pub table_name_header : Text
  pub pk : Text
  pub headers : List (Text × Text)
  pub create_model : Bool
  pub schema_ttl : ℕ
  pub on_error : Text

-- `if cfg.x, err = conf.FieldT("x"); err != nil { return nil, err }`
abbrev pub field : {A : Type 0} → (Text → Option A) → Text → Outcome A
field read name = elim (read name) [ none ↦ err (setting_unreadable name) | some a ↦ ok a ]

-- The fields as they are read.
unfoldable pub read_settings : ParsedConfig → Outcome Settings
read_settings conf = do
  dsn ← field conf.field_string (codes "dsn")
  schema_url_header ← field conf.field_string (codes "schema_url_header")
  table_name_header ← field conf.field_string (codes "table_name_header")
  pk ← field conf.field_string (codes "pk")
  headers ← field conf.field_string_map (codes "headers")
  create_model ← field conf.field_bool (codes "create_model")
  schema_ttl ← field conf.field_duration (codes "schema_ttl")
  on_error ← field conf.field_string (codes "on_error")
  ok (record {
    dsn = dsn;
    schema_url_header = schema_url_header;
    table_name_header = table_name_header;
    pk = pk;
    headers = headers;
    create_model = create_model;
    schema_ttl = schema_ttl;
    on_error = on_error;
  })

abbrev blank : Text → Bool
blank s = is_empty (trim_space s)

-- The checks on the fields, and their trimming.
unfoldable pub check_settings : Settings → Outcome Settings
check_settings c =
    if not (same c.on_error (codes "abort")) && not (same c.on_error (codes "per_message"))
    then err (bad_on_error c.on_error)
    else if blank c.dsn
    then err (setting_required (codes "dsn"))
    else if blank c.schema_url_header
    then err (setting_required (codes "schema_url_header"))
    else if blank c.table_name_header
    then err (setting_required (codes "table_name_header"))
    else if blank c.pk
    then err (setting_required (codes "pk"))
    else ok (record c {
      dsn = trim_space c.dsn;
      schema_url_header = trim_space c.schema_url_header;
      table_name_header = trim_space c.table_name_header;
      pk = trim_space c.pk;
    })

-- parseConfig
unfoldable pub parse_config : ParsedConfig → Outcome Settings
unfolding read_settings check_settings
parse_config conf = read_settings conf >>= check_settings

-- The settings that the storing of messages reads, with the flag `upsert` of the processor.
unfoldable pub processor_config : Bool → Settings → ProcessorConfig
processor_config upsert c = record {
  schema_url_header = c.schema_url_header;
  table_name_header = c.table_name_header;
  pk = c.pk;
  headers = c.headers;
  create_model = c.create_model;
  per_message = same c.on_error (codes "per_message");
  upsert = upsert;
}
