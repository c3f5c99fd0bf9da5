-- ===== src/Tests/Commands.antt =====
-- The command line at concrete flags, over a database that is the list of its statements.
use schema_to_table.Prelude.{
  ◌≡◌, ◌↔◌, refl, true, false, some, List, [], ◌∷◌, ◌++◌, length, map, All,
}
use schema_to_table.Text.{Text, codes, join}
use schema_to_table.Text.Split
use schema_to_table.Text.Equality.{same, Distinct}
use schema_to_table.Maps.{keys}
use schema_to_table.Outcome.{Outcome, ok}
use schema_to_table.Schema.Names.{ident_name, quote_ident}
use schema_to_table.Schema.Types.{Column}
use schema_to_table.Landing
use schema_to_table.Cli.Helpers.{FileSystem, parse_kv, data_files}
use schema_to_table.Cli.Helpers.Pairs.{IsPair, pair_text, parse_kv-join}
use schema_to_table.Cli.Headers.{StringMap, header_flags}
use schema_to_table.Cli.Headers.Keys.{header_flags-render_values}
use schema_to_table.Cli.Build
use schema_to_table.Cli.Build.{LabeledStmt}
use schema_to_table.Cli.Flags.{Flags}
use schema_to_table.Cli.Exec.{Database, drop_table}
use schema_to_table.Cli.Exec.Quoted.{drop_of, drop_table-quote_ident}
use schema_to_table.Cli.Run.{RunResult, run}
use schema_to_table.Cli.Run.Performed.{Performed, run-Performed}
use schema_to_table.Tests.{decode_orders, decode_order, flat_orders, result_of}
use schema_to_table.Tests.Runs.{flat_render}

abbrev source_types : StringMap
source_types = (codes "src", codes "TEXT") ∷ []

types-IsPair : All IsPair source_types
unfolding flat_render
types-IsPair = (
  (
    (refl, (refl, (refl, tt))),
    (refl, (refl, (refl, tt))),
    (refl, (refl, (refl, (refl, tt)))),
    refl,
    refl,
    refl,
    refl,
  ),
  tt,
)

types-Distinct : Distinct (keys source_types)
unfolding flat_render
types-Distinct = (refl, tt)

parse_kv-join_example : parse_kv (join (codes ",") (map pair_text source_types)) ≡ ok source_types
parse_kv-join_example = parse_kv-join source_types types-IsPair types-Distinct

unfoldable flags_run : Outcome (StringMap × StringMap)
unfolding flat_render header_flags Split.split Split.cut Split.onto_first Split.onto_cut
    Split.has_suffix Split.trim_prefix
flags_run = header_flags (codes "insert") (codes "src=TEXT") []

abbrev source_values : StringMap
source_values = (codes "src", []) ∷ []

abbrev created : List Column
created = result_of [] (Landing.columns flat_orders source_types)

abbrev rendered : List Text × List Text
rendered =
    result_of ([], []) (Landing.render_values decode_order flat_orders source_values (codes "{}"))

read_flags : header_flags (codes "insert") (codes "src=TEXT") [] ≡ ok (source_types, source_values)
unfolding flags_run parse_kv
read_flags = refl

planned_columns : Landing.columns flat_orders source_types ≡ ok created
unfolding flags_run
planned_columns = refl

rendered_values :
    Landing.render_values decode_order flat_orders source_values (codes "{}")
    ≡ ok (rendered.0, rendered.1)
unfolding flags_run
rendered_values = refl

not_create : same (codes "insert") (codes "create") ≡ false
unfolding flags_run
not_create = refl

header_flags-render_values_example : rendered.0 ≡ Landing.names created
header_flags-render_values_example =
    header_flags-render_values decode_order flat_orders (codes "insert") (codes "src=TEXT") []
      source_types source_values created (codes "{}") rendered.0 rendered.1 read_flags not_create
      planned_columns rendered_values

abbrev pub quote : Text → Text
quote name = codes "\"" ++ (name ++ codes "\"")

drop_table-quote_ident_example :
    ((drop_table quote (codes "orders") (codes "orders")).sql
      ≡ drop_of (quote_ident (codes "orders")))
    ↔ (ident_name (codes "orders") ≡ codes "orders")
drop_table-quote_ident_example = drop_table-quote_ident quote (codes "orders") (codes "orders") refl

-- A directory with one data file.
abbrev pub files : FileSystem
files = record {
  read_file = λ path. some (codes "{}");
  read_dir = λ dir. some (record { name = codes "a.json"; is_dir = false } ∷ []);
  join_path = λ dir name. name;
  base = λ path. path;
}

abbrev pub memory : Database (List Text)
memory = record { opens = λ dsn. true; answers = λ db. true; exec = λ stmt db. (stmt ∷ db, true) }

abbrev pub flags : Flags
flags = record {
  schema_path = codes "s.json";
  data_dir = codes "data";
  table_name = codes "orders";
  complex_type = [];
  conflict_column = codes "id";
  mode = codes "all";
  headers = codes "src=TEXT";
  header_values = codes "src=web";
  dsn = codes "postgres://";
  drop = true;
  pk = codes "id";
  model_mode = false;
}

abbrev ended : RunResult (List Text)
ended = run memory files quote 9 decode_orders decode_order flags []

run-Performed_example :
    Performed memory files quote 9 decode_orders decode_order flags [] ended ended.result
run-Performed_example = run-Performed memory files quote 9 decode_orders decode_order flags []

-- CREATE TABLE, ADD PRIMARY KEY, INSERT and UPSERT behind one DROP TABLE.
four_executed : (ended.result ≡ ok (some 4)) × (length ended.db ≡ 5)
unfolding flags_run run parse_kv data_files Build.build_flat_statements Landing.parse
four_executed = (refl, refl)
