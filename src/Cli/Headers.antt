-- ===== src/Cli/Headers.antt =====
-- The headers of a run: the part of Run in internal/cli/cli.go that reads -headers and
-- -header-values.
pub mod Keys
pub mod Total
use schema_to_table.Prelude.{Option, none, some, List, [], ◌∷◌, if◌then◌else◌}
use schema_to_table.Text.{Text, codes}
use schema_to_table.Text.Equality.{same, contains}
use schema_to_table.Maps.{keys, put}
use schema_to_table.Outcome.{Outcome, ok, err, unmatched_header, ◌>>=◌, wrap}
use schema_to_table.Cli.Helpers.{parse_kv}

abbrev pub StringMap : Type 0
StringMap = List (Text × Text)

-- The first key of a header value that has no type. (Go ranges over the map in any order.)
unfoldable pub first_unmatched : StringMap → List Text → Option Text
first_unmatched types [] = none
first_unmatched types (k ∷ ks) =
    let rest = first_unmatched types ks in if contains (keys types) k then rest else some k

-- The empty values of the types that have none.
unfoldable pub fill_values : List Text → StringMap → StringMap
unfolding put
fill_values [] values = values
fill_values (k ∷ ks) values =
    fill_values ks (if contains (keys values) k then values else put k [] values)

-- The types and the values of the headers.
unfoldable pub header_flags : Text → Text → Text → Outcome (StringMap × StringMap)
unfolding first_unmatched fill_values
header_flags mode headers header_values = do
  types ← wrap (codes "-headers") (parse_kv headers)
  values ← wrap (codes "-header-values") (parse_kv header_values)
  elim (first_unmatched types (keys values)) [
    | some k ↦ err (unmatched_header k)
    | none ↦
        ok (types, if same mode (codes "create") then values else fill_values (keys types) values)
  ]
