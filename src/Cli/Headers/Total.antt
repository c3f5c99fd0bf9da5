-- ===== src/Cli/Headers/Total.antt =====
-- The reading of the flags and of the data directory ends.
use schema_to_table.Prelude.{Option, none, some, [], arith, if◌then◌else◌}
use schema_to_table.Text.{Text, codes, is_empty, trim_space}
use schema_to_table.Text.Split.{split, cut}
use schema_to_table.Text.Equality.{same}
use schema_to_table.Maps.{keys, put}
use schema_to_table.Outcome.{Error, ok, err, wrap}
use schema_to_table.Outcome.Laws.{Ends, Ends-bind, Ends-each, Ends-if, Ends-wrap}
use schema_to_table.Cli.Helpers.{FileSystem, put_pair, parse_kv, data_files}
use schema_to_table.Cli.Headers.{StringMap, first_unmatched, fill_values, header_flags}

put_pair-Ends : (pair : Text) (m : StringMap) → Ends (put_pair pair m)
unfolding put_pair
put_pair-Ends pair m = at_cut (cut b'=' pair)
  where
    at_cut :
        (o : Option (Text × Text))
        → Ends (elim o [
          | none ↦ err (Error.invalid_pair pair)
          | some (k, v) ↦
              if is_empty (trim_space k)
              then err (Error.invalid_pair pair)
              else ok (put (trim_space k) (trim_space v) m)
        ])
    at_cut none = tt
    at_cut (some (k, v)) = Ends-if (is_empty (trim_space k)) _ _ tt tt

parse_kv-Ends : (s : Text) → Ends (parse_kv s)
unfolding parse_kv
parse_kv-Ends s =
    Ends-if (is_empty (trim_space s)) _ _ tt
      (Ends-each put_pair put_pair-Ends (split b',' (trim_space s)) [])

pub header_flags-Ends :
    (mode headers header_values : Text) → Ends (header_flags mode headers header_values)
unfolding header_flags
header_flags-Ends mode headers header_values =
    Ends-bind (wrap (codes "-headers") (parse_kv headers)) _
      (Ends-wrap _ (parse_kv headers) (parse_kv-Ends headers))
      λ types _.
        Ends-bind (wrap (codes "-header-values") (parse_kv header_values)) _
          (Ends-wrap _ (parse_kv header_values) (parse_kv-Ends header_values))
          λ values _. matched types values (first_unmatched types (keys values))
  where
    matched :
        (types values : StringMap) (o : Option Text)
        → Ends {A = StringMap × StringMap} (elim o [
          | some k ↦ err (Error.unmatched_header k)
          | none ↦ ok (
            types,
            if same mode (codes "create") then values else fill_values (keys types) values,
          )
        ])
    matched types values none = tt
    matched types values (some k) = tt

pub data_files-Ends : (fs : FileSystem) (dir : Text) → Ends (data_files fs dir)
unfolding data_files
data_files-Ends fs dir = ground arith
