-- ===== src/Cli/Helpers.antt =====
-- internal/cli/helpers.go: the parsing of key=value flags and the list of the data files. The file
-- system is a parameter.
pub mod Pairs
use schema_to_table.Prelude.{Bool, not, ◌&&◌, Option, none, some, List, [], ◌∷◌, if◌then◌else◌}
use schema_to_table.Text.{Text, codes, is_empty, trim_space}
use schema_to_table.Text.Split.{split, cut, has_suffix}
use schema_to_table.Maps.{put}
use schema_to_table.Outcome.{Outcome, ok, err, invalid_pair, read_dir_failed, no_data_files, each}
use schema_to_table.Schema.Names.{sort_texts}
use schema_to_table.Schema.Types.{is_none}

-- The entry of one pair; its key is trimmed and not empty.
unfoldable pub put_pair : Text → List (Text × Text) → Outcome (List (Text × Text))
unfolding cut put
put_pair pair m = elim (cut b'=' pair) [
  | none ↦ err (invalid_pair pair)
  | some (k, v) ↦
      if is_empty (trim_space k)
      then err (invalid_pair pair)
      else ok (put (trim_space k) (trim_space v) m)
]

-- parseKV
unfoldable pub parse_kv : Text → Outcome (List (Text × Text))
unfolding put_pair split
parse_kv s = if is_empty (trim_space s) then ok [] else each put_pair (split b',' (trim_space s)) []

-- orDefault
unfoldable pub or_default : Text → Text → Text
or_default s fallback = if is_empty (trim_space s) then fallback else s

pub record DirEntry : Type 0 where
  pub name : Text
  pub is_dir : Bool

-- What is read of the file system, none where it fails, and the functions of path/filepath.
pub record FileSystem : Type 0 where
  pub read_file : Text → Option Text
  pub read_dir : Text → Option (List DirEntry)
  pub join_path : Text → Text → Text
  pub base : Text → Text

-- The paths of the entries that are *.json files.
unfoldable pub json_files : FileSystem → Text → List DirEntry → List Text
unfolding has_suffix
json_files fs dir [] = []
json_files fs dir (e ∷ entries) =
    let rest = json_files fs dir entries in
    if not e.is_dir && has_suffix e.name (codes ".json")
    then fs.join_path dir e.name ∷ rest
    else rest

-- dataFiles
unfoldable pub data_files : FileSystem → Text → Outcome (List Text)
unfolding json_files
data_files fs dir = elim (fs.read_dir dir) [
  | none ↦ err read_dir_failed
  | some entries ↦
      let files = sort_texts (json_files fs dir entries) in
      if is_none files then err (no_data_files dir) else ok files
]
