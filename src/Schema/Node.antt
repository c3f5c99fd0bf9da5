-- ===== src/Schema/Node.antt =====
-- internal/schema/node.go: the nodes of a JSON Schema document and their references.
-- The walks compare nodes by address, so a document is a store of nodes and a *Node is an index
-- into it, or nil. json.Unmarshal is a parameter: it gives the store, or fails.
use schema_to_table.Prelude.{ℕ, Option, none, some, List, length, drop, get_elem?, if◌then◌else◌}
use schema_to_table.Text.{Text, codes, is_empty, has_prefix, trim_space}
use schema_to_table.Maps.{lookup}
use schema_to_table.Json.{Json}
use schema_to_table.Outcome.{
  schema_required, invalid_schema, unsupported_ref, ref_not_found, Outcome, ok, err, panic, ◌>>=◌,
}

-- *Node
abbrev pub Ptr : Type 0
Ptr = Option ℕ

-- The raw messages `type` and `const` are given as the values that they hold, none if absent.
pub record Node : Type 0 where
  pub type : Option Json
  pub ref : Text
  pub format : Text
  pub const : Option Json
  pub title : Text
  pub description : Text
  pub properties : List (Text × Ptr)
  pub items : Ptr
  pub all_of : List Ptr
  pub one_of : List Ptr
  pub any_of : List Ptr
  pub defs : List (Text × Ptr)

-- A decoded document: its nodes, and the index of the first.
pub record Document : Type 0 where
  pub nodes : List Node
  pub root : ℕ

-- The fields of *p; reading through nil panics.
unfoldable pub deref : Document → Ptr → Outcome Node
deref doc none = panic
deref doc (some i) = elim (get_elem? doc.nodes i) [ none ↦ panic | some n ↦ ok n ]

-- Parse
unfoldable pub parse : (Text → Option Document) → Text → Outcome Document
unfolding trim_space
parse unmarshal text =
    if is_empty (trim_space text)
    then err schema_required
    else elim (unmarshal text) [ none ↦ err invalid_schema | some doc ↦ ok doc ]

abbrev pub defs_prefix : Text
defs_prefix = codes "#/$defs/"

-- A read `m[key]` of a map of nodes: nil where the key is missing.
unfoldable pub child : Text → List (Text × Ptr) → Ptr
unfolding lookup
child key m = elim (lookup key m) [ none ↦ none | some p ↦ p ]

local_ref : Document → Text → Outcome Ptr
unfolding lookup deref
local_ref doc ref = do
  root ← deref doc (some doc.root)
  elim (lookup (drop (length defs_prefix) ref) root.defs) [
    | none ↦ err (ref_not_found ref)
    | some p ↦ ok p
  ]

-- Resolve follows one local reference.
unfoldable pub resolve : Document → Ptr → Outcome Ptr
unfolding local_ref deref has_prefix
resolve doc none = ok none
resolve doc (some i) = do
  n ← deref doc (some i)
  if is_empty n.ref
      then ok (some i)
      else if has_prefix n.ref defs_prefix
      then local_ref doc n.ref
      else err (unsupported_ref n.ref)
