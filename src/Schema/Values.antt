-- ===== src/Schema/Values.antt =====
-- internal/schema/values.go: the SQL literals of a payload, by column name. The recursion of
-- CollectValues takes fuel; Schema/Values/Total shows how much is enough. json.Unmarshal of the
-- payload is a parameter.
pub mod Visits
pub mod Total
use schema_to_table.Prelude.{
  ℕ, zero, suc, Bool, true, false, ◌||◌, Option, none, some, List, [], ◌∷◌, ◌++◌, ◌==◌,
  if◌then◌else◌,
}
use schema_to_table.Text.{Text, codes, is_empty, contains_text, to_upper}
use schema_to_table.Text.Equality.{same}
use schema_to_table.Maps.{lookup, put}
use schema_to_table.Json.{
  Json, null, bool, num, str, arr, obj, fields_list, marshal, format_int, format_float,
}
use schema_to_table.Outcome.{Outcome, ok, err, invalid_data, diverge, ◌>>=◌, each}
use schema_to_table.Schema.Names.{quote_literal, sanitize_ident, sorted_keys, to_snake}
use schema_to_table.Schema.Node.{Node, Ptr, Document, deref, resolve, child}
use schema_to_table.Schema.Types.{primary_type, is_array, is_composite, is_object, is_none}

-- map[string]string
abbrev pub Values : Type 0
Values = List (Text × Text)

-- ParsePayload
unfoldable pub parse_payload : (Text → Option Json) → Text → Outcome Json
parse_payload unmarshal text = elim (unmarshal text) [
  | none ↦ err invalid_data
  | some value ↦ ok value
]

-- getChild; nil and the value null are both `null`.
unfoldable pub get_child : Json → Text → Json
unfolding lookup
get_child (obj fs) key = elim (lookup key (fields_list fs)) [ none ↦ null | some v ↦ v ]
get_child _ key = null

-- SerializeComplex. (json.Marshal does not fail on a decoded value.)
unfoldable pub serialize_complex : Json → Text → Text
unfolding quote_literal marshal contains_text to_upper
serialize_complex null complex_type = codes "NULL"
serialize_complex v complex_type =
    let lit = quote_literal (marshal v) in
    if contains_text (to_upper complex_type) (codes "JSON")
    then lit ++ (codes "::" ++ complex_type)
    else lit

-- FormatLiteral, by the node's PrimaryType
unfoldable pub format_literal : Json → Text → Text
unfolding quote_literal marshal format_int format_float same
format_literal null type = codes "NULL"
format_literal (str s) type = quote_literal s
format_literal (bool true) type = codes "TRUE"
format_literal (bool false) type = codes "FALSE"
format_literal (num d) type = if same type (codes "integer") then format_int d else format_float d
format_literal v type = quote_literal (marshal v)

-- The prefix of a property's columns.
unfoldable pub child_prefix : Text → Text → Text
unfolding to_snake
child_prefix prefix key =
    if is_empty prefix then to_snake key else prefix ++ (codes "_" ++ to_snake key)

same_ptr : Ptr → Ptr → Bool
same_ptr none none = true
same_ptr (some i) (some j) = i == j
same_ptr _ _ = false

-- visited[p]
unfoldable pub visits : List Ptr → Ptr → Bool
unfolding same_ptr
visits [] p = false
visits (q ∷ l) p = same_ptr q p || visits l p

module _ (doc : Document) (complex_type : Text) where
  -- One round of the loop over the properties; `recur` is the call of CollectValues.
  unfoldable pub collect_property :
      (Text → Ptr → Json → Values → Outcome Values)
      → Text
      → List (Text × Ptr)
      → Json
      → Text
      → Values
      → Outcome Values
  unfolding child_prefix
  collect_property recur prefix properties value key out = do
    let name = child_prefix prefix key
    let child_value = get_child value key
    resolved ← resolve doc (child key properties)
    n ← deref doc resolved
    if is_array n
        then ok (put (sanitize_ident name) (serialize_complex child_value complex_type) out)
        else if is_composite n
        then recur name resolved child_value out
        else if is_object n
        then ok (put (sanitize_ident name) (serialize_complex child_value complex_type) out)
        else ok (put (sanitize_ident name) (format_literal child_value (primary_type n)) out)

  -- The three loops over a node, under its mark in `visited`.
  unfoldable pub collect_node :
      (Text → Ptr → Json → Values → Outcome Values) → Text → Node → Json → Values → Outcome Values
  unfolding collect_property
  collect_node recur prefix n value out = do
    out₁ ← each (λ sub. recur prefix sub value) n.all_of out
    out₂ ← each (λ sub. recur prefix sub value) (n.one_of ++ n.any_of) out₁
    each (collect_property recur prefix n.properties value) (sorted_keys n.properties) out₂

  -- CollectValues. The mark of a node is taken back on return, so it is passed down only.
  unfoldable pub collect_values : ℕ → List Ptr → Text → Ptr → Json → Values → Outcome Values
  unfolding collect_node visits
  collect_values zero visited prefix s value out = diverge
  collect_values (suc fuel) visited prefix none value out = ok out
  collect_values (suc fuel) visited prefix (some i) value out = do
    resolved ← resolve doc (some i)
    if visits visited resolved then ok out else do
      n ← deref doc resolved
      collect_node (collect_values fuel (resolved ∷ visited)) prefix n value out
