-- ===== src/Schema/Types.antt =====
-- internal/schema/types.go and column.go: the SQL type of a leaf, and the tests on a node by which
-- the walks classify a property.
use schema_to_table.Prelude.{
  Bool, true, false, not, ◌||◌, Option, none, some, List, [], ◌∷◌, if◌then◌else◌,
}
use schema_to_table.Text.{Text, codes}
use schema_to_table.Text.Equality.{same}
use schema_to_table.Json.{Json, null, str, arr, Items, nil, cons}
use schema_to_table.Schema.Node.{Node}

pub record Column : Type 0 where
  pub name : Text
  pub type : Text

-- json.Unmarshal into a string: null leaves it empty.
unfoldable pub unmarshal_text : Json → Option Text
unmarshal_text null = some []
unmarshal_text (str s) = some s
unmarshal_text _ = none

push : Option Text → Option (List Text) → Option (List Text)
push (some t) (some ts) = some (t ∷ ts)
push _ _ = none

unmarshal_items : Items → Option (List Text)
unfolding unmarshal_text push
unmarshal_items nil = some []
unmarshal_items (cons x xs) = push (unmarshal_text x) (unmarshal_items xs)

-- json.Unmarshal into a slice of strings
unmarshal_texts : Json → Option (List Text)
unfolding unmarshal_items
unmarshal_texts null = some []
unmarshal_texts (arr xs) = unmarshal_items xs
unmarshal_texts _ = none

first_type : List Text → Text
unfolding same
first_type [] = []
first_type (t ∷ ts) = if same t (codes "null") then first_type ts else t

raw_type : Option Json → Text
unfolding unmarshal_text unmarshal_texts first_type
raw_type none = []
raw_type (some raw) = elim (unmarshal_text raw) [
  | some single ↦ single
  | none ↦ elim (unmarshal_texts raw) [ some multi ↦ first_type multi | none ↦ [] ]
]

-- PrimaryType of a node that is not nil
unfoldable pub primary_type : Node → Text
unfolding raw_type
primary_type n = raw_type n.type

-- SQLType
unfoldable pub sql_type : Node → Text → Text
unfolding primary_type same
sql_type n complex_type =
    let type = primary_type n in
    if same type (codes "integer")
    then codes "BIGINT"
    else if same type (codes "number")
    then codes "NUMERIC"
    else if same type (codes "boolean")
    then codes "BOOLEAN"
    else if same type (codes "object")
    then complex_type
    else if same type (codes "string")
    then (if same n.format (codes "uuid")
        then codes "UUID"
        else if same n.format (codes "date-time")
        then codes "TIMESTAMPTZ"
        else if same n.format (codes "date")
        then codes "DATE"
        else codes "TEXT")
    else codes "TEXT"

abbrev pub is_nil {ℓ} : {A : Type ℓ} → Option A → Bool
is_nil none = true
is_nil (some a) = false

abbrev pub is_none {ℓ} : {A : Type ℓ} → List A → Bool
is_none [] = true
is_none (x ∷ xs) = false

-- `n.Items != nil || PrimaryType(n) == "array"`
unfoldable pub is_array : Node → Bool
unfolding primary_type same
is_array n = not (is_nil n.items) || same (primary_type n) (codes "array")

-- `len(n.Properties) > 0 || len(n.AllOf) > 0 || len(n.OneOf) > 0 || len(n.AnyOf) > 0`
unfoldable pub is_composite : Node → Bool
is_composite n =
    not (is_none n.properties)
    || not (is_none n.all_of)
    || not (is_none n.one_of)
    || not (is_none n.any_of)

-- `PrimaryType(n) == "object"`
unfoldable pub is_object : Node → Bool
unfolding primary_type same
is_object n = same (primary_type n) (codes "object")
