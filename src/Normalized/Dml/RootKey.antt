-- ===== src/Normalized/Dml/RootKey.antt =====
-- The key of a document: the literal of the primary key in the root row of its payload.
use schema_to_table.Prelude.{◌≡◌, false, Option, none, some, List, []}
use schema_to_table.Text.{Text, codes, is_empty}
use schema_to_table.Text.Equality.{same}
use schema_to_table.Maps.{lookup}
use schema_to_table.Json.{Json}
use schema_to_table.Outcome.{ok}
use schema_to_table.Schema.Names.{sorted_keys}
use schema_to_table.Schema.Values.{Values}
use schema_to_table.Normalized.Model.{spec}
use schema_to_table.Normalized.Plan.{Model}
use schema_to_table.Normalized.Dml.{header_cells, row_cells, gather_row_values, root_literal}
use schema_to_table.Normalized.Dml.Key.{InRow, InRow-append, InRow-column_cells, IsRooted}

-- The row is that of the root, of the values gathered from the payload and the headers; the key is
-- the value of the primary key, stands in the row's column of it, and is not NULL.
pub record HasKey (m : Model) (unmarshal : Text → Option Json) (headers : List (Text × Text))
    (payload : Text) (row : List (Text × Text)) (key : Text) : Type 0 where
  pub value : Json
  pub values : Values
  pub read : unmarshal payload ≡ some value
  pub gathered : gather_row_values m (spec m.tree) value headers ≡ ok values
  pub is_row : row ≡ row_cells m (spec m.tree) values [] 0
  pub found : lookup (spec m.tree).pk values ≡ some key
  pub in_row : InRow (spec m.tree).pk key row
  pub not_null : same key (codes "NULL") ≡ false

found_key :
    (o : Option Text) (key : Text)
    → elim o [ none ↦ [] | some lit ↦ lit ] ≡ key
    → is_empty key ≡ false
    → o ≡ some key
found_key none key e f = absurd (cc (rw (← e) at f))
found_key (some lit) key e f = cc e

module _ (m : Model) (rooted : IsRooted m) (values : Values) (key : Text)
    (e : root_literal m values ≡ key) (f : is_empty key ≡ false) where
  root_key-lookup : lookup (spec m.tree).pk values ≡ some key
  unfolding root_literal
  root_key-lookup = found_key (lookup (spec m.tree).pk values) key e f

  root_key-cell : InRow (spec m.tree).pk key (row_cells m (spec m.tree) values [] 0)
  unfolding row_cells
  root_key-cell = rw rooted.no_parent (
      InRow-append (spec m.tree).pk key (header_cells values (sorted_keys m.headers)) _ (
        InRow-column_cells values (spec m.tree).pk key (spec m.tree).columns rooted.column
          root_key-lookup))

  pub root_literal-HasKey :
      (unmarshal : Text → Option Json) (headers : List (Text × Text)) (payload : Text)
      (value : Json)
      → unmarshal payload ≡ some value
      → gather_row_values m (spec m.tree) value headers ≡ ok values
      → same key (codes "NULL") ≡ false
      → HasKey m unmarshal headers payload (row_cells m (spec m.tree) values [] 0) key
  root_literal-HasKey unmarshal headers payload value read gathered present = record {
    value = value;
    values = values;
    read = read;
    gathered = gathered;
    is_row = λ i. row_cells m (spec m.tree) values [] 0;
    found = root_key-lookup;
    in_row = root_key-cell;
    not_null = present;
  }
