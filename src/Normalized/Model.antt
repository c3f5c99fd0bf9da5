-- ===== src/Normalized/Model.antt =====
-- internal/normalized/model.go: the planned tables, planNode and planChildTable.
-- A table owns the tables of its arrays, so the tables form a tree. planNode takes fuel: it has no
-- bound on a schema whose arrays hold their own kind (Normalized/Model/Cycle).
pub mod Walk
pub mod Cycle
use schema_to_table.Prelude.{
  ℕ, zero, suc, Bool, true, false, not, ◌&&◌, ◌||◌, Option, none, some, List, [], ◌∷◌, ◌++◌,
  if◌then◌else◌,
}
use schema_to_table.Text.{Text, codes, is_empty}
use schema_to_table.Text.Equality.{same, contains}
use schema_to_table.Outcome.{
  Outcome, ok, err, diverge, untypable_object, untypable_array, ◌>>=◌, each,
}
use schema_to_table.Schema.Names.{sanitize_ident, sorted_keys, to_snake}
use schema_to_table.Schema.Node.{Node, Ptr, Document, deref, resolve, child}
use schema_to_table.Schema.Types.{
  Column, sql_type, primary_type, is_array, is_composite, is_object, is_nil,
}
use schema_to_table.Schema.Values.{child_prefix, visits}

-- What is read of a table's Parent.
pub record ParentKey : Type 0 where
  pub name : Text
  pub key_cols : List Text
  pub key_col_types : List Text

-- TableSpec without its Arrays. The parent of the root is nil. That of another table is what can be
-- read of its Parent at the time: planChildTable sets it before the parent's key is known, and the
-- second phase of Plan, which finishes the parent first, brings it up to date.
pub record TableSpec : Type 0 where
  pub name : Text
  pub columns : List Column
  pub pk : Text
  pub fk_cols : List Text
  pub fk_col_types : List Text
  pub row_no_col : Text
  pub key_cols : List Text
  pub key_col_types : List Text
  pub path : List Text
  pub schema : Ptr
  pub parent : Option ParentKey
  pub value_col : Text
  pub desc : Text

abbrev pub own_key : TableSpec → ParentKey
own_key t = record { name = t.name; key_cols = t.key_cols; key_col_types = t.key_col_types }

mutual
  -- A table with its Arrays.
  pub data Tree : Type 0 where
    table : TableSpec → Forest → Tree

  pub data Forest : Type 0 where
    nil : Forest
    cons : Tree → Forest → Forest

abbrev pub spec : Tree → TableSpec
spec (table t arrays) = t

abbrev pub arrays : Tree → Forest
arrays (table t ts) = ts

-- append(arrays, child)
unfoldable pub append_tree : Forest → Tree → Forest
append_tree nil c = cons c nil
append_tree (cons t ts) c = cons t (append_tree ts c)

abbrev pub names : List Column → List Text
names [] = []
names (c ∷ cols) = c.name ∷ names cols

-- addModelColumn
unfoldable pub add_model_column : Text → Text → TableSpec → TableSpec
add_model_column name type t =
    let clean = sanitize_ident name in
    if contains (names t.columns) clean
    then t
    else record t { columns = t.columns ++ (record { name = clean; type = type } ∷ []) }

-- A new child of a table, before its columns are planned; the desc is schemaDesc of the property.
abbrev pub new_spec : Text → Text → TableSpec
new_spec name pk = record {
  name = name;
  columns = [];
  pk = pk;
  fk_cols = [];
  fk_col_types = [];
  row_no_col = codes "row_no";
  key_cols = [];
  key_col_types = [];
  path = [];
  schema = none;
  parent = none;
  value_col = [];
  desc = [];
}

-- schemaDesc of a node that is not nil
unfoldable pub schema_desc : Node → Text
schema_desc n =
    if not (is_empty n.title)
    then n.title
    else if not (is_empty n.description)
    then n.description
    else []

-- PrimaryType, also of nil
unfoldable pub type_of : Document → Ptr → Outcome Text
type_of doc none = ok []
type_of doc (some i) = do n ← deref doc (some i); ok (primary_type n)

-- `primary != "" && primary != "object" && primary != "array"`
unfoldable pub is_scalar : Text → Bool
is_scalar type =
    not (is_empty type) && not (same type (codes "object")) && not (same type (codes "array"))

unfoldable pub has_table : Text → Forest → Bool
has_table name nil = false
has_table name (cons (table t ts) rest) = same t.name name || has_table name rest

abbrev pub grow : Tree → Tree → Tree
grow (table t ts) c = table t (append_tree ts c)

module _ (doc : Document) where
  -- planChildTable; `plan` is a call of planNode with no node visited.
  unfoldable pub plan_child_table :
      (Text → Ptr → Tree → Outcome Tree) → Text → Text → Node → Tree → Outcome Tree
  plan_child_table plan prefix segment prop parent =
      if is_nil prop.items then err (untypable_array (prefix ++ (codes "_" ++ segment))) else do
        items ← resolve doc prop.items
        let name = (spec parent).name ++ (codes "_" ++ sanitize_ident prefix)
        let fresh = record (new_spec name []) {
          path = (spec parent).path ++ (to_snake segment ∷ []);
          schema = items;
          parent = some (own_key (spec parent));
          desc = schema_desc prop;
        }
        if has_table name (arrays parent) then ok parent else do
          type ← type_of doc items
          if is_scalar type
              then (do
                n ← deref doc items
                ok (
                    grow parent (
                      table
                        (add_model_column (codes "value") (sql_type n (codes "TEXT"))
                          (record fresh { value_col = codes "value" }))
                        nil)))
              else (do planned ← plan [] items (table fresh nil); ok (grow parent planned))

  -- One round of the loop over the properties. `plan` is a call of planNode over the nodes that are
  -- visited, and `plan_anew` one with none visited.
  unfoldable pub plan_property :
      (Text → Ptr → Tree → Outcome Tree)
      → (Text → Ptr → Tree → Outcome Tree)
      → Text
      → List (Text × Ptr)
      → Text
      → Tree
      → Outcome Tree
  plan_property plan plan_anew prefix properties key tbl = do
    let name = child_prefix prefix key
    resolved ← resolve doc (child key properties)
    n ← deref doc resolved
    if is_array n
        then plan_child_table plan_anew name (to_snake key) n tbl
        else if is_object n && is_nil n.items && not (is_composite n)
        then err (untypable_object name)
        else if is_composite n
        then plan name resolved tbl
        else ok (table (add_model_column name (sql_type n (codes "TEXT")) (spec tbl)) (arrays tbl))

  unfoldable pub plan_branches :
      (Text → Ptr → Tree → Outcome Tree)
      → (Text → Ptr → Tree → Outcome Tree)
      → Text
      → Node
      → Tree
      → Outcome Tree
  plan_branches plan plan_anew prefix n tbl = do
    tbl₁ ← each (λ sub. plan prefix sub) n.all_of tbl
    tbl₂ ← each (λ sub. plan prefix sub) (n.one_of ++ n.any_of) tbl₁
    each (plan_property plan plan_anew prefix n.properties) (sorted_keys n.properties) tbl₂

  -- planNode. The mark of a node is taken back on return, so it is passed down only.
  unfoldable pub plan_node : ℕ → List Ptr → Text → Ptr → Tree → Outcome Tree
  plan_node zero visited prefix s tbl = diverge
  plan_node (suc fuel) visited prefix none tbl = ok tbl
  plan_node (suc fuel) visited prefix (some i) tbl = do
    resolved ← resolve doc (some i)
    if visits visited resolved then ok tbl else do
      n ← deref doc resolved
      plan_branches (plan_node fuel (resolved ∷ visited)) (plan_node fuel []) prefix n tbl
