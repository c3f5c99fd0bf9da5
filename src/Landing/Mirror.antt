-- ===== src/Landing/Mirror.antt =====
-- CollectValues mirrors walkSchema: on every schema and payload the two meet the same columns.
use schema_to_table.Prelude.{
  ℕ, zero, suc, ◌≡◌, ◌||◌, none, some, List, ◌∷◌, ◌++◌, arith, inl, inr, Bool-cases,
}
use mathlib.Core.List.{map-append}
use schema_to_table.Text.{Text}
use schema_to_table.Text.Equality.{same, same_iff, contains, contains-append}
use schema_to_table.Maps.{keys, put, contains-keys-put}
use schema_to_table.Json.{Json}
use schema_to_table.Outcome.{Outcome}
use schema_to_table.Outcome.Laws.{Agree, Agree-bind, Agree-after, Agree-each}
use schema_to_table.Schema.Names.{sanitize_ident, sorted_keys}
use schema_to_table.Schema.Node.{Node, Ptr, Document, deref, resolve, child}
use schema_to_table.Schema.Types.{Column, is_array, is_composite, is_object}
use schema_to_table.Schema.Values.{
  Values, child_prefix, get_child, visits, collect_property, collect_node, collect_values,
}
use schema_to_table.Landing.{names, add_column, walk_property, walk_node, walk_schema}

pub contains-names-add_column :
    (name type k : Text) (cols : List Column)
    → contains (names (add_column name type cols)) k
      ≡ (same (sanitize_ident name) k || contains (names cols) k)
unfolding add_column
contains-names-add_column name type k cols =
    elim (Bool-cases (contains (names cols) (sanitize_ident name))) [
      | inl old ↦ rw old (ground (arith, same_iff (sanitize_ident name) k))
      | inr new ↦ rw (new, map-append, contains-append) (unfold contains in ground arith)
    ]

-- The columns and the values have the same names.
abbrev pub SameNames : List Column → Values → Type 0
SameNames cols out = (k : Text) → contains (names cols) k ≡ contains (keys out) k

pub add_put :
    (name type lit : Text) (cols : List Column) (out : Values)
    → SameNames cols out
    → SameNames (add_column name type cols) (put (sanitize_ident name) lit out)
add_put name type lit cols out h k = rw (
  contains-names-add_column name type k cols,
  contains-keys-put (sanitize_ident name) k lit out,
  h k,
)

module _ (doc : Document) (complex_type : Text) where
  module _ (walk : Text → Ptr → List Column → Outcome (List Column))
      (collect : Text → Ptr → Json → Values → Outcome Values)
      (h : (prefix : Text) (s : Ptr) (value : Json) (cols : List Column) (out : Values)
        → SameNames cols out
        → Agree SameNames (walk prefix s cols) (collect prefix s value out)) where
    property_mirror :
        (prefix : Text) (properties : List (Text × Ptr)) (value : Json) (key : Text)
        (cols : List Column) (out : Values)
        → SameNames cols out
        → Agree SameNames
            (walk_property doc complex_type walk prefix properties key cols)
            (collect_property doc complex_type collect prefix properties value key out)
    unfolding walk_property collect_property
    property_mirror prefix properties value key cols out same_names =
        Agree-after SameNames (resolve doc (child key properties)) _ _ λ r _.
          Agree-after SameNames (deref doc r) _ _ λ n _. elim (Bool-cases (is_array n)) [
            | inl a ↦ rw a (add_put (child_prefix prefix key) complex_type _ cols out same_names)
            | inr a ↦ elim (Bool-cases (is_composite n)) [
              | inl c ↦
                  rw (a, c)
                    (h (child_prefix prefix key) r (get_child value key) cols out same_names)
              | inr c ↦ elim (Bool-cases (is_object n)) [
                | inl o ↦ rw (a, c, o) (add_put (child_prefix prefix key) _ _ cols out same_names)
                | inr o ↦ rw (a, c, o) (add_put (child_prefix prefix key) _ _ cols out same_names)
              ]
            ]
          ]

    node_mirror :
        (prefix : Text) (n : Node) (value : Json) (cols : List Column) (out : Values)
        → SameNames cols out
        → Agree SameNames
            (walk_node doc complex_type walk prefix n cols)
            (collect_node doc complex_type collect prefix n value out)
    unfolding walk_node collect_node
    node_mirror prefix n value cols out same_names =
        Agree-bind SameNames SameNames _ _ _ _
          (Agree-each SameNames (λ sub. walk prefix sub) (λ sub. collect prefix sub value)
            (λ sub. h prefix sub value) n.all_of cols out same_names)
          λ c₁ o₁ s₁.
            Agree-bind SameNames SameNames _ _ _ _
              (Agree-each SameNames (λ sub. walk prefix sub) (λ sub. collect prefix sub value)
                (λ sub. h prefix sub value) (n.one_of ++ n.any_of) c₁ o₁ s₁)
              λ c₂ o₂ s₂.
                Agree-each SameNames (walk_property doc complex_type walk prefix n.properties)
                  (collect_property doc complex_type collect prefix n.properties value)
                  (property_mirror prefix n.properties value) (sorted_keys n.properties) c₂ o₂ s₂

  -- The walks of CollectValues and walkSchema, begun alike over the same names, end alike: both
  -- fail with one error, or both return, and then the columns and the values have the same names.
  pub collect_values_mirror :
      (fuel : ℕ) (visited : List Ptr) (prefix : Text) (s : Ptr) (value : Json) (cols : List Column)
      (out : Values)
      → SameNames cols out
      → Agree SameNames
          (walk_schema doc complex_type fuel visited prefix s cols)
          (collect_values doc complex_type fuel visited prefix s value out)
  unfolding walk_schema collect_values
  collect_values_mirror zero visited prefix s value cols out h = tt
  collect_values_mirror (suc fuel) visited prefix none value cols out h = h
  collect_values_mirror (suc fuel) visited prefix (some i) value cols out h =
      Agree-after SameNames (resolve doc (some i)) _ _ λ r _. elim (Bool-cases (visits visited r)) [
        | inl old ↦ rw old h
        | inr new ↦ rw new (
            Agree-after SameNames (deref doc r) _ _ λ n _.
              node_mirror (walk_schema doc complex_type fuel (r ∷ visited))
                (collect_values doc complex_type fuel (r ∷ visited))
                (λ p q w c o. collect_values_mirror fuel (r ∷ visited) p q w c o) prefix n value
                cols out h)
      ]
