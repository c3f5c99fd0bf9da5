-- ===== src/Landing/Names.antt =====
-- The names of the planned columns do not depend on the types of the headers.
use schema_to_table.Prelude.{
  ℕ, zero, suc, ◌≡◌, refl, none, some, List, [], ◌∷◌, ◌++◌, inl, inr, Bool-cases, if◌then◌else◌,
}
use mathlib.Core.List.{map-append}
use schema_to_table.Text.{Text, codes}
use schema_to_table.Text.Equality.{contains}
use schema_to_table.Outcome.{Outcome, ok, err, no_columns, each}
use schema_to_table.Outcome.Laws.{Agree, Agree-bind, Agree-wrap, Agree-after, Agree-each}
use schema_to_table.Schema.Names.{sanitize_ident, sorted_keys}
use schema_to_table.Schema.Node.{Node, Ptr, Document, deref, resolve, child}
use schema_to_table.Schema.Types.{Column, is_array, is_composite, is_none}
use schema_to_table.Schema.Values.{child_prefix, visits}
use schema_to_table.Landing.{
  Table, names, add_column, header_columns, walk_property, walk_node, walk_schema, walk_fuel,
  columns,
}

-- The columns have the same names in the same order.
abbrev pub Namesakes : List Column → List Column → Type 0
Namesakes c d = names c ≡ names d

add_column-Namesakes :
    (name type type' : Text) (c d : List Column)
    → Namesakes c d
    → Namesakes (add_column name type c) (add_column name type' d)
unfolding add_column
add_column-Namesakes name type type' c d h =
    elim (Bool-cases (contains (names d) (sanitize_ident name))) [
      | inl old ↦ rw (h, old) h
      | inr new ↦ rw (h, new, map-append, map-append, h) refl
    ]

header_columns-Namesakes :
    (types types' : List (Text × Text)) (ks : List Text) (c d : List Column)
    → Namesakes c d
    → Namesakes (header_columns types ks c) (header_columns types' ks d)
unfolding header_columns
header_columns-Namesakes types types' [] c d h = h
header_columns-Namesakes types types' (k ∷ ks) c d h =
    header_columns-Namesakes types types' ks _ _
      (add_column-Namesakes (codes "header_" ++ k) _ _ c d h)

module _ (doc : Document) (complex_type : Text) where
  module _ (walk : Text → Ptr → List Column → Outcome (List Column))
      (h : (prefix : Text) (s : Ptr) (c d : List Column)
        → Namesakes c d
        → Agree Namesakes (walk prefix s c) (walk prefix s d)) where
    walk_property-Namesakes :
        (prefix : Text) (properties : List (Text × Ptr)) (key : Text) (c d : List Column)
        → Namesakes c d
        → Agree Namesakes
            (walk_property doc complex_type walk prefix properties key c)
            (walk_property doc complex_type walk prefix properties key d)
    unfolding walk_property
    walk_property-Namesakes prefix properties key c d e =
        Agree-after Namesakes (resolve doc (child key properties)) _ _ λ r _.
          Agree-after Namesakes (deref doc r) _ _ λ n _. elim (Bool-cases (is_array n)) [
            | inl a ↦ rw a (add_column-Namesakes (child_prefix prefix key) _ _ c d e)
            | inr a ↦ elim (Bool-cases (is_composite n)) [
              | inl x ↦ rw (a, x) (h (child_prefix prefix key) r c d e)
              | inr x ↦ rw (a, x) (add_column-Namesakes (child_prefix prefix key) _ _ c d e)
            ]
          ]

    walk_node-Namesakes :
        (prefix : Text) (n : Node) (c d : List Column)
        → Namesakes c d
        → Agree Namesakes
            (walk_node doc complex_type walk prefix n c)
            (walk_node doc complex_type walk prefix n d)
    unfolding walk_node
    walk_node-Namesakes prefix n c d e =
        Agree-bind Namesakes Namesakes _ _ _ _ (walk_all n.all_of c d e) λ c₁ d₁ e₁.
          Agree-bind Namesakes Namesakes _ _ _ _ (walk_all (n.one_of ++ n.any_of) c₁ d₁ e₁)
            λ c₂ d₂ e₂.
              Agree-each Namesakes _ _ (walk_property-Namesakes prefix n.properties)
                (sorted_keys n.properties) c₂ d₂ e₂
      where
        walk_all :
            (subs : List Ptr) (c d : List Column)
            → Namesakes c d
            → Agree Namesakes
                (each (λ sub. walk prefix sub) subs c)
                (each (λ sub. walk prefix sub) subs d)
        walk_all =
            Agree-each Namesakes (λ sub. walk prefix sub) (λ sub. walk prefix sub)
              (λ sub. h prefix sub)

  walk_schema-Namesakes :
      (fuel : ℕ) (visited : List Ptr) (prefix : Text) (s : Ptr) (c d : List Column)
      → Namesakes c d
      → Agree Namesakes
          (walk_schema doc complex_type fuel visited prefix s c)
          (walk_schema doc complex_type fuel visited prefix s d)
  unfolding walk_schema
  walk_schema-Namesakes zero visited prefix s c d e = tt
  walk_schema-Namesakes (suc fuel) visited prefix none c d e = e
  walk_schema-Namesakes (suc fuel) visited prefix (some i) c d e =
      Agree-after Namesakes (resolve doc (some i)) _ _ λ r _. elim (Bool-cases (visits visited r)) [
        | inl old ↦ rw old e
        | inr new ↦ rw new (
            Agree-after Namesakes (deref doc r) _ _ λ n _.
              walk_node-Namesakes (walk_schema doc complex_type fuel (r ∷ visited))
                (λ p q. walk_schema-Namesakes fuel (r ∷ visited) p q) prefix n c d e)
      ]

-- Columns of one table for headers with the same sorted keys: both calls fail with one error, or both
-- return the same names in the same order.
pub columns-Namesakes :
    (t : Table) (types types' : List (Text × Text))
    → sorted_keys types ≡ sorted_keys types'
    → Agree Namesakes (columns t types) (columns t types')
unfolding columns
columns-Namesakes t types types' e =
    Agree-bind Namesakes Namesakes _ _ _ _
      (Agree-wrap Namesakes (codes "plan columns") _ _ (
        walk_schema-Namesakes t.doc t.complex_type (walk_fuel t.doc) [] [] (some t.doc.root) _ _
          (rw (← e) (header_columns-Namesakes types types' (sorted_keys types) [] [] refl))))
      nonempty
  where
    nonempty :
        (c d : List Column)
        → Namesakes c d
        → Agree Namesakes
            (if is_none c then err no_columns else ok c)
            (if is_none d then err no_columns else ok d)
    nonempty [] [] h = refl
    nonempty [] (y ∷ d) h = absurd (cc h)
    nonempty (x ∷ c) [] h = absurd (cc h)
    nonempty (x ∷ c) (y ∷ d) h = h
