-- ===== src/Landing/Plan.antt =====
-- What Columns plans: one column for each name, under clean names, the headers first.
use mathlib.Core.List.{map-append}
use schema_to_table.Prelude.{
  ℕ, zero, suc, ◌≡◌, refl, sym, false, none, some, List, [], ◌∷◌, ◌++◌, append-nil, append_assoc,
  arith, inl, inr, Bool-cases, All, All-append, map, true, ◌∙◌, if◌then◌else◌,
}
use schema_to_table.Text.{Text, codes}
use schema_to_table.Text.Equality.{Distinct, Distinct-snoc, contains, same_iff, same_refl}
use schema_to_table.Maps.{lookup}
use schema_to_table.Outcome.{Outcome, ok, err, no_columns, ◌>>=◌, wrap, each}
use schema_to_table.Outcome.Laws.{Holds, Holds-bind, Holds-each, Holds-ok}
use schema_to_table.Schema.Names.{sanitize_ident, sorted_keys}
use schema_to_table.Schema.Names.Sanitize.{IsIdent, sanitize_ident-IsIdent}
use schema_to_table.Schema.Node.{Node, Ptr, Document, deref, resolve, child}
use schema_to_table.Schema.Types.{Column, is_array, is_composite, is_none}
use schema_to_table.Schema.Values.{child_prefix, visits}
use schema_to_table.Landing.{
  Table, names, add_column, header_columns, walk_property, walk_node, walk_schema, walk_fuel,
  columns,
}

-- Different names, all of identifier characters.
pub record IsPlanned (cols : List Column) : Type 0 where
  pub distinct : Distinct (names cols)
  pub clean : All (λ c. All IsIdent c.name) cols

pub add_column-IsPlanned :
    (name type : Text) (cols : List Column) → IsPlanned cols → IsPlanned (add_column name type cols)
unfolding add_column
add_column-IsPlanned name type cols p =
    elim (Bool-cases (contains (names cols) (sanitize_ident name))) [
      | inl old ↦ rw old p
      | inr new ↦ rw new (record {
        distinct = rw map-append (Distinct-snoc (names cols) (sanitize_ident name) new p.distinct);
        clean =
            All-append (λ c. All IsIdent c.name) cols _ p.clean (sanitize_ident-IsIdent name, tt);
      })
    ]

-- What addColumn keeps, walkSchema keeps.
module _ (P : List Column → Type 0)
    (keep : (name type : Text) (cols : List Column) → P cols → P (add_column name type cols))
    (doc : Document) (complex_type : Text) where
  module _ (recur : Text → Ptr → List Column → Outcome (List Column))
      (h : (prefix : Text) (s : Ptr) (cols : List Column)
        → P cols
        → Holds P (recur prefix s cols)) where
    walk_property-Holds :
        (prefix : Text) (properties : List (Text × Ptr)) (key : Text) (cols : List Column)
        → P cols
        → Holds P (walk_property doc complex_type recur prefix properties key cols)
    unfolding walk_property
    walk_property-Holds prefix properties key cols p =
        Holds-bind P (resolve doc (child key properties)) _ λ r _.
          Holds-bind P (deref doc r) _ λ n _. elim (Bool-cases (is_array n)) [
            | inl a ↦ rw a (keep (child_prefix prefix key) _ cols p)
            | inr a ↦ elim (Bool-cases (is_composite n)) [
              | inl c ↦ rw (a, c) (h (child_prefix prefix key) r cols p)
              | inr c ↦ rw (a, c) (keep (child_prefix prefix key) _ cols p)
            ]
          ]

    walk_node-Holds :
        (prefix : Text) (n : Node) (cols : List Column)
        → P cols
        → Holds P (walk_node doc complex_type recur prefix n cols)
    unfolding walk_node
    walk_node-Holds prefix n cols p =
        Holds-bind P (each (λ sub. recur prefix sub) n.all_of cols) _ λ c₁ e₁.
          Holds-bind P (each (λ sub. recur prefix sub) (n.one_of ++ n.any_of) c₁) _ λ c₂ e₂.
            Holds-each P (walk_property doc complex_type recur prefix n.properties)
              (walk_property-Holds prefix n.properties) (sorted_keys n.properties) c₂
              (Holds-ok P _ c₂
                (Holds-each P (λ sub. recur prefix sub) (λ sub c. h prefix sub c)
                  (n.one_of ++ n.any_of) c₁
                  (Holds-ok P _ c₁
                    (Holds-each P (λ sub. recur prefix sub) (λ sub c. h prefix sub c) n.all_of cols
                      p)
                    e₁))
                e₂)

  pub walk_schema-Holds :
      (fuel : ℕ) (visited : List Ptr) (prefix : Text) (s : Ptr) (cols : List Column)
      → P cols
      → Holds P (walk_schema doc complex_type fuel visited prefix s cols)
  unfolding walk_schema
  walk_schema-Holds zero visited prefix s cols p = tt
  walk_schema-Holds (suc fuel) visited prefix none cols p = p
  walk_schema-Holds (suc fuel) visited prefix (some i) cols p =
      Holds-bind P (resolve doc (some i)) _ λ r _. elim (Bool-cases (visits visited r)) [
        | inl old ↦ rw old p
        | inr new ↦ rw new (
            Holds-bind P (deref doc r) _ λ n _.
              walk_node-Holds (walk_schema doc complex_type fuel (r ∷ visited))
                (λ q s c. walk_schema-Holds fuel (r ∷ visited) q s c) prefix n cols p)
      ]

header_columns-IsPlanned :
    (headers : List (Text × Text)) (ks : List Text) (cols : List Column)
    → IsPlanned cols
    → IsPlanned (header_columns headers ks cols)
unfolding header_columns
header_columns-IsPlanned headers [] cols p = p
header_columns-IsPlanned headers (k ∷ ks) cols p =
    header_columns-IsPlanned headers ks _ (add_column-IsPlanned (codes "header_" ++ k) _ cols p)

-- A result of Columns is one of walkSchema over the header columns, and is not empty.
pub columns-walk :
    (t : Table) (headers : List (Text × Text)) (cols : List Column)
    → columns t headers ≡ ok cols
    → (walk_schema t.doc t.complex_type
          (walk_fuel t.doc)
          []
          []
          (some t.doc.root)
          (header_columns headers (sorted_keys headers) [])
        ≡ ok cols)
      × (is_none cols ≡ false)
unfolding columns
columns-walk t headers cols h =
    at_walk
      (walk_schema t.doc t.complex_type (walk_fuel t.doc) [] [] (some t.doc.root)
        (header_columns headers (sorted_keys headers) []))
      h
  where
    at_walk :
        (m : Outcome (List Column))
        → (wrap (codes "plan columns") m >>= λ c. if is_none c then err no_columns else ok c)
          ≡ ok cols
        → (m ≡ ok cols) × (is_none cols ≡ false)
    at_walk m e = ground arith

-- The columns that Columns returns have different names, each of identifier characters only.
pub columns-IsPlanned :
    (t : Table) (headers : List (Text × Text)) (cols : List Column)
    → columns t headers ≡ ok cols
    → IsPlanned cols
columns-IsPlanned t headers cols h =
    Holds-ok IsPlanned _ cols
      (walk_schema-Holds IsPlanned add_column-IsPlanned t.doc t.complex_type (walk_fuel t.doc) [] []
        (some t.doc.root) _
        (header_columns-IsPlanned headers (sorted_keys headers) []
          (record { distinct = tt; clean = tt })))
      (columns-walk t headers cols h).0

-- The columns begin with `first`.
abbrev Begins : List Column → List Column → Type 0
Begins first cols = (more : List Column) × (cols ≡ first ++ more)

add_column-Begins :
    (first : List Column) (name type : Text) (cols : List Column)
    → Begins first cols
    → Begins first (add_column name type cols)
unfolding add_column
add_column-Begins first name type cols (more, e) =
    elim (Bool-cases (contains (names cols) (sanitize_ident name))) [
      | inl old ↦ rw old (more, e)
      | inr new ↦ rw new (
        more ++ (record { name = sanitize_ident name; type = type } ∷ []),
        rw e (append_assoc first more _),
      )
    ]

abbrev pub header_name : Text → Text
header_name k = sanitize_ident (codes "header_" ++ k)

-- The column of a header: its clean name, and the type that the map gives for the key.
abbrev pub header_column : List (Text × Text) → Text → Column
header_column headers k = record {
  name = header_name k;
  type = elim (lookup k headers) [ none ↦ [] | some type ↦ type ];
}

names-header_column :
    (headers : List (Text × Text)) (ks : List Text)
    → names (map (header_column headers) ks) ≡ map header_name ks
names-header_column headers [] = refl
names-header_column headers (k ∷ ks) = rw (names-header_column headers ks)

contains-middle :
    (l : List Text) (k : Text) (more : List Text) → contains (l ++ (k ∷ more)) k ≡ true
unfolding contains
contains-middle [] k more = rw same_refl
contains-middle (x ∷ l) k more = ground (arith, contains-middle l k more)

Distinct-before :
    (l : List Text) (k : Text) (more : List Text)
    → Distinct (l ++ (k ∷ more))
    → contains l k ≡ false
unfolding contains
Distinct-before [] k more d = refl
Distinct-before (x ∷ l) k more (fresh, d) =
    ground (arith, fresh, Distinct-before l k more d, contains-middle l k more, same_iff x k)

add_column-fresh :
    (name type : Text) (cols : List Column)
    → contains (names cols) (sanitize_ident name) ≡ false
    → add_column name type cols ≡ cols ++ (record { name = sanitize_ident name; type = type } ∷ [])
unfolding add_column
add_column-fresh name type cols h = rw h

header_columns-map :
    (headers : List (Text × Text)) (ks : List Text) (cols : List Column)
    → Distinct (names cols ++ map header_name ks)
    → header_columns headers ks cols ≡ cols ++ map (header_column headers) ks
unfolding header_columns
header_columns-map headers [] cols d = sym (append-nil cols)
header_columns-map headers (k ∷ ks) cols d =
    rw
      (add_column-fresh (codes "header_" ++ k) (header_column headers k).type cols
        (Distinct-before (names cols) (header_name k) (map header_name ks) d))
      (header_columns-map headers ks (cols ++ (header_column headers k ∷ []))
          (rw (map-append, append_assoc) d)
        ∙ append_assoc cols (header_column headers k ∷ []) _)

-- If the headers have different clean names behind `header_`, the columns that Columns returns
-- begin with one column for each header, in the order of the sorted keys: its name is that clean
-- name, and its type the one given for the key.
pub columns_headers_first :
    (t : Table) (headers : List (Text × Text)) (cols : List Column)
    → Distinct (map header_name (sorted_keys headers))
    → columns t headers ≡ ok cols
    → (more : List Column) × (cols ≡ map (header_column headers) (sorted_keys headers) ++ more)
columns_headers_first t headers cols d h =
    let first = header_columns headers (sorted_keys headers) [] in
    let (more, e) : Begins first cols =
      Holds-ok (Begins first) _ cols
        (walk_schema-Holds (Begins first) (add_column-Begins first) t.doc t.complex_type
          (walk_fuel t.doc) [] [] (some t.doc.root) first ([], sym (append-nil first)))
        (columns-walk t headers cols h).0 in
    (more, rw (← header_columns-map headers (sorted_keys headers) [] d) e)
