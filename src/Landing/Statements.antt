-- ===== src/Landing/Statements.antt =====
-- What Insert and Upsert render: the planned columns, each with the payload's value.
use schema_to_table.Prelude.{
  ◌+◌, ◌≤◌, ◌≡◌, ◌↔◌, refl, ap, true, false, not, ◌&&◌, Option, some, List, [], ◌∷◌, ◌++◌, map,
  length, arith, inl, inr, Bool-cases,
}
use schema_to_table.Text.{Text, codes, is_empty, trim_space}
use schema_to_table.Text.Equality.{Distinct, same, same_iff, contains}
use schema_to_table.Maps.{keys}
use schema_to_table.Json.{Json}
use schema_to_table.Outcome.{ok, err, conflict_unknown, no_updates, wrap}
use schema_to_table.Outcome.Laws.{Agree-ok, bind-eq-ok, wrap-eq-ok}
use schema_to_table.Schema.Names.{sanitize_ident, sorted_keys}
use schema_to_table.Schema.Names.Sorted.{sort_texts_idem}
use schema_to_table.Schema.Types.{Column, is_none}
use schema_to_table.Schema.Values.{Values, collect_values, parse_payload}
use schema_to_table.Landing.{
  Table, names, header_columns, header_literals, header_type_shim, literal, walk_fuel, columns,
  render_values, updated, upsert_into, upsert,
}
use schema_to_table.Landing.Mirror.{SameNames, add_put, collect_values_mirror}
use schema_to_table.Landing.Plan.{columns-walk, columns-IsPlanned}

keys-header_type_shim : (ks : List Text) → keys (header_type_shim ks) ≡ ks
unfolding header_type_shim
keys-header_type_shim [] = refl
keys-header_type_shim (k ∷ ks) = rw (keys-header_type_shim ks)

pub sorted_keys-shim :
    (headers : List (Text × Text))
    → sorted_keys (header_type_shim (sorted_keys headers)) ≡ sorted_keys headers
unfolding sorted_keys
sorted_keys-shim headers = rw (keys-header_type_shim, sort_texts_idem)

header_SameNames :
    (types headers : List (Text × Text)) (ks : List Text) (cols : List Column) (out : Values)
    → SameNames cols out
    → SameNames (header_columns types ks cols) (header_literals headers ks out)
unfolding header_columns header_literals
header_SameNames types headers [] cols out h = h
header_SameNames types headers (k ∷ ks) cols out h =
    header_SameNames types headers ks _ _ (add_put (codes "header_" ++ k) _ _ cols out h)

-- The parts of what renderValues returned.
pub record IsRendering (unmarshal : Text → Option Json) (t : Table) (headers : List (Text × Text))
    (payload : Text) (cols lits : List Text) : Type 0 where
  pub planned : List Column
  pub value : Json
  pub values : Values
  pub plan : columns t (header_type_shim (sorted_keys headers)) ≡ ok planned
  pub decoded : unmarshal payload ≡ some value
  pub collected :
      collect_values t.doc t.complex_type
        (walk_fuel t.doc)
        []
        []
        (some t.doc.root)
        value
        (header_literals headers (sorted_keys headers) [])
      ≡ ok values
  pub cols_planned : cols ≡ names planned
  pub lits_values : lits ≡ map (literal values) cols
  pub same_names : (k : Text) → contains cols k ≡ contains (keys values) k

module _ (unmarshal : Text → Option Json) (t : Table) (headers : List (Text × Text)) where
  abbrev start_columns : List Column
  start_columns = header_columns (header_type_shim (sorted_keys headers)) (sorted_keys headers) []

  abbrev start_values : Values
  start_values = header_literals headers (sorted_keys headers) []

  plan_SameNames :
      (value : Json) (planned : List Column) (values : Values)
      → columns t (header_type_shim (sorted_keys headers)) ≡ ok planned
      → collect_values t.doc t.complex_type
          (walk_fuel t.doc)
          []
          []
          (some t.doc.root)
          value
          start_values
        ≡ ok values
      → SameNames planned values
  plan_SameNames value planned values plan collected =
      Agree-ok SameNames _ _ planned values
        (collect_values_mirror t.doc t.complex_type (walk_fuel t.doc) [] [] (some t.doc.root) value
          start_columns start_values
          (header_SameNames _ headers (sorted_keys headers) [] [] (λ k. refl)))
        (rw sorted_keys-shim at (columns-walk t _ planned plan).0) collected

  decoded_payload :
      (payload : Text) (value : Json)
      → parse_payload unmarshal payload ≡ ok value
      → unmarshal payload ≡ some value
  unfolding parse_payload
  decoded_payload payload value h = ground arith

  -- The columns that renderValues returns are the planned ones, in their order, and the literals
  -- stand at their places. Every planned column has a collected value, and every collected value
  -- has a planned column.
  pub render_values-IsRendering :
      (payload : Text) (cols lits : List Text)
      → render_values unmarshal t headers payload ≡ ok (cols, lits)
      → IsRendering unmarshal t headers payload cols lits
  unfolding render_values
  render_values-IsRendering payload cols lits h =
      let (planned, plan, h₁) =
        bind-eq-ok (columns t (header_type_shim (sorted_keys headers))) _ _ h in
      let (value, decoded, h₂) =
        bind-eq-ok (wrap (codes "render values") (parse_payload unmarshal payload)) _ _ h₁ in
      let (values, collected, h₃) =
        bind-eq-ok
          (wrap (codes "render values") (
            collect_values t.doc t.complex_type (walk_fuel t.doc) [] [] (some t.doc.root) value
              start_values))
          _ _ h₂ in
      let same = plan_SameNames value planned values plan (wrap-eq-ok _ _ values collected) in
      let e : cols ≡ names planned = cc in
      let f : lits ≡ map (literal values) (names planned) = cc in
      record {
        planned = planned;
        value = value;
        values = values;
        plan = plan;
        decoded = decoded_payload payload value (wrap-eq-ok _ _ value decoded);
        collected = wrap-eq-ok _ _ values collected;
        cols_planned = e;
        lits_values = rw e f;
        same_names = λ k. rw e (same k);
      }

-- An upsert overwrites every column but the conflict column.
contains-updated :
    (conflict k : Text) (cols : List Text)
    → contains (updated conflict cols) k ≡ (not (same k conflict) && contains cols k)
unfolding updated contains
contains-updated conflict k [] = ground arith
contains-updated conflict k (c ∷ cols) = ground (
  arith,
  contains-updated conflict k cols,
  same_iff c conflict,
  same_iff c k,
  same_iff k conflict,
)

updated_absent :
    (conflict : Text) (cols : List Text)
    → contains cols conflict ≡ false
    → updated conflict cols ≡ cols
unfolding updated contains
updated_absent conflict [] h = refl
updated_absent conflict (c ∷ cols) h = ground (arith, updated_absent conflict cols)

-- Of different columns, one of which is the conflict column, an upsert overwrites all but that one.
length-updated :
    (conflict : Text) (cols : List Text)
    → Distinct cols
    → contains cols conflict ≡ true
    → length (updated conflict cols) + 1 ≡ length cols
unfolding updated contains
length-updated conflict [] d h = cc
length-updated conflict (c ∷ cols) (fresh, d) h = elim (Bool-cases (same c conflict)) [
  | inl e ↦ rw e (
      omega
        (arith, ap length (updated_absent conflict cols (rw (← (same_iff c conflict).0 e) fresh))))
  | inr e ↦ rw e (omega (arith, length-updated conflict cols d (ground arith)))
]

module _ (unmarshal : Text → Option Json) (t : Table) (headers : List (Text × Text))
    (table_name payload conflict : Text) (cols lits : List Text)
    (named : is_empty (trim_space table_name) ≡ false)
    (keyed : is_empty (trim_space conflict) ≡ false)
    (rendered : render_values unmarshal t headers payload ≡ ok (cols, lits)) where
  cols-Distinct : Distinct cols
  cols-Distinct =
      let r = render_values-IsRendering unmarshal t headers payload cols lits rendered in
      rw r.cols_planned (columns-IsPlanned t _ r.planned r.plan).distinct

  upsert_updates :
      contains cols (sanitize_ident conflict) ≡ true
      → is_none (updated (sanitize_ident conflict) cols) ≡ false
      → (stmt : Text) × (upsert unmarshal t table_name headers payload conflict ≡ ok stmt)
  unfolding upsert
  upsert_updates e f = (
    upsert_into table_name cols lits (sanitize_ident conflict),
    rw (named, keyed, rendered, e, f),
  )

  upsert_unknown :
      contains cols (sanitize_ident conflict) ≡ false
      → upsert unmarshal t table_name headers payload conflict
        ≡ err (conflict_unknown (sanitize_ident conflict))
  unfolding upsert
  upsert_unknown e = rw (named, keyed, rendered, e)

  upsert_alone :
      contains cols (sanitize_ident conflict) ≡ true
      → is_none (updated (sanitize_ident conflict) cols) ≡ true
      → upsert unmarshal t table_name headers payload conflict
        ≡ err (no_updates (sanitize_ident conflict))
  unfolding upsert
  upsert_alone e f = rw (named, keyed, rendered, e, f)

  -- Where the values can be rendered and neither the table's name nor the conflict column is blank,
  -- an upsert is rendered exactly if the conflict column is one of the columns and there is another
  -- one.
  pub upsert_succeeds :
      ((stmt : Text) × (upsert unmarshal t table_name headers payload conflict ≡ ok stmt))
      ↔ ((contains cols (sanitize_ident conflict) ≡ true) × (2 ≤ length cols))
  upsert_succeeds = (needs, suffices)
    where
      u : List Text
      u = updated (sanitize_ident conflict) cols

      nonempty : (l : List Text) → 1 ≤ length l → is_none l ≡ false
      nonempty [] h = absurd (omega arith)
      nonempty (x ∷ l) h = refl

      one : (l : List Text) → is_none l ≡ false → 1 ≤ length l
      one [] h = cc
      one (x ∷ l) h = omega arith

      suffices :
          (contains cols (sanitize_ident conflict) ≡ true) × (2 ≤ length cols)
          → (stmt : Text) × (upsert unmarshal t table_name headers payload conflict ≡ ok stmt)
      suffices (e, two) = upsert_updates e (
          nonempty u (omega (arith, length-updated (sanitize_ident conflict) cols cols-Distinct e)))

      needs :
          (stmt : Text) × (upsert unmarshal t table_name headers payload conflict ≡ ok stmt)
          → (contains cols (sanitize_ident conflict) ≡ true) × (2 ≤ length cols)
      needs (stmt, done) = elim (Bool-cases (contains cols (sanitize_ident conflict))) [
        | inr e ↦ absurd (cc (upsert_unknown e))
        | inl e ↦ elim (Bool-cases (is_none u)) [
          | inl f ↦ absurd (cc (upsert_alone e f))
          | inr f ↦ (
            e,
            omega (arith, one u f, length-updated (sanitize_ident conflict) cols cols-Distinct e),
          )
        ]
      ]
