-- ===== src/Cli/Headers/Keys.antt =====
-- The headers of a run have a type and a value each, and so a flat run inserts the columns that it
-- creates.
use schema_to_table.Prelude.{
  ◌≡◌, refl, ◌∙◌, Bool, true, false, ◌||◌, Option, none, some, List, [], ◌∷◌, arith, inl, inr,
  Bool-cases, if◌then◌else◌,
}
use schema_to_table.Text.{Text, codes, is_empty, trim_space}
use schema_to_table.Text.Split.{split, cut}
use schema_to_table.Text.Equality.{same, same_iff, contains, Distinct}
use schema_to_table.Maps.{keys, put, contains-keys-put, put-Distinct}
use schema_to_table.Json.{Json}
use schema_to_table.Outcome.{Error, Outcome, ok, err, wrap}
use schema_to_table.Outcome.Laws.{Holds, Holds-each, Holds-ok, Agree-ok, bind-eq-ok, wrap-eq-ok}
use schema_to_table.Schema.Names.{sorted_keys}
use schema_to_table.Schema.Names.Unique.{SameTexts, sorted_keys_unique}
use schema_to_table.Schema.Types.{Column}
use schema_to_table.Landing
use schema_to_table.Landing.{Table}
use schema_to_table.Landing.Names.{Namesakes, columns-Namesakes}
use schema_to_table.Landing.Statements.{render_values-IsRendering, sorted_keys-shim}
use schema_to_table.Cli.Helpers.{put_pair, parse_kv}
use schema_to_table.Cli.Headers.{StringMap, first_unmatched, fill_values, header_flags}

put_pair-Distinct :
    (pair : Text) (m : StringMap)
    → Distinct (keys m)
    → Holds (λ m. Distinct (keys m)) (put_pair pair m)
unfolding put_pair
put_pair-Distinct pair m d = at_cut (cut b'=' pair)
  where
    at_cut :
        (o : Option (Text × Text))
        → Holds
            (λ m. Distinct (keys m))
            (elim o [
              | none ↦ err (Error.invalid_pair pair)
              | some (k, v) ↦
                  if is_empty (trim_space k)
                  then err (Error.invalid_pair pair)
                  else ok (put (trim_space k) (trim_space v) m)
            ])
    at_cut none = tt
    at_cut (some (k, v)) = elim (Bool-cases (is_empty (trim_space k))) [
      | inl e ↦ rw e tt
      | inr e ↦ rw e (put-Distinct (trim_space k) (trim_space v) m d)
    ]

parse_kv-Distinct : (s : Text) (m : StringMap) → parse_kv s ≡ ok m → Distinct (keys m)
parse_kv-Distinct s m h = Holds-ok (λ m. Distinct (keys m)) (parse_kv s) m holds h
  where
    holds : Holds (λ m. Distinct (keys m)) (parse_kv s)
    holds =
        unfold parse_kv in
        elim (Bool-cases (is_empty (trim_space s))) [
          | inl e ↦ rw e tt
          | inr e ↦ rw e (
              Holds-each (λ m. Distinct (keys m)) put_pair put_pair-Distinct
                (split b',' (trim_space s)) [] tt)
        ]

fill_values-Distinct :
    (ks : List Text) (m : StringMap) → Distinct (keys m) → Distinct (keys (fill_values ks m))
unfolding fill_values
fill_values-Distinct [] m d = d
fill_values-Distinct (k ∷ ks) m d = fill_values-Distinct ks _ (kept (contains (keys m) k))
  where
    kept : (b : Bool) → Distinct (keys (if b then m else put k [] m))
    kept true = d
    kept false = put-Distinct k [] m d

contains-fill_values :
    (ks : List Text) (m : StringMap) (j : Text)
    → contains (keys (fill_values ks m)) j ≡ (contains ks j || contains (keys m) j)
unfolding fill_values contains
contains-fill_values [] m j = refl
contains-fill_values (k ∷ ks) m j = elim (Bool-cases (contains (keys m) k)) [
  | inl e ↦ rw (e, contains-fill_values ks m j) (ground (arith, same_iff k j))
  | inr e ↦
      rw (e, contains-fill_values ks (put k [] m) j, contains-keys-put k j [] m) (ground arith)
]

first_unmatched-none :
    (types : StringMap) (ks : List Text) (j : Text)
    → first_unmatched types ks ≡ none
    → contains ks j ≡ true
    → contains (keys types) j ≡ true
unfolding first_unmatched contains
first_unmatched-none types [] j h m = cc m
first_unmatched-none types (k ∷ ks) j h m =
    ground (arith, first_unmatched-none types ks j, same_iff k j)

-- The types and the values of the headers of a run.
record IsFlags (mode headers header_values : Text) (types values : StringMap) : Type 0 where
  pub given : StringMap
  pub typed : parse_kv headers ≡ ok types
  pub valued : parse_kv header_values ≡ ok given
  pub matched : first_unmatched types (keys given) ≡ none
  pub filled :
      values ≡ (if same mode (codes "create") then given else fill_values (keys types) given)

header_flags-IsFlags :
    (mode headers header_values : Text) (types values : StringMap)
    → header_flags mode headers header_values ≡ ok (types, values)
    → IsFlags mode headers header_values types values
unfolding header_flags
header_flags-IsFlags mode headers header_values types values h =
    let (types', t, h₁) = bind-eq-ok (wrap (codes "-headers") (parse_kv headers)) _ _ h in
    let (given, v, h₂) =
      bind-eq-ok (wrap (codes "-header-values") (parse_kv header_values)) _ _ h₁ in
    matched types' given (wrap-eq-ok _ _ types' t) (wrap-eq-ok _ _ given v)
      (first_unmatched types' (keys given)) refl h₂
  where
    matched :
        (types' given : StringMap)
        → parse_kv headers ≡ ok types'
        → parse_kv header_values ≡ ok given
        → (o : Option Text) → first_unmatched types' (keys given) ≡ o
        → ◌≡◌ {A = Outcome (StringMap × StringMap)}
            (elim o [
              | some k ↦ err (Error.unmatched_header k)
              | none ↦ ok (
                types',
                if same mode (codes "create") then given else fill_values (keys types') given,
              )
            ])
            (ok (types, values))
        → IsFlags mode headers header_values types values
    matched types' given t v none m e = record {
      given = given;
      typed = cc (e, t);
      valued = v;
      matched = cc (e, m);
      filled = cc e;
    }
    matched types' given t v (some k) m e = cc e

-- The types and the values of a run that does not only create have the same keys.
header_flags-SameTexts :
    (mode headers header_values : Text) (types values : StringMap)
    → header_flags mode headers header_values ≡ ok (types, values)
    → same mode (codes "create") ≡ false
    → SameTexts (keys values) (keys types)
header_flags-SameTexts mode headers header_values types values h e =
    let f = header_flags-IsFlags mode headers header_values types values h in
    λ k.
      rw (f.filled, e, contains-fill_values (keys types) f.given k)
        (covered _ _ (first_unmatched-none types (keys f.given) k f.matched))
  where
    covered : (a b : Bool) → (b ≡ true → a ≡ true) → (a || b) ≡ a
    covered true b g = refl
    covered false b g = ground arith

header_flags-Distinct :
    (mode headers header_values : Text) (types values : StringMap)
    → header_flags mode headers header_values ≡ ok (types, values)
    → Distinct (keys types) × Distinct (keys values)
header_flags-Distinct mode headers header_values types values h =
    let f = header_flags-IsFlags mode headers header_values types values h in
    let d = parse_kv-Distinct header_values f.given f.valued in
    (parse_kv-Distinct headers types f.typed, rw f.filled (either f.given types d))
  where
    either :
        (given types : StringMap)
        → Distinct (keys given)
        → Distinct
            (keys (if same mode (codes "create") then given else fill_values (keys types) given))
    either given types d = elim (Bool-cases (same mode (codes "create"))) [
      | inl c ↦ rw c d
      | inr c ↦ rw c (fill_values-Distinct (keys types) given d)
    ]

-- If the headers of a run in another mode than create are read, then the columns that CREATE TABLE
-- takes from the header types and the columns that INSERT and UPSERT name, which come from the header
-- values, are the same columns in the same order, for every payload that renders.
pub header_flags-render_values :
    (unmarshal : Text → Option Json) (t : Table) (mode headers header_values : Text)
    (types values : StringMap) (created : List Column) (payload : Text) (cols lits : List Text)
    → header_flags mode headers header_values ≡ ok (types, values)
    → same mode (codes "create") ≡ false
    → Landing.columns t types ≡ ok created
    → Landing.render_values unmarshal t values payload ≡ ok (cols, lits)
    → cols ≡ Landing.names created
header_flags-render_values unmarshal t mode headers header_values types values created payload cols
      lits h e c r =
    let i = render_values-IsRendering unmarshal t values payload cols lits r in
    let (dt, dv) = header_flags-Distinct mode headers header_values types values h in
    let s =
      sorted_keys_unique values types dv dt
        (header_flags-SameTexts mode headers header_values types values h e) in
    i.cols_planned
    ∙ Agree-ok Namesakes _ _ i.planned created
        (columns-Namesakes t (Landing.header_type_shim (sorted_keys values)) types
          (sorted_keys-shim values ∙ s))
        i.plan c
