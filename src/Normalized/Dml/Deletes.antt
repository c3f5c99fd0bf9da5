-- ===== src/Normalized/Dml/Deletes.antt =====
-- The deletes that collectDeletes adds are of tables of the model, within one document.
use schema_to_table.Prelude.{
  ℕ, ◌≡◌, refl, true, List, [], ◌∷◌, ◌++◌, All, All-append, inl, inr, Bool-cases,
}
use schema_to_table.Text.{Text}
use schema_to_table.Json.{Json, show}
use schema_to_table.Outcome.{Outcome}
use schema_to_table.Outcome.Laws.{Holds, Holds-bind, Holds-ok}
use schema_to_table.Schema.Types.{is_none}
use schema_to_table.Normalized.Model.{TableSpec, table, Forest, nil, cons}
use schema_to_table.Normalized.Dml.Listed.{Listed, Held}
use schema_to_table.Normalized.Dml.Loops.{over_array-Holds}
use schema_to_table.Normalized.Dml.{
  Stmt, delete_rows, navigate_path, over_array, collect_deletes, child_delete_stmt, fits,
}

-- A DELETE of a table of the model by its whole foreign key, whose first literal is `key`.
abbrev pub DeletesIn : List TableSpec → Text → Stmt → Type 0
DeletesIn tables key s =
    (child : TableSpec) × (rest : List Text) × Listed child tables
    × (fits child.fk_cols (key ∷ rest) ≡ true)
    × (s ≡ delete_rows child.name child.fk_cols (key ∷ rest))

module _ (tables : List TableSpec) where
  child_delete_stmt-DeletesIn :
      (child : TableSpec) (key : Text) (rest : List Text)
      → Listed child tables
      → All (DeletesIn tables key) (child_delete_stmt child (key ∷ rest))
  unfolding child_delete_stmt
  child_delete_stmt-DeletesIn child key rest l = elim (Bool-cases (is_none child.fk_cols)) [
    | inl e ↦ rw e tt
    | inr e ↦ elim (Bool-cases (fits child.fk_cols (key ∷ rest))) [
      | inl f ↦ rw (e, f) ((child, rest, l, f, refl), tt)
      | inr f ↦ rw (e, f) tt
    ]
  ]

  pub collect_deletes-DeletesIn :
      (ts : Forest) (subject : Json) (key : Text) (rest : List Text) (out : List Stmt)
      → Held tables ts
      → All (DeletesIn tables key) out
      → Holds (All (DeletesIn tables key)) (collect_deletes ts subject (key ∷ rest) out)
  unfolding collect_deletes
  collect_deletes-DeletesIn nil subject key rest out h p = p
  collect_deletes-DeletesIn (cons (table child ts) more) subject key rest out (l, h, k) p =
      Holds-bind P (over_array body child (navigate_path subject child.path) after out) _ λ out' e.
        collect_deletes-DeletesIn more subject key rest out' k (
          Holds-ok P _ out'
            (over_array-Holds P body
              (λ item i o q. collect_deletes-DeletesIn ts item key (rest ++ (show i ∷ [])) o h q)
              child (navigate_path subject child.path) after out
              (λ o q.
                All-append (DeletesIn tables key) o _ q
                  (child_delete_stmt-DeletesIn child key rest l))
              p)
            e)
    where
      P : List Stmt → Type 0
      P = All (DeletesIn tables key)

      body : Json → ℕ → List Stmt → Outcome (List Stmt)
      body item i o = collect_deletes ts item (key ∷ (rest ++ (show i ∷ []))) o

      after : List Stmt → List Stmt
      after o = o ++ child_delete_stmt child (key ∷ rest)
