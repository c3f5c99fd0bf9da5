-- ===== src/Normalized/Dml/Loops.antt =====
-- What the loops over the items of an array keep.
use schema_to_table.Prelude.{ℕ, suc, List, [], ◌∷◌}
use schema_to_table.Json.{Json, null, arr, items_list}
use schema_to_table.Outcome.{Outcome}
use schema_to_table.Outcome.Laws.{Holds, Holds-bind, Holds-ok}
use schema_to_table.Normalized.Model.{TableSpec}
use schema_to_table.Normalized.Dml.{Stmt, over_items, over_array}

module _ (P : List Stmt → Type 0) (body : Json → ℕ → List Stmt → Outcome (List Stmt))
    (h : (item : Json) (i : ℕ) (out : List Stmt) → P out → Holds P (body item i out)) where
  over_items-Holds :
      (items : List Json) (i : ℕ) (out : List Stmt) → P out → Holds P (over_items body items i out)
  unfolding over_items
  over_items-Holds [] i out p = p
  over_items-Holds (x ∷ items) i out p =
      Holds-bind P (body x (suc i) out) _
        λ out' e. over_items-Holds items (suc i) out' (Holds-ok P _ out' (h x (suc i) out p) e)

  pub over_array-Holds :
      (child : TableSpec) (v : Json) (after : List Stmt → List Stmt) (out : List Stmt)
      → ((o : List Stmt) → P o → P (after o))
      → P out
      → Holds P (over_array body child v after out)
  unfolding over_array
  over_array-Holds child null after out k p = p
  over_array-Holds child (arr xs) after out k p =
      Holds-bind P (over_items body (items_list xs) 0 out) _
        λ o e. k o (Holds-ok P _ o (over_items-Holds (items_list xs) 0 out p) e)
  over_array-Holds child _ after out k p = tt
