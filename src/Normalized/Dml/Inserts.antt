-- ===== src/Normalized/Dml/Inserts.antt =====
-- renderChildren adds inserts only.
use schema_to_table.Prelude.{
  ℕ, ◌≡◌, refl, sym, List, [], ◌∷◌, ◌++◌, append_assoc, append-nil, All, All-append,
}
use schema_to_table.Text.{Text}
use schema_to_table.Json.{Json, show}
use schema_to_table.Outcome.{Outcome, ok, err, panic, diverge, ◌>>=◌}
use schema_to_table.Outcome.Laws.{Holds, Holds-bind, Holds-ok}
use schema_to_table.Normalized.Model.{TableSpec, table, Forest, nil, cons}
use schema_to_table.Normalized.Plan.{Model}
use schema_to_table.Normalized.Dml.Loops.{over_array-Holds}
use schema_to_table.Normalized.Dml.{
  Stmt, insert_row, navigate_path, over_array, child_cells, render_children, cols, lits,
}

abbrev pub IsInsert : Stmt → Type 0
IsInsert (insert_row name cs ls) = Unit
IsInsert _ = ⊥

-- Only inserts are added.
abbrev pub Adds : List Stmt → List Stmt → Type 0
Adds out o = (more : List Stmt) × (o ≡ out ++ more) × All IsInsert more

Adds-trans : (a b c : List Stmt) → Adds a b → Adds b c → Adds a c
Adds-trans a b c (more, e, h) (further, f, k) =
    (more ++ further, rw (f, e) (append_assoc a more further), All-append IsInsert more further h k)

Adds-Holds :
    (a b : List Stmt) (n : Outcome (List Stmt)) → Adds a b → Holds (Adds b) n → Holds (Adds a) n
Adds-Holds a b (ok c) q r = Adds-trans a b c q r
Adds-Holds a b (err e) q r = tt
Adds-Holds a b panic q r = tt
Adds-Holds a b diverge q r = tt

module _ (m : Model) (child : TableSpec) (ts : Forest) (parent_key : List Text) where
  -- What renderChildren does for one item.
  abbrev pub row_body : Json → ℕ → List Stmt → Outcome (List Stmt)
  row_body item i o = child_cells m child item parent_key i >>= λ cells.
      render_children m ts item (parent_key ++ (show i ∷ []))
        (o ++ (insert_row child.name (cols cells) (lits cells) ∷ []))

  row_body-Adds :
      ((item : Json) (key : List Text) (o : List Stmt)
        → Holds (Adds o) (render_children m ts item key o))
      → (out : List Stmt) (item : Json) (i : ℕ) (o : List Stmt) → Adds out o
      → Holds (Adds out) (row_body item i o)
  row_body-Adds below out item i o q =
      Holds-bind (Adds out) (child_cells m child item parent_key i) _ λ cells _.
        Adds-Holds out _ _
          (Adds-trans out o _ q
            (insert_row child.name (cols cells) (lits cells) ∷ [], refl, (tt, tt)))
          (below item (parent_key ++ (show i ∷ [])) _)

pub render_children-Adds :
    (m : Model) (ts : Forest) (subject : Json) (parent_key : List Text) (out : List Stmt)
    → Holds (Adds out) (render_children m ts subject parent_key out)
unfolding render_children
render_children-Adds m nil subject parent_key out = ([], sym (append-nil out), tt)
render_children-Adds m (cons (table child ts) rest) subject parent_key out =
    Holds-bind (Adds out)
      (over_array (row_body m child ts parent_key) child (navigate_path subject child.path) (λ o. o)
        out)
      _
      λ out' e.
        Adds-Holds out out' _
          (Holds-ok (Adds out) _ out'
            (over_array-Holds (Adds out) (row_body m child ts parent_key)
              (row_body-Adds m child ts parent_key
                (λ item key o. render_children-Adds m ts item key o) out)
              child (navigate_path subject child.path) (λ o. o) out (λ o q. q)
              ([], sym (append-nil out), tt))
            e)
          (render_children-Adds m rest subject parent_key out')
