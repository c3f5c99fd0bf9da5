-- ===== src/Normalized/Dml/References/Children.antt =====
-- The rows of the child tables refer to rows that are there.
use schema_to_table.Prelude.{
  ℕ, ◌≡◌, refl, sym, ◌∙◌, ap, inl, inr, some, List, [], ◌∷◌, ◌++◌, append-nil, arith, length,
  Bool-cases, All,
}
use schema_to_table.Prelude.{length-append, length-map}
use schema_to_table.Text.{Text, codes, is_empty}
use schema_to_table.Json.{Json, show}
use schema_to_table.Outcome.{Outcome, ◌>>=◌}
use schema_to_table.Outcome.Laws.{Holds, Holds-bind, Holds-ok}
use schema_to_table.Schema.Node.{deref}
use schema_to_table.Schema.Values.{Values}
use schema_to_table.Normalized.Model.{ParentKey, TableSpec, table, Forest, nil, cons, names}
use schema_to_table.Normalized.Plan.{Model, child_fk_cols}
use schema_to_table.Normalized.Model.{own_key}
use schema_to_table.Normalized.Dml.{
  Stmt, insert_row, navigate_path, over_array, child_cells, render_children, row_cells,
  column_cells, cols, lits, gather_row_values,
}
use schema_to_table.Normalized.Dml.Loops.{over_array-Holds}
use schema_to_table.Normalized.Dml.Key.{Under}
use schema_to_table.Normalized.Dml.Listed.{Listed, All-Listed, Held}
use schema_to_table.Normalized.Dml.Rows.{row_cells-columns}
use schema_to_table.Normalized.Plan.Shape.{RootOrRow}
use schema_to_table.Normalized.Ddl.{all_columns}
use schema_to_table.Normalized.Dml.References.{
  Row, Present, cells_with, Refers, Extends, Extends-trans, Extends-row, Extends-Holds,
}

length-child_key :
    (p : ParentKey) (key fks key_cols : List Text) (row_no lit : Text)
    → length key ≡ length p.key_cols
    → fks ≡ child_fk_cols p
    → key_cols ≡ fks ++ (row_no ∷ [])
    → length (key ++ (lit ∷ [])) ≡ length key_cols
unfolding child_fk_cols
length-child_key p key fks key_cols row_no lit h f g =
    let width : length fks ≡ length p.key_cols =
      ap length f ∙ length-map (λ k. p.name ++ (codes "_" ++ k)) p.key_cols in
    omega
      (arith, h, width, length-append key (lit ∷ []), length-append fks (row_no ∷ []), ap length g)

module _ (m : Model) (shaped : All RootOrRow m.tables) where
  row_cells-child :
      (child : TableSpec) (p : ParentKey) (values : Values) (key : List Text) (i : ℕ)
      → child.parent ≡ some p
      → row_cells m child values key i
        ≡ cells_with child key i
            (column_cells values (child.row_no_col ∷ child.fk_cols) child.columns)
  unfolding row_cells
  row_cells-child child p values key i e = rw e refl

  -- The cells of a child's row, one for every column of its table.
  abbrev HasCells : TableSpec → List Text → ℕ → List (Text × Text) → Type 0
  HasCells child key i cells =
      (more : List (Text × Text)) × (cells ≡ cells_with child key i more)
      × (cols cells ≡ names (all_columns m.headers child))

  row_cells-HasCells :
      (child : TableSpec) (p : ParentKey) (values : Values) (key : List Text) (i : ℕ)
      → child.parent ≡ some p
      → Listed child m.tables
      → HasCells child key i (row_cells m child values key i)
  row_cells-HasCells child p values key i e l = (
    _,
    row_cells-child child p values key i e,
    row_cells-columns m values key i child (All-Listed RootOrRow m.tables child shaped l),
  )

  child_cells-HasCells :
      (child : TableSpec) (p : ParentKey) (item : Json) (key : List Text) (i : ℕ)
      → child.parent ≡ some p
      → Listed child m.tables
      → Holds (HasCells child key i) (child_cells m child item key i)
  unfolding child_cells
  child_cells-HasCells child p item key i e l = elim (Bool-cases (is_empty child.value_col)) [
    | inl v ↦ rw v (
        Holds-bind (HasCells child key i) (gather_row_values m child item []) _
          λ values _. row_cells-HasCells child p values key i e l)
    | inr v ↦ rw v (
        Holds-bind (HasCells child key i) (deref m.doc child.schema) _
          λ n _. row_cells-HasCells child p _ key i e l)
  ]

  module _ (p : TableSpec) (listed : Listed p m.tables) (key : List Text) (present : List Row)
      (complete : length key ≡ length p.key_cols) (referred : Present (p.name, key) present) where
    insert-Refers :
        (child : TableSpec) (i : ℕ) (cells : List (Text × Text))
        → Listed child m.tables
        → child.parent ≡ some (own_key p)
        → child.fk_cols ≡ child_fk_cols (own_key p)
        → child.key_cols ≡ child.fk_cols ++ (child.row_no_col ∷ [])
        → HasCells child key i cells
        → Refers m present
            (insert_row child.name (cols cells) (lits cells))
            (child.name, key ++ (show i ∷ []))
    insert-Refers child i cells l e f g (more, h, all) = record {
      child = child;
      parent = p;
      key = key;
      row_no = i;
      more = more;
      child_listed = l;
      parent_listed = listed;
      is_insert = rw h refl;
      every_column = sym (ap cols h) ∙ all;
      of_parent = e;
      columns = f;
      key_columns = g;
      complete = complete;
      referred = referred;
      own_row = refl;
    }

  -- What renderChildren adds refers to rows that are present, if the parent's row is.
  pub render_children-Extends :
      (p : TableSpec) (ts : Forest) (subject : Json) (key : List Text) (present : List Row)
      (out : List Stmt)
      → Listed p m.tables
      → Held m.tables ts
      → Under p ts
      → length key ≡ length p.key_cols
      → Present (p.name, key) present
      → Holds (Extends m present out) (render_children m ts subject key out)
  unfolding render_children
  render_children-Extends p nil subject key present out lp held u l r =
      ([], sym (append-nil out), tt)
  render_children-Extends p (cons (table child ts) rest) subject key present out lp (lc, hc, hr)
        ((e, f, g), u, v) l r =
      Holds-bind (Extends m present out)
        (over_array body child (navigate_path subject child.path) (λ o. o) out) _
        λ out' h.
          Extends-Holds m present present out out' _
            (λ c. Extends-trans m present out out' c (
              Holds-ok (Extends m present out) _ out'
                (over_array-Holds (Extends m present out) body
                  (λ item i o q.
                    Holds-bind (Extends m present out) (child_cells m child item key i) _ λ cells c.
                      Extends-Holds m present (row i ∷ present) out (o ++ (stmt cells ∷ [])) _
                        (λ d w. Extends-trans m present out o d q (
                          Extends-row m present o d (stmt cells) (row i)
                            (insert-Refers p lp key present l r child i cells lc e f g (
                              Holds-ok (HasCells child key i) _ cells
                                (child_cells-HasCells child (own_key p) item key i e lc) c))
                            w))
                        (render_children-Extends child ts item (key ++ (show i ∷ []))
                          (row i ∷ present) (o ++ (stmt cells ∷ [])) lc hc u
                          (length-child_key (own_key p) key child.fk_cols child.key_cols
                            child.row_no_col (show i) l f g)
                          (inl refl)))
                  child (navigate_path subject child.path) (λ o. o) out (λ o q. q)
                  ([], sym (append-nil out), tt))
                h))
            (render_children-Extends p rest subject key present out' lp hr v l r)
    where
      row : ℕ → Row
      row i = (child.name, key ++ (show i ∷ []))

      stmt : List (Text × Text) → Stmt
      stmt cells = insert_row child.name (cols cells) (lits cells)

      body : Json → ℕ → List Stmt → Outcome (List Stmt)
      body item i o = child_cells m child item key i >>= λ cells.
          render_children m ts item (key ++ (show i ∷ [])) (o ++ (stmt cells ∷ []))
