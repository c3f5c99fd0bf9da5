-- ===== src/Normalized/Dml/Total.antt =====
-- Rendering the statements of a document ends.
use schema_to_table.Prelude.{
  ℕ, suc, Bool, true, false, not, ◌&&◌, ◌||◌, Option, none, some, List, [], ◌∷◌, ◌++◌, arith, inl,
  inr, Bool-cases, if◌then◌else◌,
}
use schema_to_table.Text.{Text, codes, is_empty}
use schema_to_table.Text.Equality.{same}
use schema_to_table.Schema.Names.{sanitize_ident}
use schema_to_table.Json.{Json, null, arr, items_list, show}
use schema_to_table.Outcome.{Outcome, err, invalid_data, ◌>>=◌}
use schema_to_table.Outcome.Laws.{Ends, Ends-bind}
use schema_to_table.Schema.Types.{is_nil}
use schema_to_table.Schema.Values.Visits.{deref-Ends}
use schema_to_table.Schema.Values.Total.{collect_values_total}
use schema_to_table.Landing.{walk_fuel}
use schema_to_table.Normalized.Model.{TableSpec, table, Forest, nil, cons, spec, arrays}
use schema_to_table.Normalized.Plan.{Model}
use schema_to_table.Normalized.Dml.{
  Stmt, navigate_path, header_values, gather_row_values, over_items, over_array, collect_deletes,
  child_delete_stmt, child_cells, render_children, row_cells, cols, lits, insert_row,
  root_statements, insert_value, insert, root_literal,
}

module _ (body : Json → ℕ → List Stmt → Outcome (List Stmt))
    (h : (item : Json) (i : ℕ) (out : List Stmt) → Ends (body item i out)) where
  over_items-Ends :
      (items : List Json) (i : ℕ) (out : List Stmt) → Ends (over_items body items i out)
  unfolding over_items
  over_items-Ends [] i out = tt
  over_items-Ends (x ∷ items) i out =
      Ends-bind (body x (suc i) out) _ (h x (suc i) out)
        λ out' _. over_items-Ends items (suc i) out'

  over_array-Ends :
      (child : TableSpec) (v : Json) (after : List Stmt → List Stmt) (out : List Stmt)
      → Ends (over_array body child v after out)
  unfolding over_array
  over_array-Ends child null after out = tt
  over_array-Ends child (arr xs) after out =
      Ends-bind (over_items body (items_list xs) 0 out) _ (over_items-Ends (items_list xs) 0 out)
        λ _ _. tt
  over_array-Ends child _ after out = tt

collect_deletes-Ends :
    (ts : Forest) (subject : Json) (parent_key : List Text) (out : List Stmt)
    → Ends (collect_deletes ts subject parent_key out)
unfolding collect_deletes
collect_deletes-Ends nil subject parent_key out = tt
collect_deletes-Ends (cons (table child ts) rest) subject parent_key out =
    Ends-bind
      (over_array body child (navigate_path subject child.path)
        (λ o. o ++ child_delete_stmt child parent_key) out)
      _
      (over_array-Ends body
        (λ item i o. collect_deletes-Ends ts item (parent_key ++ (show i ∷ [])) o) child
        (navigate_path subject child.path) _ out)
      λ out' _. collect_deletes-Ends rest subject parent_key out'
  where
    body : Json → ℕ → List Stmt → Outcome (List Stmt)
    body item i o = collect_deletes ts item (parent_key ++ (show i ∷ [])) o

module _ (m : Model) where
  gather_row_values-Ends :
      (t : TableSpec) (value : Json) (headers : List (Text × Text))
      → Ends (gather_row_values m t value headers)
  unfolding gather_row_values walk_fuel
  gather_row_values-Ends t value headers = ground (
    arith,
    collect_values_total m.doc (codes "TEXT") [] t.schema value
        (if is_nil t.parent then header_values headers [] else []),
  )

  child_cells-Ends :
      (child : TableSpec) (item : Json) (parent_key : List Text) (i : ℕ)
      → Ends (child_cells m child item parent_key i)
  unfolding child_cells
  child_cells-Ends child item parent_key i = elim (Bool-cases (is_empty child.value_col)) [
    | inl e ↦ rw e (
        Ends-bind (gather_row_values m child item []) _ (gather_row_values-Ends child item [])
          λ _ _. tt)
    | inr e ↦ rw e (Ends-bind _ _ (deref-Ends m.doc child.schema) λ _ _. tt)
  ]

  render_children-Ends :
      (ts : Forest) (subject : Json) (parent_key : List Text) (out : List Stmt)
      → Ends (render_children m ts subject parent_key out)
  unfolding render_children
  render_children-Ends nil subject parent_key out = tt
  render_children-Ends (cons (table child ts) rest) subject parent_key out =
      Ends-bind (over_array body child (navigate_path subject child.path) (λ o. o) out) _
        (over_array-Ends body
          (λ item i o.
            Ends-bind (child_cells m child item parent_key i) _
              (child_cells-Ends child item parent_key i)
              λ cells _. render_children-Ends ts item (parent_key ++ (show i ∷ [])) _)
          child (navigate_path subject child.path) (λ o. o) out)
        λ out' _. render_children-Ends rest subject parent_key out'
    where
      body : Json → ℕ → List Stmt → Outcome (List Stmt)
      body item i o = child_cells m child item parent_key i >>= λ cells.
          render_children m ts item (parent_key ++ (show i ∷ []))
            (o ++ (insert_row child.name (cols cells) (lits cells) ∷ []))

  root_statements-Ends :
      (upsert : Bool) (value : Json) (key : Text) (cells : List (Text × Text))
      → Ends (root_statements m upsert value key cells)
  unfolding root_statements
  root_statements-Ends false value key cells = tt
  root_statements-Ends true value key cells =
      Ends-bind (collect_deletes (arrays m.tree) value (key ∷ []) []) _
        (collect_deletes-Ends (arrays m.tree) value (key ∷ []) []) λ deletes _. ground arith

  insert_value-Ends :
      (upsert : Bool) (headers : List (Text × Text)) (value : Json)
      → Ends (insert_value m upsert headers value)
  unfolding insert_value
  insert_value-Ends upsert headers value =
      Ends-bind (gather_row_values m (spec m.tree) value headers) _
        (gather_row_values-Ends (spec m.tree) value headers)
        λ values _.
          elim (Bool-cases
            (is_empty (root_literal m values) || same (root_literal m values) (codes "NULL"))) [
              | inl e ↦ rw e tt
              | inr e ↦ rw e (
                  Ends-bind
                    (root_statements m upsert value (root_literal m values)
                      (row_cells m (spec m.tree) values [] 0))
                    _
                    (root_statements-Ends upsert value (root_literal m values)
                      (row_cells m (spec m.tree) values [] 0))
                    λ first _.
                      render_children-Ends (arrays m.tree) value (root_literal m values ∷ []) first)
            ]

  -- InsertStatements and UpsertStatements end for every model and every payload, also where the
  -- schema's references form a cycle.
  pub insert_total :
      (unmarshal : Text → Option Json) (upsert : Bool) (headers : List (Text × Text))
      (payload conflict : Text)
      → Ends (insert m unmarshal upsert headers payload conflict)
  unfolding insert
  insert_total unmarshal upsert headers payload conflict =
      elim (Bool-cases (upsert && not (same (sanitize_ident conflict) (spec m.tree).pk))) [
        | inl e ↦ rw e tt
        | inr e ↦ rw e (decoded (unmarshal payload))
      ]
    where
      decoded :
          (o : Option Json)
          → Ends {A = List Stmt} (elim o [
            | none ↦ err invalid_data
            | some value ↦ insert_value m upsert headers value
          ])
      decoded none = tt
      decoded (some value) = insert_value-Ends upsert headers value
