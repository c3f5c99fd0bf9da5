-- ===== src/Normalized/Dml/Scope.antt =====
-- The statements of an upsert: deletes within the document, the root row, then the child rows.
use schema_to_table.Prelude.{
  ℕ, ◌≡◌, refl, sym, ◌∙◌, ap, Bool, true, false, not, ◌||◌, Option, none, some, List, [], ◌∷◌, ◌++◌,
  append_assoc, All, if◌then◌else◌,
}
use schema_to_table.Text.{Text, codes, is_empty}
use schema_to_table.Text.Equality.{same}
use schema_to_table.Schema.Names.{sanitize_ident}
use schema_to_table.Schema.Values.{Values}
use schema_to_table.Json.{Json}
use schema_to_table.Outcome.{
  Outcome, ok, err, invalid_data, nothing_to_update, pk_not_found, conflict_not_pk, ◌>>=◌,
}
use schema_to_table.Outcome.Laws.{Holds-ok, bind-eq-ok}
use schema_to_table.Schema.Types.{is_none}
use schema_to_table.Normalized.Model.{spec, arrays, names}
use schema_to_table.Schema.Node.{Document}
use schema_to_table.Normalized.Plan.{Model, plan}
use schema_to_table.Normalized.Dml.Key.{IsRooted, plan-IsRooted}
use schema_to_table.Normalized.Dml.Deletes.{DeletesIn, collect_deletes-DeletesIn}
use schema_to_table.Normalized.Dml.Inserts.{IsInsert, Adds, render_children-Adds}
use schema_to_table.Normalized.Dml.RootKey.{HasKey, root_literal-HasKey}
use schema_to_table.Normalized.Dml.{
  Stmt, upsert_row, collect_deletes, render_children, row_cells, cols, lits, updates,
  gather_row_values, root_literal, root_statements, insert_value, insert,
}

-- The row of the root, which has the document's key, between deletes and inserts.
pub record IsUpsert (m : Model) (unmarshal : Text → Option Json) (headers : List (Text × Text))
    (payload : Text) (stmts : List Stmt) : Type 0 where
  pub key : Text
  pub deletes : List Stmt
  pub inserts : List Stmt
  pub row : List (Text × Text)
  pub overwritten : List Text
  pub keyed : HasKey m unmarshal headers payload row key
  pub shape :
      stmts
      ≡ deletes
        ++ (upsert_row (spec m.tree).name (cols row) (lits row) (spec m.tree).pk overwritten
            ∷ inserts)
  pub within_document : All (DeletesIn m.tables key) deletes
  pub only_inserts : All IsInsert inserts

module _ (m : Model) (rooted : IsRooted m) where
  pub root_statements-upsert :
      (value : Json) (key : Text) (row : List (Text × Text)) (first : List Stmt)
      → root_statements m true value key row ≡ ok first
      → (deletes : List Stmt) × (overwritten : List Text) × (first
          ≡ deletes
            ++ (upsert_row (spec m.tree).name (cols row) (lits row) (spec m.tree).pk overwritten
                ∷ []))
        × All (DeletesIn m.tables key) deletes
  unfolding root_statements
  root_statements-upsert value key row first h =
      let over = updates (spec m.tree).pk (names (spec m.tree).columns) in
      let (deletes, e, f) =
        bind-eq-ok (collect_deletes (arrays m.tree) value (key ∷ []) []) _ first h in
      (
        deletes,
        over,
        sym (at_updates deletes (is_none over) f),
        Holds-ok (All (DeletesIn m.tables key)) _ deletes
            (collect_deletes-DeletesIn m.tables (arrays m.tree) value key [] [] rooted.held tt) e,
      )
    where
      stmts : List Stmt → List Stmt
      stmts deletes =
          deletes
          ++ (upsert_row (spec m.tree).name (cols row) (lits row) (spec m.tree).pk
                (updates (spec m.tree).pk (names (spec m.tree).columns))
              ∷ [])

      at_updates :
          (deletes : List Stmt) (b : Bool)
          → (if b then err (nothing_to_update) else ok (stmts deletes)) ≡ ok first
          → stmts deletes ≡ first
      at_updates deletes true e = cc
      at_updates deletes false e = cc

  -- The part of insert behind the test of the root's key.
  abbrev with_root : List (Text × Text) → Json → Values → Outcome (List Stmt)
  with_root headers value values = do
    first ←
        root_statements m true value (root_literal m values) (row_cells m (spec m.tree) values [] 0)
    render_children m (arrays m.tree) value (root_literal m values ∷ []) first

  module _ (unmarshal : Text → Option Json) (headers : List (Text × Text)) (payload : Text) where
    with_root-IsUpsert :
        (value : Json) (values : Values) (stmts : List Stmt)
        → HasKey m unmarshal headers payload
            (row_cells m (spec m.tree) values [] 0)
            (root_literal m values)
        → with_root headers value values ≡ ok stmts
        → IsUpsert m unmarshal headers payload stmts
    with_root-IsUpsert value values stmts keyed h =
        let key = root_literal m values in
        let row = row_cells m (spec m.tree) values [] 0 in
        let (first, e, f) = bind-eq-ok (root_statements m true value key row) _ stmts h in
        let (deletes, over, shape, within) = root_statements-upsert value key row first e in
        let (inserts, g, only) =
          Holds-ok (Adds first) _ stmts
            (render_children-Adds m (arrays m.tree) value (key ∷ []) first) f in
        record {
          key = key;
          deletes = deletes;
          inserts = inserts;
          row = row;
          overwritten = over;
          keyed = keyed;
          shape = g ∙ (ap (λ l. l ++ inserts) shape ∙ append_assoc deletes _ inserts);
          within_document = within;
          only_inserts = only;
        }

    insert_value-IsUpsert :
        (value : Json) (stmts : List Stmt)
        → unmarshal payload ≡ some value
        → insert_value m true headers value ≡ ok stmts
        → IsUpsert m unmarshal headers payload stmts
    unfolding insert_value
    insert_value-IsUpsert value stmts read h =
        let (values, gathered, h₁) =
          bind-eq-ok (gather_row_values m (spec m.tree) value headers) _ stmts h in
        at_key values gathered (is_empty (root_literal m values))
          (same (root_literal m values) (codes "NULL")) refl refl h₁
      where
        at_key :
            (values : Values)
            → gather_row_values m (spec m.tree) value headers ≡ ok values
            → (b c : Bool) → is_empty (root_literal m values) ≡ b
            → same (root_literal m values) (codes "NULL") ≡ c
            → (if b || c
                then err (pk_not_found (spec m.tree).pk)
                else with_root headers value values)
              ≡ ok stmts
            → IsUpsert m unmarshal headers payload stmts
        at_key values g true c d e f = absurd (cc f)
        at_key values g false true d e f = absurd (cc f)
        at_key values g false false d e f =
            with_root-IsUpsert value values stmts
              (root_literal-HasKey m rooted values (root_literal m values) refl d unmarshal headers
                payload value read g e)
              f

    upsert_lem :
        (conflict : Text) (stmts : List Stmt)
        → insert m unmarshal true headers payload conflict ≡ ok stmts
        → IsUpsert m unmarshal headers payload stmts
    unfolding insert
    upsert_lem conflict stmts h =
        at_conflict (not (same (sanitize_ident conflict) (spec m.tree).pk)) (unmarshal payload) refl
          h
      where
        at_conflict :
            (b : Bool) (o : Option Json)
            → unmarshal payload ≡ o
            → (if b then err (conflict_not_pk conflict) else elim o [
              | none ↦ err invalid_data
              | some value ↦ insert_value m true headers value
            ])
              ≡ ok stmts
            → IsUpsert m unmarshal headers payload stmts
        at_conflict true o r e = absurd (cc e)
        at_conflict false none r e = absurd (cc e)
        at_conflict false (some value) r e = insert_value-IsUpsert value stmts r e

-- The statements of an upsert for a model that Plan returned, if there are any: deletes, then the
-- root row, then inserts only. The root row is that of the payload; the literal in its column of the
-- primary key is the one gathered from the payload, and not NULL. Every delete is of a table of the
-- model by its whole foreign key, whose first literal is that of the root row's primary key.
pub insert-IsUpsert :
    (fuel : ℕ) (decode_schema : Text → Option Document) (schema_doc table_name pk : Text)
    (header_types : List (Text × Text)) (m : Model) (unmarshal : Text → Option Json)
    (headers : List (Text × Text)) (payload conflict : Text) (stmts : List Stmt)
    → plan fuel decode_schema schema_doc table_name pk header_types ≡ ok m
    → insert m unmarshal true headers payload conflict ≡ ok stmts
    → IsUpsert m unmarshal headers payload stmts
insert-IsUpsert fuel decode_schema schema_doc table_name pk header_types m unmarshal headers payload
      conflict stmts p h =
    upsert_lem m (plan-IsRooted fuel decode_schema schema_doc table_name pk header_types m p)
      unmarshal headers payload conflict stmts h
