-- ===== src/Normalized/Dml/References/Payload.antt =====
-- What InsertStatements and UpsertStatements insert for a document: the root row and what refers to it.
use schema_to_table.Prelude.{◌≡◌, Bool, true, false, Option, List, [], ◌∷◌, ◌++◌, All}
use schema_to_table.Text.{Text}
use schema_to_table.Json.{Json}
use schema_to_table.Outcome.{Outcome, ◌>>=◌}
use schema_to_table.Schema.Values.{Values}
use schema_to_table.Normalized.Model.{spec, arrays}
use schema_to_table.Normalized.Plan.{Model}
use schema_to_table.Normalized.Dml.{
  Stmt, insert_row, upsert_row, render_children, row_cells, cols, lits, root_literal,
  root_statements,
}
use schema_to_table.Normalized.Dml.Key.{IsRooted}
use schema_to_table.Normalized.Dml.RootKey.{HasKey}
use schema_to_table.Normalized.Dml.Deletes.{DeletesIn}
use schema_to_table.Normalized.Dml.References.{Referring}

-- The statement of the root row and what stands before it: a plain insert and nothing, or an upsert.
abbrev pub IsRoot : Model → Bool → List (Text × Text) → List Stmt → Stmt → Type 0
IsRoot m false row deletes root =
    (root ≡ insert_row (spec m.tree).name (cols row) (lits row)) × (deletes ≡ [])
IsRoot m true row deletes root =
    (overwritten : List Text) × (root
      ≡ upsert_row (spec m.tree).name (cols row) (lits row) (spec m.tree).pk overwritten)

-- The statements of a document: deletes, the root row, and the rows of the arrays.
pub record IsReferenced (m : Model) (upsert : Bool) (unmarshal : Text → Option Json)
    (headers : List (Text × Text)) (payload : Text) (stmts : List Stmt) : Type 0 where
  pub deletes : List Stmt
  pub row : List (Text × Text)
  pub root : Stmt
  pub rows : List Stmt
  pub key : Text
  pub shape : stmts ≡ deletes ++ (root ∷ rows)
  pub is_root : IsRoot m upsert row deletes root
  pub key_columns : (spec m.tree).key_cols ≡ (spec m.tree).pk ∷ []
  pub keyed : HasKey m unmarshal headers payload row key
  pub within_document : All (DeletesIn m.tables key) deletes
  pub referring : Referring m (((spec m.tree).name, key ∷ []) ∷ []) rows

module _ (m : Model) (rooted : IsRooted m) (upsert : Bool) where
  abbrev with_root : Json → Values → Outcome (List Stmt)
  with_root value values = do
    first ←
        root_statements m upsert value (root_literal m values)
          (row_cells m (spec m.tree) values [] 0)
    render_children m (arrays m.tree) value (root_literal m values ∷ []) first
