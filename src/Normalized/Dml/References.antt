-- ===== src/Normalized/Dml/References.antt =====
-- The rows that a document's statements insert, and the rows that their foreign keys refer to.
pub mod Children
pub mod Payload
use schema_to_table.Prelude.{
  ℕ, suc, ◌+◌, ◌≡◌, refl, sym, ◌∙◌, ap, ◌⊎◌, ◌||◌, not, inl, inr, Bool, true, false, Option, none,
  some, List, [], ◌∷◌, ◌++◌, append_assoc, append-nil, All, arith, length, map, Bool-cases,
  if◌then◌else◌,
}
use schema_to_table.Prelude.{length-append}
use schema_to_table.Text.{Text, codes, is_empty}
use schema_to_table.Text.Equality.{same, contains}
use schema_to_table.Maps.{lookup}
use schema_to_table.Json.{Json, null, arr, items_list, show}
use schema_to_table.Outcome.{Outcome, ok, err, panic, diverge, ◌>>=◌}
use schema_to_table.Outcome.Laws.{Holds, Holds-bind, Holds-ok, bind-eq-ok}
use schema_to_table.Schema.Node.{Document, deref}
use schema_to_table.Schema.Types.{is_nil, primary_type}
use schema_to_table.Schema.Values.{Values, format_literal}
use schema_to_table.Normalized.Model.{
  ParentKey, TableSpec, Tree, table, Forest, nil, cons, spec, arrays, names,
}
use schema_to_table.Normalized.Plan.{Model, plan, child_fk_cols}
use schema_to_table.Normalized.Model.{own_key}
use schema_to_table.Normalized.Dml.{
  Stmt, insert_row, upsert_row, delete_rows, navigate_path, over_items, over_array, child_cells,
  render_children, row_cells, fk_cells, column_cells, cols, lits, gather_row_values, root_literal,
  root_statements, insert_value, insert,
}
use schema_to_table.Normalized.Dml.Loops.{over_array-Holds}
use schema_to_table.Normalized.Dml.Key.{Under}
use schema_to_table.Normalized.Dml.Listed.{Listed}
use schema_to_table.Normalized.Ddl.{all_columns}

-- A row: its table's name and the literals of its key.
abbrev pub Row : Type 0
Row = Text × List Text

abbrev pub Present : Row → List Row → Type 0
Present r [] = ⊥
Present r (q ∷ rows) = (r ≡ q) ⊎ Present r rows

-- The cells of a child's row with a foreign key of the literals.
abbrev pub cells_with : TableSpec → List Text → ℕ → List (Text × Text) → List (Text × Text)
cells_with child key i more = fk_cells child.fk_cols key ++ ((child.row_no_col, show i) ∷ more)

abbrev Within : List Row → List Row → Type 0
Within l m = (r : Row) → Present r l → Present r m

Within-cons : (q : Row) (l m : List Row) → Within l m → Within (q ∷ l) (q ∷ m)
Within-cons q l m h r (inl e) = inl e
Within-cons q l m h r (inr p) = inr (h r p)

module _ (m : Model) where
  -- The statement inserts a row of a child table, with a cell for every column of it. Its foreign key
  -- has the whole key of a row that is present in the parent table, a literal for every column of
  -- it; its own key is that and the row number. Both tables are tables of the model.
  pub record Refers (present : List Row) (stmt : Stmt) (row : Row) : Type 0 where
    pub child : TableSpec
    pub parent : TableSpec
    pub key : List Text
    pub row_no : ℕ
    pub more : List (Text × Text)
    pub child_listed : Listed child m.tables
    pub parent_listed : Listed parent m.tables
    pub is_insert :
        stmt
        ≡ insert_row child.name
            (cols (cells_with child key row_no more))
            (lits (cells_with child key row_no more))
    pub every_column : cols (cells_with child key row_no more) ≡ names (all_columns m.headers child)
    pub of_parent : child.parent ≡ some (own_key parent)
    pub columns : child.fk_cols ≡ child_fk_cols (own_key parent)
    pub key_columns : child.key_cols ≡ child.fk_cols ++ (child.row_no_col ∷ [])
    pub complete : length key ≡ length parent.key_cols
    pub referred : Present (parent.name, key) present
    pub own_row : row ≡ (child.name, key ++ (show row_no ∷ []))

  -- Every statement inserts a row that refers to one that is present or inserted before.
  abbrev pub Referring : List Row → List Stmt → Type 0
  Referring present [] = Unit
  Referring present (s ∷ stmts) =
      (row : Row) × Refers present s row × Referring (row ∷ present) stmts

  Refers-mono :
      (l l' : List Row) (s : Stmt) (row : Row) → Within l l' → Refers l s row → Refers l' s row
  Refers-mono l l' s row h r = record {
    child = r.child;
    parent = r.parent;
    key = r.key;
    row_no = r.row_no;
    more = r.more;
    child_listed = r.child_listed;
    parent_listed = r.parent_listed;
    every_column = r.every_column;
    is_insert = r.is_insert;
    of_parent = r.of_parent;
    columns = r.columns;
    key_columns = r.key_columns;
    complete = r.complete;
    referred = h (r.parent.name, r.key) r.referred;
    own_row = r.own_row;
  }

  Referring-mono :
      (l l' : List Row) (stmts : List Stmt) → Within l l' → Referring l stmts → Referring l' stmts
  Referring-mono l l' [] h f = tt
  Referring-mono l l' (s ∷ stmts) h (row, r, f) = (
    row,
    Refers-mono l l' s row h r,
    Referring-mono (row ∷ l) (row ∷ l') stmts (Within-cons row l l' h) f,
  )

  Referring-append :
      (present : List Row) (xs ys : List Stmt)
      → Referring present xs
      → Referring present ys
      → Referring present (xs ++ ys)
  Referring-append present [] ys f g = g
  Referring-append present (s ∷ xs) ys (row, r, f) g = (
    row,
    r,
    Referring-append (row ∷ present) xs ys f
        (Referring-mono present (row ∷ present) ys (λ q p. inr p) g),
  )

  -- What is added to the statements refers to rows that are present.
  abbrev pub Extends : List Row → List Stmt → List Stmt → Type 0
  Extends present out o = (more : List Stmt) × (o ≡ out ++ more) × Referring present more

  pub Extends-trans :
      (present : List Row) (a b c : List Stmt)
      → Extends present a b
      → Extends present b c
      → Extends present a c
  Extends-trans present a b c (more, e, h) (further, f, k) = (
    more ++ further,
    rw (f, e) (append_assoc a more further),
    Referring-append present more further h k,
  )

  -- A statement and what refers to its row too.
  pub Extends-row :
      (present : List Row) (a c : List Stmt) (s : Stmt) (row : Row)
      → Refers present s row
      → Extends (row ∷ present) (a ++ (s ∷ [])) c
      → Extends present a c
  Extends-row present a c s row r (more, e, h) =
      (s ∷ more, e ∙ append_assoc a (s ∷ []) more, (row, r, h))

  pub Extends-Holds :
      (p q : List Row) (a b : List Stmt) (n : Outcome (List Stmt))
      → ((c : List Stmt) → Extends q b c → Extends p a c)
      → Holds (Extends q b) n
      → Holds (Extends p a) n
  Extends-Holds p q a b (ok c) f r = f c r
  Extends-Holds p q a b (err e) f r = tt
  Extends-Holds p q a b panic f r = tt
  Extends-Holds p q a b diverge f r = tt
