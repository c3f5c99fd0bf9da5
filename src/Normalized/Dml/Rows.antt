-- ===== src/Normalized/Dml/Rows.antt =====
-- The columns of an INSERT are those of the CREATE TABLE of its table, in the same order.
use schema_to_table.Prelude.{
  ℕ, ◌≡◌, refl, ◌∙◌, inl, inr, true, false, Option, none, some, List, [], ◌∷◌, ◌++◌, length, All,
  arith, Bool-cases, ap,
}
use mathlib.Core.List.{map-append}
use schema_to_table.Text.{Text, codes}
use schema_to_table.Text.Equality.{same_refl, contains}
use schema_to_table.Schema.Values.{Values}
use schema_to_table.Schema.Types.{Column, is_nil}
use schema_to_table.Schema.Node.{Document}
use schema_to_table.Json.{show}
use schema_to_table.Outcome.{ok}
use schema_to_table.Normalized.Model.{TableSpec, names}
use schema_to_table.Normalized.Plan.{Model, plan, zip_columns}
use schema_to_table.Normalized.Plan.Shape.{
  Free, IsRow, RootOrRow, names-append, names-zip_columns, plan-IsRow, RootThenRows-RootOrRow,
}
use schema_to_table.Normalized.Ddl.{header_columns, all_columns}
use schema_to_table.Normalized.Dml.{cols, header_cells, fk_cells, column_cells, row_cells}

cols-append : (a b : List (Text × Text)) → cols (a ++ b) ≡ cols a ++ cols b
cols-append a b = map-append (λ c. c.0) a b

cols-header_cells :
    (headers : List (Text × Text)) (values : Values) (ks : List Text)
    → cols (header_cells values ks) ≡ names (header_columns headers ks)
unfolding header_cells header_columns
cols-header_cells headers values [] = refl
cols-header_cells headers values (k ∷ ks) = rw (cols-header_cells headers values ks)

cols-fk_cells : (fs lits : List Text) → cols (fk_cells fs lits) ≡ fs
unfolding fk_cells
cols-fk_cells [] lits = refl
cols-fk_cells (f ∷ fs) [] = rw (cols-fk_cells fs [])
cols-fk_cells (f ∷ fs) (lit ∷ lits) = rw (cols-fk_cells fs lits)

cols-column_cells :
    (values : Values) (taken : List Text) (l : List Column)
    → All (Free taken) l
    → cols (column_cells values taken l) ≡ names l
unfolding column_cells
cols-column_cells values taken [] h = refl
cols-column_cells values taken (c ∷ l) (f, h) = rw (f, cols-column_cells values taken l h)

Free-nil : (l : List Column) → All (Free []) l
unfolding contains
Free-nil [] = tt
Free-nil (c ∷ l) = (refl, Free-nil l)

-- The columns whose names are taken have no cell.
abbrev Taken : List Text → Column → Type 0
Taken taken c = contains taken c.name ≡ true

column_cells-Taken :
    (values : Values) (taken : List Text) (xs ys : List Column)
    → All (Taken taken) xs
    → column_cells values taken (xs ++ ys) ≡ column_cells values taken ys
unfolding column_cells
column_cells-Taken values taken [] ys h = refl
column_cells-Taken values taken (c ∷ xs) ys (f, h) = rw f (column_cells-Taken values taken xs ys h)

Taken-cons :
    (k : Text) (taken : List Text) (l : List Column)
    → All (Taken taken) l
    → All (Taken (k ∷ taken)) l
unfolding contains
Taken-cons k taken [] h = tt
Taken-cons k taken (c ∷ l) (f, h) = (ground arith, Taken-cons k taken l h)

Taken-zip : (fs ts : List Text) → All (Taken fs) (zip_columns fs ts)
unfolding zip_columns contains
Taken-zip [] ts = tt
Taken-zip (f ∷ fs) [] = tt
Taken-zip (f ∷ fs) (t ∷ ts) = (rw same_refl, Taken-cons f fs (zip_columns fs ts) (Taken-zip fs ts))

column_cells_row :
    (values : Values) (row_no : Text) (fs : List Text) (rest : List Column)
    → column_cells values (row_no ∷ fs) (record { name = row_no; type = codes "INT" } ∷ rest)
      ≡ column_cells values (row_no ∷ fs) rest
unfolding column_cells contains
column_cells_row values row_no fs rest = rw same_refl

-- The cells of a row whose table has the columns of a finished child.
cells_of_shape :
    (values : Values) (fs ts lits : List Text) (row_no literal : Text) (columns rest : List Column)
    → columns ≡ zip_columns fs ts ++ (record { name = row_no; type = codes "INT" } ∷ rest)
    → All (Free (row_no ∷ fs)) rest
    → length fs ≡ length ts
    → cols (fk_cells fs lits ++ ((row_no, literal) ∷ column_cells values (row_no ∷ fs) columns))
      ≡ names columns
cells_of_shape values fs ts lits row_no literal columns rest e free typed =
    rw (e, cols-append, cols-fk_cells fs lits, names-append, names-zip_columns fs ts typed)
      (ap (λ l. fs ++ (row_no ∷ l))
        (ap cols (
            column_cells-Taken values (row_no ∷ fs) (zip_columns fs ts) _
              (Taken-cons row_no fs (zip_columns fs ts) (Taken-zip fs ts)))
          ∙ (ap cols (column_cells_row values row_no fs rest)
              ∙ cols-column_cells values (row_no ∷ fs) rest free)))

is_nil→eq : {A : Type 0} (o : Option A) → is_nil o ≡ true → o ≡ none
is_nil→eq none h = refl
is_nil→eq (some a) h = cc

module _ (m : Model) (values : Values) (parent_key : List Text) (row_no : ℕ) where
  root_cells-columns :
      (t : TableSpec)
      → t.parent ≡ none
      → cols (row_cells m t values parent_key row_no) ≡ names (all_columns m.headers t)
  unfolding row_cells all_columns
  root_cells-columns t h = rw (
    h,
    cols-append,
    names-append,
    cols-header_cells m.headers,
    cols-column_cells values [] t.columns (Free-nil t.columns),
  )

  child_cells-columns :
      (t : TableSpec)
      → is_nil t.parent ≡ false
      → IsRow t
      → cols (row_cells m t values parent_key row_no) ≡ names (all_columns m.headers t)
  unfolding row_cells all_columns
  child_cells-columns t h r = rw h (
      cells_of_shape values t.fk_cols t.fk_col_types parent_key t.row_no_col (show row_no) t.columns
        r.rest r.split r.free r.typed)

  pub row_cells-columns :
      (t : TableSpec)
      → RootOrRow t
      → cols (row_cells m t values parent_key row_no) ≡ names (all_columns m.headers t)
  row_cells-columns t (inl e) = root_cells-columns t e
  row_cells-columns t (inr r) = elim (Bool-cases (is_nil t.parent)) [
    | inl e ↦ root_cells-columns t (is_nil→eq t.parent e)
    | inr e ↦ child_cells-columns t e r
  ]

row_cells-All :
    (m : Model) (values : Values) (parent_key : List Text) (row_no : ℕ) (ts : List TableSpec)
    → All RootOrRow ts
    → All (λ t. cols (row_cells m t values parent_key row_no) ≡ names (all_columns m.headers t)) ts
row_cells-All m values parent_key row_no [] h = tt
row_cells-All m values parent_key row_no (t ∷ ts) (r, h) = (
  row_cells-columns m values parent_key row_no t r,
  row_cells-All m values parent_key row_no ts h,
)

-- For every table of a model that Plan returned, whatever the values of a row, the columns that its
-- INSERT names are those of the table's CREATE TABLE, in the same order, headers included.
pub insert_matches_create :
    (fuel : ℕ) (unmarshal : Text → Option Document) (schema_doc table_name pk : Text)
    (headers : List (Text × Text)) (m : Model)
    → plan fuel unmarshal schema_doc table_name pk headers ≡ ok m
    → (values : Values) (parent_key : List Text) (row_no : ℕ)
    → All
        (λ t. cols (row_cells m t values parent_key row_no) ≡ names (all_columns m.headers t))
        m.tables
insert_matches_create fuel unmarshal schema_doc table_name pk headers m h values parent_key row_no =
    row_cells-All m values parent_key row_no m.tables (
      RootThenRows-RootOrRow m.tables
        (plan-IsRow fuel unmarshal schema_doc table_name pk headers m h))
