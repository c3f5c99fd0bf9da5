-- ===== src/Cli/Build.antt =====
-- The statements that the command renders: internal/cli/build.go for the normalized model, and the
-- flat branch of Run in internal/cli/cli.go.
pub mod Total
use schema_to_table.Prelude.{
  ℕ, Bool, ◌||◌, Option, none, some, List, [], ◌∷◌, ◌++◌, map, if◌then◌else◌,
}
use schema_to_table.Text.{Text, codes, is_empty, trim_space, join, concat}
use schema_to_table.Text.Split.{split}
use schema_to_table.Text.Equality.{same}
use schema_to_table.Json.{Json}
use schema_to_table.Outcome.{Outcome, ok, err, read_failed, ◌>>=◌, wrap, each}
use schema_to_table.Schema.Names.{quote_ident}
use schema_to_table.Schema.Node.{Document}
use schema_to_table.Landing
use schema_to_table.Landing.{Table}
use schema_to_table.Normalized.Plan.{Model, plan}
use schema_to_table.Normalized.Ddl.{create_statements, view_statements}
use schema_to_table.Normalized.Registry.{registry_statements}
use schema_to_table.Normalized.Dml.{insert_statements, upsert_statements}
use schema_to_table.Cli.Helpers.{FileSystem}

-- stmt
pub record LabeledStmt : Type 0 where
  pub label : Text
  pub sql : Text

abbrev pub labeled : Text → List Text → List LabeledStmt
labeled label sqls = map (λ sql. record { label = label; sql = sql }) sqls

-- The modes in which a kind of statement is rendered.
unfoldable pub creates : Text → Bool
creates mode = same mode (codes "create") || same mode (codes "all")

unfoldable pub inserts : Text → Bool
inserts mode = same mode (codes "insert") || same mode (codes "all")

unfoldable pub upserts : Text → Bool
upserts mode = same mode (codes "upsert") || same mode (codes "all")

-- os.ReadFile of a data file
unfoldable pub read_data : FileSystem → Text → Outcome Text
read_data fs file = elim (fs.read_file file) [ none ↦ err (read_failed file) | some text ↦ ok text ]

abbrev pub only_if {ℓ} : {A : Type ℓ} → Bool → Outcome (List A) → Outcome (List A)
only_if b o = if b then o else ok []

unfoldable pub discriminator_line : Model → List LabeledStmt
discriminator_line m =
    if is_empty m.discriminator
    then []
    else record {
      label = codes "schema";
      sql = codes "-- STI discriminator: " ++ (m.discriminator ++ codes "\n");
    }
      ∷ []

-- The tables, the views and the registry of a model.
unfoldable pub model_ddl : Model → Outcome (List LabeledStmt)
model_ddl m = do
  tables ← create_statements m
  registry ← registry_statements m
  ok (
      labeled (codes "create") tables
      ++ (labeled (codes "create view") (view_statements m)
          ++ labeled (codes "create registry") registry))

-- ALTER TABLE ... ADD PRIMARY KEY for the columns of the flag -pk
unfoldable pub primary_key_statement : Text → Text → Text
unfolding split
primary_key_statement table_name pk = concat (
    codes "ALTER TABLE "
    ∷ quote_ident table_name
    ∷ codes " ADD PRIMARY KEY ("
    ∷ join (codes ", ") (map (λ c. quote_ident (trim_space c)) (split b',' pk))
    ∷ codes ");\n"
    ∷ [])

-- CREATE TABLE of the flat table, and its primary key if there is one.
unfoldable pub flat_ddl : Table → Text → Text → List (Text × Text) → Outcome (List LabeledStmt)
unfolding primary_key_statement
flat_ddl t table_name pk header_types = do
  create ← Landing.create_table t table_name header_types
  ok (
      labeled (codes "create") (create ∷ [])
      ++ (if is_empty pk
          then []
          else labeled (codes "create primary key") (primary_key_statement table_name pk ∷ [])))

abbrev one {ℓ} : {A : Type ℓ} → Outcome A → Outcome (List A)
one o = o >>= λ a. ok (a ∷ [])

module _ (fs : FileSystem) (decode : Text → Option Json) (mode : Text)
    (header_values : List (Text × Text)) where
  -- The statements of one data file, rendered by the two functions given.
  unfoldable pub file_statements :
      (Text → Outcome (List Text))
      → (Text → Outcome (List Text))
      → Text
      → List LabeledStmt
      → Outcome (List LabeledStmt)
  unfolding read_data inserts upserts
  file_statements insert upsert file stmts = do
    contents ← read_data fs file
    inserted ← only_if (inserts mode) (wrap file (insert contents))
    upserted ← only_if (upserts mode) (wrap file (upsert contents))
    ok (
        stmts
        ++ (labeled (codes "insert " ++ fs.base file) inserted
            ++ labeled (codes "upsert " ++ fs.base file) upserted))

  -- The loop over the data files.
  unfoldable pub data_statements :
      (Text → Outcome (List Text))
      → (Text → Outcome (List Text))
      → List Text
      → List LabeledStmt
      → Outcome (List LabeledStmt)
  unfolding file_statements
  data_statements insert upsert files stmts =
      if inserts mode || upserts mode
      then each (file_statements insert upsert) files stmts
      else ok stmts

  -- buildModelStatements
  unfoldable pub build_model_statements :
      ℕ
      → (Text → Option Document)
      → Text
      → Text
      → Text
      → Text
      → List (Text × Text)
      → List Text
      → Outcome (List LabeledStmt)
  unfolding data_statements discriminator_line model_ddl creates
  build_model_statements fuel decode_schema schema_doc table_name pk conflict header_types files =
      do
        m ←
            plan fuel decode_schema schema_doc table_name (if is_empty pk then codes "id" else pk)
              header_types
        ddl ← only_if (creates mode) (model_ddl m)
        data_statements (λ contents. insert_statements m decode header_values contents)
            (λ contents. upsert_statements m decode header_values contents conflict) files
            (discriminator_line m ++ ddl)

  -- The branch of Run without -model.
  unfoldable pub build_flat_statements :
      (Text → Option Document)
      → Text
      → Text
      → Text
      → Text
      → Text
      → List (Text × Text)
      → List Text
      → Outcome (List LabeledStmt)
  unfolding data_statements flat_ddl creates
  build_flat_statements decode_schema schema_doc complex_type table_name pk conflict header_types
        files =
      do
        t ← Landing.parse decode_schema schema_doc complex_type
        ddl ← only_if (creates mode) (flat_ddl t table_name pk header_types)
        data_statements
            (λ contents. one (Landing.insert decode t table_name header_values contents))
            (λ contents. one (Landing.upsert decode t table_name header_values contents conflict))
            files ddl
