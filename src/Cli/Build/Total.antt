-- ===== src/Cli/Build/Total.antt =====
-- The building of the statements ends.
use schema_to_table.Prelude.{
  ℕ, ◌<◌, ◌≡◌, true, false, ◌||◌, Option, none, some, List, [], ◌∷◌, arith,
}
use schema_to_table.Text.{Text}
use schema_to_table.Json.{Json}
use schema_to_table.Outcome.{Error, Outcome, ok, err, wrap}
use schema_to_table.Outcome.Laws.{Ends, Ends-bind, Ends-each, Ends-if, Ends-wrap}
use schema_to_table.Schema.Node
use schema_to_table.Schema.Node.{Ptr, Document, deref}
use schema_to_table.Schema.Values.Visits.{deref-Ends}
use schema_to_table.Landing
use schema_to_table.Landing.Total.{table_operations_total}
use schema_to_table.Normalized.Model.{TableSpec}
use schema_to_table.Normalized.Plan.{Model, plan}
use schema_to_table.Normalized.Plan.Ranked.{IsRanked}
use schema_to_table.Normalized.Plan.Total.{plan_total}
use schema_to_table.Normalized.Ddl.{create_table_stmt, create_all, create_statements}
use schema_to_table.Normalized.Registry.{registry_statements}
use schema_to_table.Normalized.Dml
use schema_to_table.Normalized.Dml.{insert_statements, upsert_statements}
use schema_to_table.Normalized.Dml.Total.{insert_total}
use schema_to_table.Cli.Helpers.{FileSystem}
use schema_to_table.Cli.Headers.{StringMap}
use schema_to_table.Cli.Build.{
  LabeledStmt, creates, inserts, upserts, only_if, read_data, file_statements, data_statements,
  model_ddl, flat_ddl, build_model_statements, build_flat_statements,
}

create_table_stmt-Ends :
    (headers : List (Text × Text)) (t : TableSpec) → Ends (create_table_stmt headers t)
unfolding create_table_stmt
create_table_stmt-Ends headers t = ground arith

create_all-Ends :
    (headers : List (Text × Text)) (ts : List TableSpec) → Ends (create_all headers ts)
unfolding create_all
create_all-Ends headers [] = tt
create_all-Ends headers (t ∷ ts) =
    Ends-bind (create_table_stmt headers t) _ (create_table_stmt-Ends headers t)
      λ s _. Ends-bind (create_all headers ts) _ (create_all-Ends headers ts) λ rest _. tt

model_ddl-Ends : (m : Model) → Ends (model_ddl m)
unfolding model_ddl create_statements registry_statements
model_ddl-Ends m =
    Ends-bind (create_all m.headers m.tables) _ (create_all-Ends m.headers m.tables) λ tables _.
      Ends-bind (registry_statements m) _
        (Ends-bind (deref m.doc (some m.doc.root)) _ (deref-Ends m.doc (some m.doc.root))
          λ root _. tt)
        λ registry _. tt

parse-Ends :
    (decode_schema : Text → Option Document) (text : Text) → Ends (Node.parse decode_schema text)
unfolding Node.parse
parse-Ends decode_schema text = ground arith

module _ (fs : FileSystem) (decode : Text → Option Json) (mode : Text)
    (header_values : StringMap) where
  module _ (insert upsert : Text → Outcome (List Text))
      (h : (contents : Text) → Ends (insert contents))
      (k : (contents : Text) → Ends (upsert contents)) where
    read_data-Ends : (file : Text) → Ends (read_data fs file)
    unfolding read_data
    read_data-Ends file = contents_of (fs.read_file file)
      where
        contents_of :
            (o : Option Text)
            → Ends (elim o [ none ↦ err (Error.read_failed file) | some text ↦ ok text ])
        contents_of none = tt
        contents_of (some text) = tt

    file_statements-Ends :
        (file : Text) (stmts : List LabeledStmt)
        → Ends (file_statements fs decode mode header_values insert upsert file stmts)
    unfolding file_statements
    file_statements-Ends file stmts =
        Ends-bind (read_data fs file) _ (read_data-Ends file) λ contents _.
          Ends-bind (only_if (inserts mode) (wrap file (insert contents))) _
            (Ends-if (inserts mode) _ _ (Ends-wrap file (insert contents) (h contents)) tt)
            λ inserted _.
              Ends-bind (only_if (upserts mode) (wrap file (upsert contents))) _
                (Ends-if (upserts mode) _ _ (Ends-wrap file (upsert contents) (k contents)) tt)
                λ upserted _. tt

    data_statements-Ends :
        (files : List Text) (stmts : List LabeledStmt)
        → Ends (data_statements fs decode mode header_values insert upsert files stmts)
    unfolding data_statements
    data_statements-Ends files stmts =
        Ends-if (inserts mode || upserts mode) _ _
          (Ends-each (file_statements fs decode mode header_values insert upsert)
            file_statements-Ends files stmts)
          tt

  pub build_flat_statements-Ends :
      (decode_schema : Text → Option Document)
      (schema_doc complex_type table_name pk conflict : Text) (types : StringMap)
      (files : List Text)
      → Ends (
          build_flat_statements fs decode mode header_values decode_schema schema_doc complex_type
            table_name pk conflict types files)
  unfolding build_flat_statements flat_ddl Landing.parse
  build_flat_statements-Ends decode_schema schema_doc complex_type table_name pk conflict types
        files =
      Ends-bind (Landing.parse decode_schema schema_doc complex_type) _
        (Ends-bind (Node.parse decode_schema schema_doc) _ (parse-Ends decode_schema schema_doc)
          λ doc _. tt)
        λ t _.
          Ends-bind (only_if (creates mode) (flat_ddl t table_name pk types)) _
            (Ends-if (creates mode) _ _
              (Ends-bind (Landing.create_table t table_name types) _
                (table_operations_total decode t types table_name [] []).0 λ create _. tt)
              tt)
            λ ddl _.
              data_statements-Ends _ _
                (λ contents.
                  Ends-bind (Landing.insert decode t table_name header_values contents) _
                    (table_operations_total decode t header_values table_name contents []).1
                    λ s _. tt)
                (λ contents.
                  Ends-bind (Landing.upsert decode t table_name header_values contents conflict) _
                    (table_operations_total decode t header_values table_name contents conflict).2
                    λ s _. tt)
                files ddl

  module _ (fuel : ℕ) (decode_schema : Text → Option Document) (schema_doc : Text) (doc : Document)
      (rank : Ptr → ℕ) (u : decode_schema schema_doc ≡ some doc) (r : IsRanked doc rank)
      (lt : rank (some doc.root) < fuel) where
    pub build_model_statements-Ends :
        (table_name pk conflict : Text) (types : StringMap) (files : List Text)
        → Ends (
            build_model_statements fs decode mode header_values fuel decode_schema schema_doc
              table_name pk conflict types files)
    unfolding build_model_statements insert_statements upsert_statements
    build_model_statements-Ends table_name pk conflict types files =
        Ends-bind (plan fuel decode_schema schema_doc table_name _ types) _
          (plan_total decode_schema doc rank fuel schema_doc table_name _ types u r lt)
          λ m _.
            Ends-bind (only_if (creates mode) (model_ddl m)) _
              (Ends-if (creates mode) _ _ (model_ddl-Ends m) tt)
              λ ddl _.
                data_statements-Ends _ _
                  (λ contents.
                    Ends-bind (Dml.insert m decode false header_values contents []) _
                      (insert_total m decode false header_values contents []) λ s _. tt)
                  (λ contents.
                    Ends-bind (Dml.insert m decode true header_values contents conflict) _
                      (insert_total m decode true header_values contents conflict) λ s _. tt)
                  files _
