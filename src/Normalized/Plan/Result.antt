-- ===== src/Normalized/Plan/Result.antt =====
-- The parts of a model that Plan returned.
use schema_to_table.Prelude.{ℕ, ◌≡◌, refl, false, Option, some, List, [], inl, inr, Bool-cases}
use schema_to_table.Text.{Text, is_empty, trim_space}
use schema_to_table.Outcome.{ok}
use schema_to_table.Outcome.Laws.{Holds, Holds-bind, Holds-ok}
use schema_to_table.Schema.Node
use schema_to_table.Schema.Node.{Document, deref}
use schema_to_table.Normalized.Model.{Tree, table, nil, spec, new_spec, plan_node}
use schema_to_table.Normalized.Plan.{
  Model, plan, with_key, pk_type, table_order, find_discriminator,
}

-- The tables come from one run of planNode, finished with the type of the primary key.
pub record IsResult (fuel : ℕ) (table_name pk : Text) (headers : List (Text × Text)) (m : Model)
    : Type 0 where
  pub planned : Tree
  pub ran :
      plan_node m.doc fuel [] []
        (some m.doc.root)
        (table (record (new_spec table_name pk) { schema = some m.doc.root }) nil)
      ≡ ok planned
  pub tree_finished : m.tree ≡ with_key pk (pk_type pk (spec planned).columns []) planned
  pub tables_ordered : m.tables ≡ table_order m.tree
  pub same_headers : m.headers ≡ headers
  pub pk_found : is_empty (pk_type pk (spec planned).columns []) ≡ false

module _ (fuel : ℕ) (unmarshal : Text → Option Document) (schema_doc table_name pk : Text)
    (headers : List (Text × Text)) where
  plan-Holds :
      Holds
        (IsResult fuel table_name pk headers)
        (plan fuel unmarshal schema_doc table_name pk headers)
  unfolding plan
  plan-Holds = Holds-bind P (Node.parse unmarshal schema_doc) _ λ doc _.
      elim (Bool-cases (is_empty (trim_space table_name))) [
        | inl e ↦ rw e tt
        | inr e ↦ elim (Bool-cases (is_empty (trim_space pk))) [
          | inl f ↦ rw (e, f) tt
          | inr f ↦
              rw (e, f)
                (Holds-bind P
                  (plan_node doc fuel [] [] (some doc.root)
                    (table (record (new_spec table_name pk) { schema = some doc.root }) nil))
                  _
                  λ planned ran.
                    elim (Bool-cases (is_empty (pk_type pk (spec planned).columns []))) [
                      | inl g ↦ rw g tt
                      | inr g ↦ rw g (
                          Holds-bind P (deref doc (some doc.root)) _ λ root _.
                            Holds-bind P (find_discriminator fuel doc root) _ λ found _. record {
                              planned = planned;
                              ran = ran;
                              tree_finished = refl;
                              tables_ordered = refl;
                              same_headers = refl;
                              pk_found = g;
                            })
                    ])
        ]
      ]
    where
      P : Model → Type 0
      P = IsResult fuel table_name pk headers

  pub plan-IsResult :
      (m : Model)
      → plan fuel unmarshal schema_doc table_name pk headers ≡ ok m
      → IsResult fuel table_name pk headers m
  plan-IsResult m h = Holds-ok (IsResult fuel table_name pk headers) _ m plan-Holds h
