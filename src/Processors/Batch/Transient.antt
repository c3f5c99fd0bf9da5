-- ===== src/Processors/Batch/Transient.antt =====
-- The failures of the statements that are executed are not permanent.
use schema_to_table.Prelude.{
  Bool, true, false, not, Option, none, some, List, [], ◌∷◌, inl, inr, Bool-cases, if◌then◌else◌,
}
use schema_to_table.Text.{Text}
use schema_to_table.Text.Equality.{contains}
use schema_to_table.Outcome.{Error, Outcome, ok, err, panic, diverge}
use schema_to_table.Normalized.Plan.{Model}
use schema_to_table.Normalized.Ddl.{create_statements, view_statements}
use schema_to_table.Normalized.Registry.{registry_statements}
use schema_to_table.Processors.Batch.{
  DbError, already_exists, Tx, ProcessorConfig, Cause, Status, done, crashed, failure, World,
  and_then, given, exec_ddl, exec_rows, create_model, ensure_model, not_planned, not_created,
  not_executed,
}

-- If the status is a permanent failure, the database has the property.
abbrev pub Permanently : {S : Type 0} → (S → Type 0) → World S × Status → Type 0
Permanently P (w, failure true cause) = P w.db
Permanently P _ = Unit

-- The failure, if any, is not permanent.
abbrev pub Transient : {S : Type 0} → World S × Status → Type 0
Transient r = Permanently (λ _. ⊥) r

Transient-and_then :
    {S : Type 0} (r : World S × Status) (f : World S → World S × Status)
    → Transient r
    → ((w : World S) → Transient (f w))
    → Transient (and_then r f)
Transient-and_then (w, done) f h k = k w
Transient-and_then (w, crashed) f h k = tt
Transient-and_then (w, failure true cause) f h k = h
Transient-and_then (w, failure false cause) f h k = tt

Transient-given :
    {S A : Type 0} (o : Outcome A) (c : Error → Cause) (w : World S) (f : A → World S × Status)
    → ((a : A) → Transient (f a))
    → Transient (given o (λ e. failure false (c e)) w f)
Transient-given (ok a) c w f h = h a
Transient-given (err e) c w f h = tt
Transient-given panic c w f h = tt
Transient-given diverge c w f h = tt

module _ {S : Type 0} (tx : Tx S) where
  exec_ddl-Transient : (stmts : List Text) (w : World S) → Transient (exec_ddl tx stmts w)
  unfolding exec_ddl
  exec_ddl-Transient [] w = tt
  exec_ddl-Transient (stmt ∷ stmts) w = at_error (tx.exec stmt w.db).1 (exec_ddl-Transient stmts _)
    where
      w' : World S
      w' = record w { db = (tx.exec stmt w.db).0 }

      at_error :
          (e : Option DbError)
          → Transient (exec_ddl tx stmts w')
          → Transient {S = S} (elim e [
            | none ↦ exec_ddl tx stmts w'
            | some e ↦
                if already_exists e
                then exec_ddl tx stmts w'
                else (w', failure false (not_created e))
          ])
      at_error none h = h
      at_error (some e) h = elim (Bool-cases (already_exists e)) [
        | inl x ↦ rw x h
        | inr x ↦ rw x tt
      ]

  pub exec_rows-Transient : (stmts : List Text) (w : World S) → Transient (exec_rows tx stmts w)
  unfolding exec_rows
  exec_rows-Transient [] w = tt
  exec_rows-Transient (stmt ∷ stmts) w =
      at_error (tx.exec stmt w.db).1 (exec_rows-Transient stmts _)
    where
      w' : World S
      w' = record w { db = (tx.exec stmt w.db).0 }

      at_error :
          (e : Option DbError)
          → Transient (exec_rows tx stmts w')
          → Transient {S = S} (elim e [
            | none ↦ exec_rows tx stmts w'
            | some e ↦ (w', failure false (not_executed e))
          ])
      at_error none h = h
      at_error (some e) h = tt

  create_model-Transient : (m : Model) (w : World S) → Transient (create_model tx m w)
  unfolding create_model
  create_model-Transient m w =
      Transient-and_then _ _
        (Transient-and_then _ _
          (Transient-given (create_statements m) not_planned w _
            λ stmts. exec_ddl-Transient stmts w)
          (λ w. exec_ddl-Transient (view_statements m) w))
        (λ w.
          Transient-given (registry_statements m) not_planned w _
            λ stmts. exec_ddl-Transient stmts w)

  pub ensure_model-Transient :
      (cfg : ProcessorConfig) (table_name : Text) (m : Model) (w : World S)
      → Transient (ensure_model tx cfg table_name m w)
  unfolding ensure_model
  ensure_model-Transient cfg table_name m w = elim (Bool-cases (not cfg.create_model)) [
    | inl e ↦ rw e tt
    | inr e ↦ elim (Bool-cases (contains w.ensured table_name)) [
      | inl f ↦ rw (e, f) tt
      | inr f ↦ rw (e, f) (at_exists (tx.table_exists table_name w.db))
    ]
  ]
    where
      known : World S → World S × Status
      known w = (record w { ensured = table_name ∷ w.ensured }, done)

      at_exists :
          (o : Option Bool)
          → Transient {S = S} (elim o [
            | none ↦ (w, failure false Cause.existence_unknown)
            | some exists ↦ and_then (if exists then (w, done) else create_model tx m w) known
          ])
      at_exists none = tt
      at_exists (some true) = tt
      at_exists (some false) =
          Transient-and_then (create_model tx m w) known (create_model-Transient m w) (λ w. tt)
