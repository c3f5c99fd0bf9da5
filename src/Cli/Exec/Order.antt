-- ===== src/Cli/Exec/Order.antt =====
-- Statements are executed in their order, up to the first that fails.
use schema_to_table.Prelude.{
  ℕ, ◌≡◌, refl, Bool, true, false, Option, none, some, List, [], ◌∷◌, ◌++◌, ◌⊎◌, length, inl, inr,
  if◌then◌else◌,
}
use schema_to_table.Text.{Text}
use schema_to_table.Outcome.{
  Error, drop_failed, exec_failed, Outcome, ok, err, panic, diverge, ◌>>=◌,
}
use schema_to_table.Cli.Build.{LabeledStmt}
use schema_to_table.Cli.Exec.{Database, exec_all, exec_both}

module _ {S : Type 0} (d : Database S) where
  -- Every statement succeeds, each in the state that the one before it left.
  pub data Executed : List LabeledStmt → S → S → Type 0 where
    all_executed : {db : S} → Executed [] db db
    one_executed :
        {st : LabeledStmt} {stmts : List LabeledStmt} {db db' db'' : S}
        → d.exec st.sql db ≡ (db', true)
        → Executed stmts db' db''
        → Executed (st ∷ stmts) db db''

  -- Statements succeed up to one that fails, which has the label.
  pub data Stopped (label : Text) : List LabeledStmt → S → S → Type 0 where
    fails :
        {st : LabeledStmt} {stmts : List LabeledStmt} {db db' : S}
        → d.exec st.sql db ≡ (db', false)
        → st.label ≡ label
        → Stopped label (st ∷ stmts) db db'
    succeeds :
        {st : LabeledStmt} {stmts : List LabeledStmt} {db db' db'' : S}
        → d.exec st.sql db ≡ (db', true)
        → Stopped label stmts db' db''
        → Stopped label (st ∷ stmts) db db''

  Executed-append :
      {stmts stmts' : List LabeledStmt} {db db' db'' : S}
      → Executed stmts db db'
      → Executed stmts' db' db''
      → Executed (stmts ++ stmts') db db''
  Executed-append all_executed e = e
  Executed-append (one_executed h r) e = one_executed h (Executed-append r e)

  Executed-Stopped :
      {label : Text} {stmts stmts' : List LabeledStmt} {db db' db'' : S}
      → Executed stmts db db'
      → Stopped label stmts' db' db''
      → Stopped label (stmts ++ stmts') db db''
  Executed-Stopped all_executed s = s
  Executed-Stopped (one_executed h r) s = succeeds h (Executed-Stopped r s)

  Stopped-append :
      {label : Text} {stmts : List LabeledStmt} (stmts' : List LabeledStmt) {db db' : S}
      → Stopped label stmts db db'
      → Stopped label (stmts ++ stmts') db db'
  Stopped-append stmts' (fails h e) = fails h e
  Stopped-append stmts' (succeeds h s) = succeeds h (Stopped-append stmts' s)

  -- What exec_all does with the statements.
  abbrev Ran : (Text → Error) → List LabeledStmt → S → S × Outcome (Unit {0}) → Type 0
  Ran failing stmts db (db', ok _) = Executed stmts db db'
  Ran failing stmts db (db', err e) =
      (label : Text) × (e ≡ failing label) × Stopped label stmts db db'
  Ran failing stmts db (db', _) = ⊥

  Ran-next :
      (failing : Text → Error) (st : LabeledStmt) (stmts : List LabeledStmt) (db db' : S)
      (r : S × Outcome (Unit {0}))
      → d.exec st.sql db ≡ (db', true)
      → Ran failing stmts db' r
      → Ran failing (st ∷ stmts) db r
  Ran-next failing st stmts db db' (db'', ok _) h e = one_executed h e
  Ran-next failing st stmts db db' (db'', err e) h (label, f, s) = (label, f, succeeds h s)
  Ran-next failing st stmts db db' (db'', panic) h e = absurd e
  Ran-next failing st stmts db db' (db'', diverge) h e = absurd e

  exec_all-Ran :
      (failing : Text → Error) (stmts : List LabeledStmt) (db : S)
      → Ran failing stmts db (exec_all d failing stmts db)
  unfolding exec_all
  exec_all-Ran failing [] db = all_executed
  exec_all-Ran failing (st ∷ stmts) db =
      at_end (d.exec st.sql db) refl (λ db'. exec_all-Ran failing stmts db')
    where
      at_end :
          (after : S × Bool)
          → d.exec st.sql db ≡ after
          → ((db' : S) → Ran failing stmts db' (exec_all d failing stmts db'))
          → Ran failing (st ∷ stmts) db (
              if after.1
              then exec_all d failing stmts after.0
              else (after.0, err (failing st.label)))
      at_end (db', true) h r =
          Ran-next failing st stmts db db' (exec_all d failing stmts db') h (r db')
      at_end (db', false) h r = (st.label, refl, fails h refl)

  -- What exec_both does with the drops and the statements: all of them succeed, or one fails.
  abbrev pub RanBoth : List LabeledStmt → List LabeledStmt → S → S × Outcome (Option ℕ) → Type 0
  RanBoth drops stmts db (db', ok none) = ⊥
  RanBoth drops stmts db (db', ok (some n)) = (n ≡ length stmts) × Executed (drops ++ stmts) db db'
  RanBoth drops stmts db (db', err e) =
      (label : Text) × ((e ≡ drop_failed label) ⊎ (e ≡ exec_failed label))
      × Stopped label (drops ++ stmts) db db'
  RanBoth drops stmts db (db', _) = ⊥

  pub exec_both-RanBoth :
      (drops stmts : List LabeledStmt) (db : S)
      → RanBoth drops stmts db (exec_both d drops stmts db)
  unfolding exec_both
  exec_both-RanBoth drops stmts db =
      at_drops (exec_all d drop_failed drops db) (exec_all-Ran drop_failed drops db)
    where
      at_stmts :
          (mid : S) (r : S × Outcome (Unit {0}))
          → Executed drops db mid
          → Ran exec_failed stmts mid r
          → RanBoth drops stmts db (r.0, r.1 >>= λ _. ok (some (length stmts)))
      at_stmts mid (db', ok _) f r = (refl, Executed-append f r)
      at_stmts mid (db', err e) f (label, g, s) = (label, inr g, Executed-Stopped f s)
      at_stmts mid (db', panic) f r = absurd r
      at_stmts mid (db', diverge) f r = absurd r

      at_drops :
          (r : S × Outcome (Unit {0}))
          → Ran drop_failed drops db r
          → RanBoth drops stmts db (
              let executed = exec_all d exec_failed stmts r.0 in
              elim r.1 [
                | ok _ ↦ (executed.0, executed.1 >>= λ _. ok (some (length stmts)))
                | err e ↦ (r.0, err e)
                | panic ↦ (r.0, panic)
                | diverge ↦ (r.0, diverge)
              ])
      at_drops (mid, ok _) e =
          at_stmts mid (exec_all d exec_failed stmts mid) e (exec_all-Ran exec_failed stmts mid)
      at_drops (mid, err e) (label, f, s) = (label, inl f, Stopped-append stmts s)
      at_drops (mid, panic) e = absurd e
      at_drops (mid, diverge) e = absurd e
