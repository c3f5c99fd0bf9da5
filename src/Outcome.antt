-- ===== src/Outcome.antt =====
-- Results of Go functions that return an error, and loops over them. A nil dereference and a
-- recursion that outlasts its fuel are outcomes too.
pub mod Laws
use schema_to_table.Prelude.{List, [], ◌∷◌}
use schema_to_table.Text.{Text}

-- The errors of the program, one constructor for each message, with what the message quotes.
pub data Error : Type 0 where
  schema_required invalid_schema invalid_data : Error
  unsupported_ref ref_not_found : Text → Error
  table_name_required no_columns conflict_required pk_required nothing_to_update : Error
  conflict_unknown no_updates pk_not_planned pk_not_found conflict_not_pk : Text → Error
  untypable_object untypable_array table_without_columns expected_array : Text → Error
  -- those of the command line
  read_schema_failed read_dir_failed open_failed connect_failed : Error
  invalid_mode invalid_pair unmatched_header no_data_files read_failed drop_failed exec_failed :
      Text → Error
  -- those of the settings of a processor
  setting_unreadable setting_required bad_on_error : Text → Error
  -- fmt.Errorf("<text>: %w", err)
  within : Text → Error → Error

pub data Outcome {ℓ} (A : Type ℓ) : Type ℓ where
  ok : A → Outcome A
  err : Error → Outcome A
  panic : Outcome A
  diverge : Outcome A

infixl 5 ◌>>=◌
abbrev pub ◌>>=◌ {ℓ κ} : {A : Type ℓ} {B : Type κ} → Outcome A → (A → Outcome B) → Outcome B
ok a >>= f = f a
err e >>= f = err e
panic >>= f = panic
diverge >>= f = diverge

-- `if err != nil { return fmt.Errorf("<text>: %w", err) }`
abbrev pub wrap {ℓ} : {A : Type ℓ} → Text → Outcome A → Outcome A
wrap t (ok a) = ok a
wrap t (err e) = err (within t e)
wrap t panic = panic
wrap t diverge = diverge

-- `for _, x := range xs { if err := body(x); err != nil { return err } }`
unfoldable pub each {ℓ κ} : {A : Type ℓ} {S : Type κ} → (A → S → Outcome S) → List A → S → Outcome S
each body [] s = ok s
each body (x ∷ xs) s = body x s >>= λ s'. each body xs s'
