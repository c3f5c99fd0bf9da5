-- ===== src/Tests/Ranks.antt =====
-- A schema without a cycle, and the ranks of its nodes.
use schema_to_table.Prelude.{true, refl, ℕ, zero, suc, Option, none, some, [], ◌∷◌, arith}
use schema_to_table.Text.{Text, codes}
use schema_to_table.Outcome.Laws.{Ends}
use schema_to_table.Schema.Node
use schema_to_table.Schema.Node.{Ptr, Document}
use schema_to_table.Normalized.Plan
use schema_to_table.Normalized.Plan.Ranked.{Falls, Keeps, IsRanked}
use schema_to_table.Normalized.Plan.Total.{plan_total}
use schema_to_table.Cli.Flags.{Flags}
use schema_to_table.Cli.Run.{run}
use schema_to_table.Cli.Run.Total.{run_total}
use schema_to_table.Tests.{node, decode_order}
use schema_to_table.Tests.Commands.{files, memory, quote, flags}
use schema_to_table.Tests.Runs.{plan_run}

-- {"properties": {"id": string, "tags": array of string}}
abbrev tagged : Document
tagged = record {
  nodes =
      node (codes "object") ((codes "id", some 1) ∷ (codes "tags", some 2) ∷ []) none
      ∷ node (codes "string") [] none
      ∷ node (codes "array") [] (some 3)
      ∷ node (codes "string") [] none
      ∷ [];
  root = 0;
}

abbrev rank : Ptr → ℕ
rank none = 0
rank (some zero) = 3
rank (some (suc zero)) = 1
rank (some (suc (suc zero))) = 2
rank (some (suc (suc (suc i)))) = 1

falls : (p : Ptr) → Falls rank p (Node.deref tagged p)
unfolding plan_run
falls none = tt
falls (some zero) = (omega arith, tt, (omega arith, (omega arith, tt)), omega arith)
falls (some (suc zero)) = (omega arith, tt, tt, omega arith)
falls (some (suc (suc zero))) = (omega arith, tt, tt, omega arith)
falls (some (suc (suc (suc zero)))) = (omega arith, tt, tt, omega arith)
falls (some (suc (suc (suc (suc i))))) = tt

keeps : (p : Ptr) → Keeps rank p (Node.resolve tagged p)
unfolding plan_run
keeps none = omega arith
keeps (some zero) = omega arith
keeps (some (suc zero)) = omega arith
keeps (some (suc (suc zero))) = omega arith
keeps (some (suc (suc (suc zero)))) = omega arith
keeps (some (suc (suc (suc (suc i))))) = tt

abbrev decode_tagged : Text → Option Document
decode_tagged _ = some tagged

plan_total_example : Ends (Plan.plan 4 decode_tagged (codes "{}") (codes "t") (codes "id") [])
plan_total_example =
    plan_total decode_tagged tagged rank 4 (codes "{}") (codes "t") (codes "id") [] refl
      (record { falls = falls; keeps = keeps }) (omega arith)

tagged-IsRanked : IsRanked tagged rank
tagged-IsRanked = record { falls = falls; keeps = keeps }

abbrev model_flags : Flags
model_flags = record flags { model_mode = true }

run_total_example : Ends (run memory files quote 4 decode_tagged decode_order model_flags []).result
run_total_example =
    run_total files quote 4 decode_tagged decode_order (codes "{}") tagged rank refl tagged-IsRanked
      (omega arith) memory model_flags [] refl
