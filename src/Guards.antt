-- ===== src/Guards.antt =====
-- packages/guards: the registry and the evaluation pipeline (guards/src/registry.ts, pipeline.ts).
pub mod BuiltIn
pub mod Pipeline
mod Types
unfoldable pub use Types.*
use loop_engine.Prelude.{
  ℕ, suc, ◌≡◌, Bool, true, false, ◌&&◌, not, String, Option, none, some, List, [], ◌∷◌, Dict, get,
  put, filter, is_empty,
}
use loop_engine.Core.{
  GuardSpec, GuardSeverity, hard, soft, Outcome, ok, threw, unknown_guard, evaluator_threw,
  bind as ◌>>=◌,
}

-- `GuardRegistry`: `register` and `get` are those of its map.
abbrev pub GuardRegistry : Type 0
GuardRegistry = Dict Evaluator

unfoldable pub register : String → Evaluator → GuardRegistry → GuardRegistry
register id e r = put id e r

unfoldable pub evaluation_result : GuardSpec → GuardResult → GuardEvaluationResult
evaluation_result g r = record {
  guard_id = g.id;
  severity = g.severity;
  passed = r.passed;
  code = r.code;
  message = elim r.message [ none ↦ "" | some m ↦ m ];
  metadata = r.metadata;
}

unfoldable pub evaluated : GuardSpec → Option GuardResult → Outcome GuardEvaluationResult
evaluated g none = threw (evaluator_threw g.id)
evaluated g (some r) = ok (evaluation_result g r)

-- One round of `evaluateGuards`.
unfoldable pub evaluate_with :
    ℕ → GuardSpec → GuardContext → Option Evaluator → Outcome GuardEvaluationResult
evaluate_with now g context none = threw (unknown_guard g.id)
evaluate_with now g context (some evaluator) = evaluated g (evaluator now context g.parameters)

unfoldable pub evaluate_one :
    ℕ → GuardSpec → GuardContext → GuardRegistry → Outcome GuardEvaluationResult
evaluate_one now g context registry = evaluate_with now g context (get g.id registry)

-- Its loop; guard number k is evaluated at moment `now + k`.
unfoldable pub evaluate_each :
    ℕ → List GuardSpec → GuardContext → GuardRegistry → Outcome (List GuardEvaluationResult)
evaluate_each now [] context registry = ok []
evaluate_each now (g ∷ gs) context registry = do
  result ← evaluate_one now g context registry
  results ← evaluate_each (suc now) gs context registry
  ok (result ∷ results)

unfoldable pub is_failure_of : GuardSeverity → GuardEvaluationResult → Bool
is_failure_of hard r = not r.passed && is_hard r.severity
is_failure_of soft r = not r.passed && not (is_hard r.severity)

unfoldable pub summarize : List GuardEvaluationResult → GuardEvaluationSummary
summarize results =
    let hard_failures = filter (is_failure_of hard) results in
    record {
      hard_failures = hard_failures;
      soft_failures = filter (is_failure_of soft) results;
      all_passed = is_empty hard_failures;
    }

unfoldable pub evaluate_guards :
    ℕ → List GuardSpec → GuardContext → GuardRegistry → Outcome GuardEvaluationSummary
evaluate_guards now guards context registry = do
  results ← evaluate_each now guards context registry
  ok (summarize results)
