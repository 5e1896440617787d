-- ===== src/Core/Results.antt =====
-- A thrown error or a result. Errors are told apart by the place that throws; what the message
-- quotes is kept.
use loop_engine.Prelude.{String}

pub data Failure : Type 0 where
  definition_not_found active_loop_exists instance_not_found : String → Failure
  unknown_guard evaluator_threw : String → Failure
  schema_rejected emit_rejected snapshot_store_rejected : Failure

pub data Outcome {ℓ} (A : Type ℓ) : Type ℓ where
  ok : A → Outcome A
  threw : Failure → Outcome A

abbrev pub bind {ℓ κ} : {A : Type ℓ} {B : Type κ} → Outcome A → (A → Outcome B) → Outcome B
bind (ok a) f = f a
bind (threw e) f = threw e
