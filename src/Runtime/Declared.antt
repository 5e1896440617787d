-- ===== src/Runtime/Declared.antt =====
-- A loop of a validated definition stays in the states that the definition declares.
use loop_engine.Prelude.{
  ◌≡◌, sym, subst, ◌∙◌, String, some, List, [], ◌∷◌, In, &&-true, eq_of_==, ◌==◌, some-injective,
}
use loop_engine.Core.{LoopDefinition, LoopInstance, TransitionRecord}
use loop_engine.Observability.Replay.{Walk}
use loop_engine.Validator.{validate_loop_definition}
use loop_engine.Validator.Valid.{IsValid, declared, validate_loop_definition_iff}
use loop_engine.Runtime.World.{World, Options}
use loop_engine.Runtime.Life.{Life, Life-replays}

Walk-declared :
    (d : LoopDefinition) (state final : String) (history : List TransitionRecord)
    → IsValid d
    → In state (declared d)
    → Walk d state history final
    → In final (declared d)
Walk-declared d state final [] valid m same = subst (λ s. In s (declared d)) same m
Walk-declared d state final (r ∷ rs) valid m ((t, listed, fits), walk) =
    let (from_in, to_in, distinct) = valid.transitions t listed in
    let target : t.to ≡ r.to_state =
      eq_of_== (&&-true (t.from == state) _ (&&-true (t.id == r.transition_id) _ fits).1).1 in
    Walk-declared d r.to_state final rs valid (subst (λ s. In s (declared d)) target to_in) walk

-- In every world of a life of an aggregate whose definition the validator accepts, the stored current
-- state is one of the states that the definition declares.
pub Life-declared :
    {S : Type 0} (o : Options S) (a : String) (d : LoopDefinition)
    → validate_loop_definition d ≡ []
    → {w : World S} → Life o a d w
    → (i : LoopInstance) → o.store.get_instance w.store a ≡ some i
    → In i.current_state (declared d)
Life-declared o a d accepted {w} l i found =
    let valid = (validate_loop_definition_iff d).0 accepted in
    let (j, held, walk) = (Life-replays o a d l).0 in
    let same : j ≡ i = some-injective _ _ (sym held ∙ found) in
    subst (λ (x : LoopInstance). In x.current_state (declared d)) same
      (Walk-declared d d.initial_state j.current_state _ valid valid.starts_declared walk)
