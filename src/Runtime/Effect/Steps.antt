-- ===== src/Runtime/Effect/Steps.antt =====
-- The steps of `transition` that leave the store and the inserted evidence alone, and what is reported after a move.
use loop_engine.Prelude.{◌≡◌, refl, Bool, true, false, String, some, List, if◌then◌else◌}
use loop_engine.Core.{
  Attributes, LoopDefinition, TransitionSpec, LoopInstance, Outcome, GuardSeverity, is_completed,
}
use loop_engine.Events.{GuardFailure, EventBase, LoopEvent, transition_executed}
use loop_engine.Guards.{GuardEvaluationResult}
use loop_engine.Runtime.World.{World, Options, M, pure, ◌>>◌, emit}
use loop_engine.Runtime.Transition.{
  TransitionParams, TransitionResult, executed, moved, create_here, request, check_guards,
  report_failure, report_move, move, announce_completion, announce,
}
use loop_engine.Runtime.Rules.{
  Durable, durable, Quiet, after_quiet, emit-Quiet, create-Quiet, announce-Quiet,
}
use loop_engine.Runtime.Effect.{Reports}

module _ {S : Type 0} (o : Options S) (p : TransitionParams) (d : LoopDefinition) (i : LoopInstance)
    (t : TransitionSpec) where
  pub create_here-Quiet : (event : EventBase → LoopEvent) → Quiet (create_here o p d i t event)
  unfolding create_here
  create_here-Quiet event = create-Quiet o _ _ _ event

  pub request-Quiet : Quiet (request o p d i t)
  unfolding request
  request-Quiet = announce-Quiet o _ (create_here-Quiet _)

  pub report_failure-Quiet :
      (severity : GuardSeverity) (f : GuardEvaluationResult)
      → Quiet (report_failure o p d i t severity f)
  unfolding report_failure
  report_failure-Quiet severity f = announce-Quiet o _ (create_here-Quiet _)

  pub announce_completion-Quiet :
      (updated : LoopInstance) (now : String) → Quiet (announce_completion o p d i t updated now)
  unfolding announce_completion
  announce_completion-Quiet updated now = announce-Quiet o _ (create_here-Quiet _)

  pub check_guards-Quiet : Quiet (check_guards o p d i t)
  unfolding check_guards
  check_guards-Quiet w = refl

  completion_if-Quiet :
      (b : Bool) (updated : LoopInstance) (now : String)
      → Quiet (if b then announce_completion o p d i t updated now else pure tt)
  completion_if-Quiet true updated now w = announce_completion-Quiet updated now w
  completion_if-Quiet false updated now w = refl

  -- After the two writes the store is left alone, and the result reports the move.
  abbrev pub Reported : Durable S → Outcome TransitionResult × World S → Type 0
  Reported s x = (durable x.1 ≡ s) × Reports i.current_state t.to x.0

  report_move-Reported :
      (warnings : List GuardFailure) (updated : LoopInstance) (now : String) (event : LoopEvent)
      (s : Durable S) (w : World S)
      → durable w ≡ s
      → Reported s (report_move o p d i t warnings updated now event w)
  unfolding report_move
  report_move-Reported warnings updated now event s =
      let finish : M S TransitionResult = pure (executed i.current_state t.to warnings event) in
      let complete : M S (Unit {0}) =
        if is_completed updated.status
        then announce_completion o p d i t updated now
        else pure tt in
      after_quiet (Reported s) s (emit o event) (λ _. complete >> finish) (emit-Quiet o event)
        (λ e w h. (h, tt))
        λ _.
          after_quiet (Reported s) s complete (λ _. finish) (completion_if-Quiet _ updated now)
            (λ e w h. (h, tt)) (λ _ w h. (h, (refl, refl)))

  pub announce-Reported :
      (warnings : List GuardFailure) (ev : Attributes) (now : String) (w : World S)
      → Reported (durable w) (announce o p d i t warnings ev now w)
  unfolding announce
  announce-Reported warnings ev now w =
      after_quiet (Reported (durable w)) (durable w)
        (create_here o p d i t
          (λ b. transition_executed b (move o p d i t) t.to t.signal (some ev) warnings))
        (report_move o p d i t warnings (moved d i t now) now) (create_here-Quiet _)
        (λ e w' h. (h, tt)) (λ event. report_move-Reported warnings _ now event (durable w)) w refl
