-- ===== src/Actors.antt =====
-- packages/actors: who may take a transition (actors/src/authorization.ts).
pub mod Authorization
use loop_engine.Prelude.{
  Bool, true, false, ◌&&◌, String, Option, none, some, List, if◌then◌else◌, any, contains,
}
use loop_engine.Core.{ActorRef, ActorType, ai_agent, TransitionSpec, same_actor_type}

pub record AiActorConstraints : Type 0 where
  pub requires_human_approval_for : Option (List String)

pub record ActorAuthorizationResult : Type 0 where
  pub authorized : Bool
  pub requires_approval : Bool
  pub reason : Option String

-- `transition.actors.includes(type)`.
unfoldable pub includes_actor : ActorType → List ActorType → Bool
includes_actor t = any (same_actor_type t)

-- `constraints?.requiresHumanApprovalFor?.includes(id)`, as the test reads it.
unfoldable pub lists : Option (List String) → String → Bool
lists none id = false
lists (some ids) id = contains id ids

unfoldable pub lists_transition : Option AiActorConstraints → String → Bool
lists_transition none id = false
lists_transition (some c) id = lists c.requires_human_approval_for id

unfoldable pub can_actor_execute_transition :
    ActorRef → TransitionSpec → Option AiActorConstraints → ActorAuthorizationResult
can_actor_execute_transition actor transition constraints =
    if includes_actor actor.type transition.actors
    then if same_actor_type actor.type ai_agent && lists_transition constraints transition.id
      then record { authorized = true; requires_approval = true; reason = none }
      else record { authorized = true; requires_approval = false; reason = none }
    else record {
      authorized = false;
      requires_approval = false;
      reason = some "Actor type not allowed for this transition";
    }
