-- ===== src/Actors/Authorization.antt =====
-- What an authorization says of the actor (actors/src/authorization.ts).
use loop_engine.Prelude.{
  true, ◌≡◌, refl, sym, ||-true, true_||, ◌↔◌, inl, inr, String, Option, none, some, List, [], ◌∷◌,
  arith, In, any, contains_iff,
}
use loop_engine.Core.{ActorRef, ActorType, TransitionSpec, same_actor_type, ai_agent}
use loop_engine.Actors.{
  AiActorConstraints, includes_actor, lists, lists_transition, can_actor_execute_transition,
}

pub same_actor_type_iff : (a b : ActorType) → (same_actor_type a b ≡ true) ↔ (a ≡ b)
unfolding same_actor_type
same_actor_type_iff a b = ground arith

includes_actor_iff : (t : ActorType) (ts : List ActorType) → (includes_actor t ts ≡ true) ↔ In t ts
unfolding includes_actor any
includes_actor_iff t [] = (λ h. cc, λ m. elim m [ ])
includes_actor_iff t (x ∷ ts) =
    let head = same_actor_type_iff t x in
    let tail = includes_actor_iff t ts in
    (
      λ h. elim (||-true _ _ h) [ inl e ↦ inl (sym (head.0 e)) | inr e ↦ inr (tail.0 e) ],
      λ m. elim m [ inl e ↦ rw (head.1 (sym e)) refl | inr e ↦ true_|| _ (tail.1 e) ],
    )

-- The approval list names the transition.
abbrev pub ListedIn : Option (List String) → String → Type 0
ListedIn none id = ⊥
ListedIn (some ids) id = In id ids

abbrev pub NeedsApproval : Option AiActorConstraints → String → Type 0
NeedsApproval none id = ⊥
NeedsApproval (some c) id = ListedIn c.requires_human_approval_for id

lists_iff : (ids : Option (List String)) (id : String) → (lists ids id ≡ true) ↔ ListedIn ids id
unfolding lists
lists_iff none id = (λ h. cc, λ h. elim h [ ])
lists_iff (some ids) id = contains_iff id ids

lists_transition_iff :
    (constraints : Option AiActorConstraints) (id : String)
    → (lists_transition constraints id ≡ true) ↔ NeedsApproval constraints id
unfolding lists_transition
lists_transition_iff none id = (λ h. cc, λ h. elim h [ ])
lists_transition_iff (some c) id = lists_iff c.requires_human_approval_for id

-- An actor is authorized exactly when its type is among the transition's actors, and has to wait for
-- approval exactly when it is moreover an AI agent and the constraints list the transition.
pub can_actor_execute_transition_iff :
    (actor : ActorRef) (t : TransitionSpec) (constraints : Option AiActorConstraints)
    → (((can_actor_execute_transition actor t constraints).authorized ≡ true)
        ↔ In actor.type t.actors)
      × (((can_actor_execute_transition actor t constraints).requires_approval ≡ true)
          ↔ (In actor.type t.actors × (actor.type ≡ ai_agent) × NeedsApproval constraints t.id))
unfolding can_actor_execute_transition
can_actor_execute_transition_iff actor t constraints =
    let member = includes_actor_iff actor.type t.actors in
    let agent = same_actor_type_iff actor.type ai_agent in
    let listed = lists_transition_iff constraints t.id in
    (
      (λ h. member.0 (ground arith), λ m. ground (arith, member.1 m)),
      (
        λ h. (member.0 (ground arith), agent.0 (ground arith), listed.0 (ground arith)),
        λ (m, a, l). ground (arith, member.1 m, agent.1 a, listed.1 l),
      ),
    )
