-- ===== src/Service/Replay.antt =====
-- A provisioning with an idempotency key that is made again.
use loop_engine.Prelude.{◌≡◌, refl, sym, ap, ◌∙◌, String, Option, none, some}
use loop_engine.Core.{Platform}
use loop_engine.Service.{
  PersistedLoopInstance, CreateLoopInstanceInput, CreateAnswer, created_row, idempotency_conflict,
  unique_conflict, create_failed, LoopInstanceRepository, LoopInstanceDto, to_loop_instance_dto,
  Server, returned,
}
use loop_engine.Service.Provision.{
  ProvisionLoopInstanceInput, created, idempotent_replay, trimmed_key, create_input, find_key,
  find_replay, replay_winner, settle_create, insert_row, answer_winner, provision_at,
  answer_existing, provision_oss_loop_instance,
}

-- A row that was created with a key is found under it from then on.
abbrev pub KeepsKeys : {R : Type 0} → LoopInstanceRepository R → Type 0
KeepsKeys {R} repo =
    (c : CreateLoopInstanceInput) (r : R) (key : String) (row : PersistedLoopInstance)
    → c.idempotency_key ≡ some key
    → (repo.create_instance c r).0 ≡ created_row row
    → repo.find_by_idempotency_key (repo.create_instance c r).1 c.tenant_id key ≡ some row

-- The answer to an insertion is a row, which the DTO shows.
abbrev CreatedAs : Platform → CreateAnswer → LoopInstanceDto → Type 0
CreatedAs p answer dto =
    (row : PersistedLoopInstance) × (answer ≡ created_row row) × (dto ≡ to_loop_instance_dto p row)

-- What a provisioning that creates has done to the rows.
abbrev Creates :
    {R : Type 0}
    → Platform
    → LoopInstanceRepository R
    → ProvisionLoopInstanceInput
    → LoopInstanceDto
    → R
    → R
    → Type 0
Creates p repo input dto before after =
    (c : CreateLoopInstanceInput) × (c.tenant_id ≡ input.identity.tenant_id)
    × (c.idempotency_key ≡ trimmed_key p input)
    × CreatedAs p (repo.create_instance c before).0 dto
    × (after ≡ (repo.create_instance c before).1)

replay-found :
    {R : Type 0} (p : Platform) (repo : LoopInstanceRepository R)
    (input : ProvisionLoopInstanceInput) (r : R) (key : String) (row : PersistedLoopInstance)
    → trimmed_key p input ≡ some key
    → repo.find_by_idempotency_key r input.identity.tenant_id key ≡ some row
    → find_replay p repo input r ≡ some row
unfolding find_replay find_key
replay-found p repo input r key row keyed found = ap (λ k. find_key p repo input k r) keyed ∙ found

module _ {S T R : Type 0} (p : Platform) (repo : LoopInstanceRepository R) where
  winner-replays :
      (input : ProvisionLoopInstanceInput) (found : Option PersistedLoopInstance) (s : Server S T R)
      (dto : LoopInstanceDto)
      → ¬ ((answer_winner p repo input found s).0 ≡ returned (created dto))
  unfolding answer_winner
  winner-replays input none s dto h = cc h
  winner-replays input (some winner) s dto h = cc h

  settle-created :
      (input : ProvisionLoopInstanceInput) (answer : CreateAnswer) (s : Server S T R)
      (dto : LoopInstanceDto)
      → (settle_create p repo input answer s).0 ≡ returned (created dto)
      → CreatedAs p answer dto × ((settle_create p repo input answer s).1 ≡ s)
  unfolding settle_create replay_winner
  settle-created input (created_row row) s dto h = ((row, refl, cc h), refl)
  settle-created input (idempotency_conflict tenant key) s dto h =
      elim (winner-replays input (find_replay p repo input s.repo) s dto h) [ ]
  settle-created input (unique_conflict target) s dto h = cc h
  settle-created input create_failed s dto h = cc h

  at-created :
      (input : ProvisionLoopInstanceInput) (initial : Option String) (s : Server S T R)
      (dto : LoopInstanceDto)
      → (provision_at p repo input initial s).0 ≡ returned (created dto)
      → Creates p repo input dto s.repo (provision_at p repo input initial s).1.repo
  unfolding provision_at insert_row create_input
  at-created input none s dto h = cc h
  at-created input (some state) s dto h =
      let (made, kept) = settle-created input _ _ dto h in
      (_, refl, refl, made, ap (λ (x : Server S T R). x.repo) kept)

  existing-created :
      (input : ProvisionLoopInstanceInput) (found : Option PersistedLoopInstance) (s : Server S T R)
      (dto : LoopInstanceDto)
      → (answer_existing p repo input found s).0 ≡ returned (created dto)
      → Creates p repo input dto s.repo (answer_existing p repo input found s).1.repo
  unfolding answer_existing
  existing-created input none s dto h = at-created input _ s dto h
  existing-created input (some row) s dto h = cc h

  provision-created :
      (input : ProvisionLoopInstanceInput) (s : Server S T R) (dto : LoopInstanceDto)
      → (provision_oss_loop_instance p repo input s).0 ≡ returned (created dto)
      → Creates p repo input dto s.repo (provision_oss_loop_instance p repo input s).1.repo
  unfolding provision_oss_loop_instance
  provision-created input s dto h = existing-created input _ s dto h

  provision-found :
      (input : ProvisionLoopInstanceInput) (s : Server S T R) (key : String)
      (row : PersistedLoopInstance)
      → trimmed_key p input ≡ some key
      → repo.find_by_idempotency_key s.repo input.identity.tenant_id key ≡ some row
      → provision_oss_loop_instance p repo input s
        ≡ (returned (idempotent_replay (to_loop_instance_dto p row)), s)
  unfolding provision_oss_loop_instance answer_existing
  provision-found input s key row keyed found =
      ap (λ o. answer_existing p repo input o s)
        (replay-found p repo input s.repo key row keyed found)

  -- In a repository that finds a created row under its key, a provisioning with an idempotency key
  -- that created a loop is answered, when a provisioning of the same tenant with the same key follows,
  -- whatever else it asks for, as a replay with the loop created first, and it changes nothing.
  pub provision_oss_loop_instance_replays :
      (input again : ProvisionLoopInstanceInput) (s : Server S T R) (dto : LoopInstanceDto)
      (key : String)
      → KeepsKeys repo
      → trimmed_key p input ≡ some key
      → trimmed_key p again ≡ some key
      → again.identity.tenant_id ≡ input.identity.tenant_id
      → (provision_oss_loop_instance p repo input s).0 ≡ returned (created dto)
      → let after = (provision_oss_loop_instance p repo input s).1 in
        provision_oss_loop_instance p repo again after ≡ (returned (idempotent_replay dto), after)
  provision_oss_loop_instance_replays input again s dto key keeps keyed keyed_again same_tenant h =
      let after = (provision_oss_loop_instance p repo input s).1 in
      let (c, of_tenant, with_key, (row, answer, shown), stored) =
        provision-created input s dto h in
      let kept = keeps c s.repo key row (with_key ∙ keyed) answer in
      let found : repo.find_by_idempotency_key after.repo again.identity.tenant_id key ≡ some row =
        rw (stored, same_tenant, sym of_tenant) kept in
      provision-found again after key row keyed_again found
      ∙ ap (λ d. (returned (idempotent_replay d), after)) (sym shown)
