-- ===== src/Service/Provision.antt =====
-- `provisionOssLoopInstance` (packages/runtime-core/src/loop-execution.ts).
use loop_engine.Prelude.{suc, String, Option, none, some, List, if◌then◌else◌, ◌==◌}
use loop_engine.Core.{Platform, Value, object, object_of, Attributes}
use loop_engine.Auth.{RuntimeIdentity}
use loop_engine.Service.{
  PersistedLoopInstance, CreateLoopInstanceInput, CreateAnswer, created_row, idempotency_conflict,
  unique_conflict, create_failed, LoopInstanceRepository, LoopInstanceDto, to_loop_instance_dto,
  returned, repository_threw, N, return, ◌>>=◌, ask,
}
use loop_engine.Service.InitialState.{parse_initial_state}

pub record ProvisionLoopInstanceInput : Type 0 where
  pub identity : RuntimeIdentity
  pub loop_id : String
  pub payload : Attributes
  pub idempotency_key : Option String
  pub definition : Value

pub data ProvisionLoopInstanceOutcome : Type 0 where
  created idempotent_replay : LoopInstanceDto → ProvisionLoopInstanceOutcome
  invalid_definition : ProvisionLoopInstanceOutcome
  conflict : (target : List String) → ProvisionLoopInstanceOutcome

module _ (p : Platform) (input : ProvisionLoopInstanceInput) where
  -- `input.idempotencyKey?.trim() || undefined`.
  unfoldable pub trimmed_key : Option String
  trimmed_key = elim input.idempotency_key [
    | none ↦ none
    | some k ↦ if p.trim k == "" then none else some (p.trim k)
  ]

  unfoldable pub create_input : String → String → CreateLoopInstanceInput
  create_input initial_state aggregate_id = record {
    aggregate_id = aggregate_id;
    loop_id = input.loop_id;
    tenant_id = input.identity.tenant_id;
    idempotency_key = trimmed_key;
    current_state = initial_state;
    status = "CREATED";
    context = object (object_of input.payload);
  }

module _ {R : Type 0} (p : Platform) (repo : LoopInstanceRepository R)
    (input : ProvisionLoopInstanceInput) where
  unfoldable pub find_key : Option String → R → Option PersistedLoopInstance
  find_key none r = none
  find_key (some key) r = repo.find_by_idempotency_key r input.identity.tenant_id key

  -- The row with the key, where a key is given.
  unfoldable pub find_replay : R → Option PersistedLoopInstance
  find_replay = find_key (trimmed_key p input)

module _ {S T R : Type 0} (p : Platform) (repo : LoopInstanceRepository R)
    (input : ProvisionLoopInstanceInput) where
  abbrev repository_fails : {A : Type 0} → N S T R A
  repository_fails s = (repository_threw, s)

  unfoldable pub answer_winner : Option PersistedLoopInstance → N S T R ProvisionLoopInstanceOutcome
  answer_winner none = repository_fails
  answer_winner (some winner) = return (idempotent_replay (to_loop_instance_dto p winner))

  -- The `catch` branch of an idempotency conflict: the winner is read again.
  unfoldable pub replay_winner : N S T R ProvisionLoopInstanceOutcome
  replay_winner = do found ← ask (find_replay p repo input); answer_winner found

  unfoldable pub settle_create : CreateAnswer → N S T R ProvisionLoopInstanceOutcome
  settle_create (created_row row) = return (created (to_loop_instance_dto p row))
  settle_create (idempotency_conflict tenant key) = replay_winner
  settle_create (unique_conflict target) = return (conflict target)
  settle_create create_failed = repository_fails

  -- `randomUUID()` and the insertion.
  unfoldable pub insert_row : String → N S T R CreateAnswer
  insert_row initial_state s =
      let w = s.host.world in
      let (answer, r) =
        repo.create_instance (create_input p input initial_state (p.random_uuid w.moment)) s.repo in
      (
        returned answer,
        record s { repo = r; host = record s.host { world = record w { moment = suc w.moment } } },
      )

  -- From the parsed initial state on.
  unfoldable pub provision_at : Option String → N S T R ProvisionLoopInstanceOutcome
  provision_at none = return invalid_definition
  provision_at (some initial_state) = insert_row initial_state >>= settle_create

  -- From the row that was found under the key on.
  unfoldable pub answer_existing :
      Option PersistedLoopInstance → N S T R ProvisionLoopInstanceOutcome
  answer_existing none = provision_at (parse_initial_state p input.definition)
  answer_existing (some row) = return (idempotent_replay (to_loop_instance_dto p row))

  unfoldable pub provision_oss_loop_instance : N S T R ProvisionLoopInstanceOutcome
  provision_oss_loop_instance = do
    existing ← ask (find_replay p repo input)
    answer_existing existing
