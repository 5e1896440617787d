-- ===== src/Service.antt =====
-- packages/runtime-core: the operations of the service on top of the engine, the rows that it keeps
-- of its loops and the port to them (loop-instance-repository.ts), and its error monad.
pub mod Traced
pub mod InitialState
pub mod Prisma
pub mod Provision
pub mod Execution
pub mod Isolation
pub mod Inversion
pub mod Mirror
pub mod Replay
pub mod Ungoverned
pub mod DbAuth
use loop_engine.Prelude.{
  ℕ, suc, Bool, true, false, String, Option, none, some, List, [], ◌∷◌, if◌then◌else◌,
}
use loop_engine.Core.{
  Platform, Value, object, Fields, Number, Attributes, fields, Outcome, ok, threw, Failure,
}
use loop_engine.Runtime.World.{World}
use loop_engine.Service.Traced.{Host}

pub record PersistedLoopInstance : Type 0 where
  pub id : String
  pub aggregate_id : String
  pub loop_id : String
  pub tenant_id : String
  pub idempotency_key : Option String
  pub current_state : String
  pub status : String
  pub context : Value
  pub created_at : Number
  pub updated_at : Number

pub record CreateLoopInstanceInput : Type 0 where
  pub aggregate_id : String
  pub loop_id : String
  pub tenant_id : String
  pub idempotency_key : Option String
  pub current_state : String
  pub status : String
  pub context : Value

pub record UpdateLoopInstanceInput : Type 0 where
  pub tenant_id : String
  pub id : String
  pub current_state : String
  pub status : String

pub record AppendLoopEventInput : Type 0 where
  pub aggregate_id : String
  pub tenant_id : String
  pub type : String
  pub from_state : String
  pub to_state : String
  pub actor_id : String
  pub actor_type : String
  pub evidence : Option Attributes

-- The answers of `createInstance`; the two sentinel errors are told apart from every other error.
pub data CreateAnswer : Type 0 where
  created_row : PersistedLoopInstance → CreateAnswer
  idempotency_conflict : (tenant_id idempotency_key : String) → CreateAnswer
  unique_conflict : (target : List String) → CreateAnswer
  create_failed : CreateAnswer

-- `LoopInstanceRepository` over a type of stored states. A write that throws answers `none`.
pub record LoopInstanceRepository (R : Type 0) : Type 0 where
  pub find_by_aggregate_id : R → (tenant_id aggregate_id : String) → Option PersistedLoopInstance
  pub find_by_idempotency_key :
      R → (tenant_id idempotency_key : String) → Option PersistedLoopInstance
  pub create_instance : CreateLoopInstanceInput → R → CreateAnswer × R
  pub update_instance_state : UpdateLoopInstanceInput → R → Option PersistedLoopInstance × R
  pub append_event : AppendLoopEventInput → R → Option (Unit {0}) × R

pub record LoopInstanceDto : Type 0 where
  pub instance_id : String
  pub aggregate_id : String
  pub loop_id : String
  pub tenant_id : String
  pub current_state : String
  pub status : String
  pub context : Attributes
  pub created_at : String
  pub updated_at : String

abbrev pub context_of : Value → Attributes
context_of (object fs) = fields fs
context_of _ = []

unfoldable pub to_loop_instance_dto : Platform → PersistedLoopInstance → LoopInstanceDto
to_loop_instance_dto p row = record {
  instance_id = row.id;
  aggregate_id = row.aggregate_id;
  loop_id = row.loop_id;
  tenant_id = row.tenant_id;
  current_state = row.current_state;
  status = row.status;
  context = context_of row.context;
  created_at = p.date_iso row.created_at;
  updated_at = p.date_iso row.updated_at;
}

-- The host and the repository.
pub record Server (S T R : Type 0) : Type 0 where
  pub host : Host S T
  pub repo : R

pub data Served (A : Type 0) : Type 0 where
  returned : A → Served A
  engine_threw : Failure → Served A
  repository_threw type_error : Served A

abbrev pub N : (S T R A : Type 0) → Type 0
N S T R A = Server S T R → Served A × Server S T R

abbrev pub or_throw : {A : Type 0} → Option A → Served A
or_throw none = repository_threw
or_throw (some a) = returned a

abbrev pub served : {A : Type 0} → Outcome A → Served A
served (ok a) = returned a
served (threw e) = engine_threw e

module _ {S T R : Type 0} where
  abbrev pub return : {A : Type 0} → A → N S T R A
  return a s = (returned a, s)

  abbrev pub go_on :
      {A B : Type 0} → Served A × Server S T R → (A → N S T R B) → Served B × Server S T R
  go_on (returned a, s) f = f a s
  go_on (engine_threw e, s) f = (engine_threw e, s)
  go_on (repository_threw, s) f = (repository_threw, s)
  go_on (type_error, s) f = (type_error, s)

  infixl 5 ◌>>=◌ ◌>>◌
  abbrev pub ◌>>=◌ : {A B : Type 0} → N S T R A → (A → N S T R B) → N S T R B
  ◌>>=◌ m f s = go_on (m s) f

  abbrev pub ◌>>◌ : {B : Type 0} → N S T R (Unit {0}) → N S T R B → N S T R B
  m >> k = m >>= λ _. k

  -- A read of the repository.
  abbrev pub ask : {A : Type 0} → (R → A) → N S T R A
  ask f s = (returned (f s.repo), s)

  -- A write to the repository that may throw.
  unfoldable pub change : {A : Type 0} → (R → Option A × R) → N S T R A
  change f s = let (answer, repo) = f s.repo in (or_throw answer, record s { repo = repo })

  -- A call that works on the host.
  unfoldable pub on_host : {A : Type 0} → (Host S T → Outcome A × Host S T) → N S T R A
  on_host f s = let (r, host) = f s.host in (served r, record s { host = host })
