-- ===== src/Service/Prisma.antt =====
-- `PrismaLoopInstanceRepository` (packages/runtime-core/src/loop-instance-repository.ts) over the
-- tables of a database client, which is a parameter.
use loop_engine.Prelude.{
  Bool, false, String, Option, none, some, List, [], ◌∷◌, contains, if◌then◌else◌, ◌==◌,
}
use loop_engine.Core.{Value, str, array, object, items, fields, read}
use loop_engine.Service.{
  PersistedLoopInstance, CreateLoopInstanceInput, AppendLoopEventInput, CreateAnswer, created_row,
  idempotency_conflict, unique_conflict, create_failed, LoopInstanceRepository,
}

-- What `loopInstance.create` does: the row, or the error that it throws.
pub data Created : Type 0 where
  made : PersistedLoopInstance → Created
  refused_with : (error : Value) → Created

-- The calls on the client. A call that throws answers `none`.
pub record LoopInstanceTable (D : Type 0) : Type 0 where
  -- `findUnique` by `aggregateId` and by `tenantId_idempotencyKey`
  pub find_unique : D → (aggregate_id : String) → Option PersistedLoopInstance
  pub find_unique_key : D → (tenant_id idempotency_key : String) → Option PersistedLoopInstance
  pub create : CreateLoopInstanceInput → D → Created × D
  -- `update` of the two columns by `id`
  pub update : (id current_state status : String) → D → Option PersistedLoopInstance × D
  -- `loopEvent.create`
  pub create_event : AppendLoopEventInput → D → Option (Unit {0}) × D

-- `typeof t === "string"` as a filter.
unfoldable pub text_items : List Value → List String
text_items [] = []
text_items (str s ∷ vs) = s ∷ text_items vs
text_items (v ∷ vs) = text_items vs

unfoldable pub target_texts : Value → Option (List String)
target_texts (array vs) = some (text_items (items vs))
target_texts (str s) = some (s ∷ [])
target_texts _ = none

unfoldable pub meta_target : Value → Option (List String)
meta_target (object meta) = target_texts (read "target" (fields meta))
meta_target _ = none

abbrev pub is_text : String → Value → Bool
is_text t (str s) = s == t
is_text t _ = false

unfoldable pub extract_prisma_unique_target : Value → Option (List String)
extract_prisma_unique_target (object err) =
    if is_text "P2002" (read "code" (fields err))
    then meta_target (read "meta" (fields err))
    else none
extract_prisma_unique_target _ = none

-- The `catch` of `createInstance`, with the targets found.
unfoldable pub conflict_of : CreateLoopInstanceInput → Option (List String) → CreateAnswer
conflict_of input none = create_failed
conflict_of input (some target) = elim input.idempotency_key [
  | none ↦ unique_conflict target
  | some key ↦
      if contains "idempotencyKey" target
      then idempotency_conflict input.tenant_id key
      else unique_conflict target
]

unfoldable pub create_answer : CreateLoopInstanceInput → Created → CreateAnswer
create_answer input (made row) = created_row row
create_answer input (refused_with error) = conflict_of input (extract_prisma_unique_target error)

-- `!row || row.tenantId !== tenantId`.
unfoldable pub of_tenant : String → Option PersistedLoopInstance → Option PersistedLoopInstance
of_tenant tenant none = none
of_tenant tenant (some row) = if row.tenant_id == tenant then some row else none

module _ {D : Type 0} (db : LoopInstanceTable D) where
  unfoldable pub prisma_create_instance : CreateLoopInstanceInput → D → CreateAnswer × D
  prisma_create_instance input d =
      let (answer, after) = db.create input d in (create_answer input answer, after)

  unfoldable pub prisma_loop_instance_repository : LoopInstanceRepository D
  prisma_loop_instance_repository = record {
    find_by_aggregate_id = λ d tenant aggregate. of_tenant tenant (db.find_unique d aggregate);
    find_by_idempotency_key = λ d tenant key. db.find_unique_key d tenant key;
    create_instance = prisma_create_instance;
    update_instance_state = λ input d. db.update input.id input.current_state input.status d;
    append_event = db.create_event;
  }
