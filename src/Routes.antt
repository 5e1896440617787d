-- ===== src/Routes.antt =====
-- packages/runtime-routes: what stands before every write (with-persisted-run-write.ts), and the
-- responses.
pub mod Loops
pub mod Gate
pub mod Limit
pub mod Runs
use loop_engine.Prelude.{ℕ, Bool, true, false, String, Option, none, some, Dict, if◌then◌else◌}
use loop_engine.Core.{Value, object, object_of}
use loop_engine.Auth.{RuntimeIdentity}
use loop_engine.Quota.{
  EntitlementsSnapshot, Windows, runtime_allowed, record_transition_within_limit,
}
use loop_engine.Runtime.World.{Options}
use loop_engine.Service.{LoopInstanceRepository, LoopInstanceDto, Server, Served, returned}
use loop_engine.Service.Traced.{TraceStore}
use loop_engine.Service.Execution.{ExecutedTransition}

-- The JSON of a response.
pub data Body : Type 0 where
  error_body : String → Body
  fields_body : (error : String) → (field message : String) → Body
  instance_body : LoopInstanceDto → (idempotent : Bool) → Body
  started_body : (aggregate_id current_state status : String) → Body
  transition_body : ExecutedTransition → Body

pub record Response : Type 0 where
  pub status : ℕ
  pub body : Body

abbrev pub error : ℕ → String → Response
error status message = record { status = status; body = error_body message }

abbrev pub invalid : (field message : String) → Response
invalid field message = record {
  status = 422;
  body = fields_body "Invalid request body" field message;
}

-- A request: the header `authorization`, and the parsed body, `none` where the parser throws.
pub record Request : Type 0 where
  pub authorization : Option String
  pub json : Option Value

-- What an adapter answers: a value, its own sentinel error, or another error.
pub data Answer (A : Type 0) : Type 0 where
  given : A → Answer A
  denied : (message : String) → Answer A
  broken : Answer A

-- `WriteRuntimeContext`: the adapters, which are ports.
pub record WriteContext (S T R : Type 0) : Type 0 where
  pub authenticate : Option String → Answer RuntimeIdentity
  pub entitlements_of : (tenant_id : String) → Answer EntitlementsSnapshot
  pub loop_instance_repository : LoopInstanceRepository R
  pub engine_for_tenant : (tenant_id : String) → Options S
  pub trace_store_for_tenant : (tenant_id : String) → TraceStore T
  pub resolve_loop_definition : (tenant_id loop_id : String) → Option Value

-- The server, and `WRITE_RATE_LIMIT_WINDOWS`.
pub record Site (S T R : Type 0) : Type 0 where
  pub server : Server S T R
  pub windows : Windows

abbrev pub Handler : (S T R : Type 0) → Type 0
Handler S T R = RuntimeIdentity → Server S T R → Served Response × Server S T R

module _ {S T R : Type 0} (ctx : WriteContext S T R) where
  abbrev answer : Response → Site S T R → Served Response × Site S T R
  answer r site = (returned r, site)

  unfoldable pub run_handler :
      Handler S T R → RuntimeIdentity → Site S T R → Served Response × Site S T R
  run_handler handler identity site =
      let (r, server) = handler identity site.server in (r, record site { server = server })

  -- From the answer of the limiter on.
  unfoldable pub after_quota :
      Handler S T R → RuntimeIdentity → Bool × Windows → Site S T R → Served Response × Site S T R
  after_quota handler identity (true, windows) site =
      run_handler handler identity (record site { windows = windows })
  after_quota handler identity (false, windows) site =
      answer (error 429 "Transition rate limit exceeded. Retry in 60 seconds.")
        (record site { windows = windows })

  -- From the entitlements on; `denied_message` is that of the tier's check.
  unfoldable pub within_quota :
      (denied_message : EntitlementsSnapshot → String)
      → Handler S T R
      → RuntimeIdentity
      → (now : ℕ) → EntitlementsSnapshot
      → Site S T R
      → Served Response × Site S T R
  within_quota denied_message handler identity now snapshot site =
      if runtime_allowed snapshot
      then after_quota handler identity
          (record_transition_within_limit identity.tenant_id snapshot site.windows now) site
      else answer (error 403 (denied_message snapshot)) site

  unfoldable pub with_entitlements :
      (denied_message : EntitlementsSnapshot → String)
      → Handler S T R
      → RuntimeIdentity
      → (now : ℕ) → Answer EntitlementsSnapshot
      → Site S T R
      → Served Response × Site S T R
  with_entitlements denied_message handler identity now (given snapshot) =
      within_quota denied_message handler identity now snapshot
  with_entitlements denied_message handler identity now (denied message) =
      answer (error 403 message)
  with_entitlements denied_message handler identity now broken =
      answer (error 500 "Entitlements lookup failed")

  unfoldable pub with_identity :
      (denied_message : EntitlementsSnapshot → String)
      → Handler S T R
      → (now : ℕ) → Answer RuntimeIdentity
      → Site S T R
      → Served Response × Site S T R
  with_identity denied_message handler now (given identity) =
      with_entitlements denied_message handler identity now (ctx.entitlements_of identity.tenant_id)
  with_identity denied_message handler now (denied message) = answer (error 401 message)
  with_identity denied_message handler now broken = answer (error 500 "Auth lookup failed")

  unfoldable pub with_persisted_run_write :
      (denied_message : EntitlementsSnapshot → String)
      → Request
      → (now : ℕ) → Handler S T R
      → Site S T R
      → Served Response × Site S T R
  with_persisted_run_write denied_message request now handler =
      with_identity denied_message handler now (ctx.authenticate request.authorization)
