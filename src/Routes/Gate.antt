-- ===== src/Routes/Gate.antt =====
-- What a write has passed when it succeeds, and what it cannot reach.
use loop_engine.Prelude.{
  ℕ, ◌<◌, ◌≡◌, refl, ap, Bool, true, false, String, List, ◌++◌, [], ◌∷◌, put, filter, leb, length,
  arith, if◌then◌else◌,
}
use loop_engine.Auth.{RuntimeIdentity}
use loop_engine.Quota.{
  EntitlementsSnapshot, Windows, window, is_recent, runtime_allowed,
  transitions_per_minute_for_tier, record_transition_within_limit,
}
use loop_engine.Quota.Sliding.{in_last_minute, filter-in_last_minute}
use loop_engine.Service.{Served, returned, engine_threw, repository_threw, type_error}
use loop_engine.Routes.{
  Response, Request, Answer, given, denied, broken, error, WriteContext, Site, Handler, answer,
  run_handler, after_quota, within_quota, with_entitlements, with_identity,
  with_persisted_run_write,
}

-- The status that a request ends with; an error that no one catches is a 500.
abbrev pub status_of : Served Response → ℕ
status_of (returned r) = r.status
status_of (engine_threw e) = 500
status_of repository_threw = 500
status_of type_error = 500

record_transition-accepts :
    (tenant : String) (snapshot : EntitlementsSnapshot) (windows : Windows) (now : ℕ)
    → (record_transition_within_limit tenant snapshot windows now).0 ≡ true
    → length (filter (in_last_minute now) (window tenant windows))
      < transitions_per_minute_for_tier snapshot.tier
unfolding record_transition_within_limit
record_transition-accepts tenant snapshot windows now h =
    rw (filter-in_last_minute now (window tenant windows)) (go (leb limit (length recent)) refl h)
  where
    recent : List ℕ
    recent = filter (is_recent now) (window tenant windows)

    limit : ℕ
    limit = transitions_per_minute_for_tier snapshot.tier

    go :
        (b : Bool)
        → leb limit (length recent) ≡ b
        → (if◌then◌else◌ {A = Bool × Windows} b
            (false, put tenant recent windows)
            (true, put tenant (recent ++ now ∷ []) windows)).0
          ≡ true
        → length recent < limit
    go true e bad = cc bad
    go false e good = ground arith

module _ {S T R : Type 0} (ctx : WriteContext S T R) where
  -- What a successful write has passed, and that the handler alone made its answer and its changes.
  pub record Admitted (request : Request) (now : ℕ) (handler : Handler S T R) (site : Site S T R)
      (result : Served Response × Site S T R) : Type 0 where
    pub identity : RuntimeIdentity
    pub snapshot : EntitlementsSnapshot
    pub authenticated : ctx.authenticate request.authorization ≡ given identity
    pub entitled : ctx.entitlements_of identity.tenant_id ≡ given snapshot
    pub allowed : runtime_allowed snapshot ≡ true
    pub below_limit :
        length (filter (in_last_minute now) (window identity.tenant_id site.windows))
        < transitions_per_minute_for_tier snapshot.tier
    pub handled : (result.0, result.1.server) ≡ handler identity site.server

  module _ (message : EntitlementsSnapshot → String) (request : Request) (now : ℕ)
      (handler : Handler S T R) (site : Site S T R) where
    module _ (identity : RuntimeIdentity) (snapshot : EntitlementsSnapshot)
        (authenticated : ctx.authenticate request.authorization ≡ given identity)
        (entitled : ctx.entitlements_of identity.tenant_id ≡ given snapshot)
        (allowed : runtime_allowed snapshot ≡ true) where
      limited-Admitted :
          (x : Bool × Windows)
          → record_transition_within_limit identity.tenant_id snapshot site.windows now ≡ x
          → status_of (after_quota ctx handler identity x site).0 < 400
          → Admitted request now handler site (after_quota ctx handler identity x site)
      unfolding after_quota run_handler
      limited-Admitted (true, windows) e low = record {
        identity = identity;
        snapshot = snapshot;
        authenticated = authenticated;
        entitled = entitled;
        allowed = allowed;
        below_limit =
            record_transition-accepts identity.tenant_id snapshot site.windows now
              (ap (λ x. x.0) e);
        handled = refl;
      }
      limited-Admitted (false, windows) e low = ground arith

    quota-Admitted :
        (identity : RuntimeIdentity) (snapshot : EntitlementsSnapshot)
        → ctx.authenticate request.authorization ≡ given identity
        → ctx.entitlements_of identity.tenant_id ≡ given snapshot
        → status_of (within_quota ctx message handler identity now snapshot site).0 < 400
        → Admitted request now handler site
            (within_quota ctx message handler identity now snapshot site)
    unfolding within_quota
    quota-Admitted identity snapshot authenticated entitled h = go (runtime_allowed snapshot) refl h
      where
        result : Served Response × Site S T R
        result =
            after_quota ctx handler identity
              (record_transition_within_limit identity.tenant_id snapshot site.windows now) site

        go :
            (b : Bool)
            → runtime_allowed snapshot ≡ b
            → status_of (if b then result else answer ctx (error 403 (message snapshot)) site).0
              < 400
            → Admitted request now handler site
                (if b then result else answer ctx (error 403 (message snapshot)) site)
        go true e low = limited-Admitted identity snapshot authenticated entitled e _ refl low
        go false e low = ground arith

    entitled-Admitted :
        (identity : RuntimeIdentity) (found : Answer EntitlementsSnapshot)
        → ctx.authenticate request.authorization ≡ given identity
        → ctx.entitlements_of identity.tenant_id ≡ found
        → status_of (with_entitlements ctx message handler identity now found site).0 < 400
        → Admitted request now handler site
            (with_entitlements ctx message handler identity now found site)
    unfolding with_entitlements
    entitled-Admitted identity (given snapshot) e f low = quota-Admitted identity snapshot e f low
    entitled-Admitted identity (denied m) e f low = ground arith
    entitled-Admitted identity broken e f low = ground arith

    identity-Admitted :
        (found : Answer RuntimeIdentity)
        → ctx.authenticate request.authorization ≡ found
        → status_of (with_identity ctx message handler now found site).0 < 400
        → Admitted request now handler site (with_identity ctx message handler now found site)
    unfolding with_identity
    identity-Admitted (given identity) e low = entitled-Admitted identity _ e refl low
    identity-Admitted (denied m) e low = ground arith
    identity-Admitted broken e low = ground arith

  -- A write that ends with a status below 400 has passed the gate.
  pub with_persisted_run_write-Admitted :
      (message : EntitlementsSnapshot → String) (request : Request) (now : ℕ)
      (handler : Handler S T R) (site : Site S T R)
      → status_of (with_persisted_run_write ctx message request now handler site).0 < 400
      → Admitted request now handler site
          (with_persisted_run_write ctx message request now handler site)
  unfolding with_persisted_run_write
  with_persisted_run_write-Admitted message request now handler site low =
      identity-Admitted message request now handler site _ refl low
