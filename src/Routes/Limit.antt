-- ===== src/Routes/Limit.antt =====
-- The writes of a server one after another, and the limit on them
-- (packages/runtime-routes/src/with-persisted-run-write.ts).
use loop_engine.Prelude.{
  ℕ, suc, ◌≤◌, ◌<◌, ◌≡◌, refl, sym, ap, ◌∙◌, inl, inr, Bool, true, false, ◌&&◌, String, List, [],
  ◌∷◌, ◌++◌, put, filter, leb, ltb, length, length-append, arith, Bool-cases, if◌then◌else◌, ◌==◌,
  eq_of_==,
}
use loop_engine.Core.{number, ge_number}
use loop_engine.Auth.{RuntimeIdentity}
use loop_engine.Quota.{
  EntitlementsSnapshot, Windows, window, is_recent, runtime_allowed,
  transitions_per_minute_for_tier, record_transition_within_limit,
}
use loop_engine.Quota.Window.{filter-append, filter-filter}
use loop_engine.Quota.Sliding.{in_last_minute, filter-in_last_minute, window-put}
use loop_engine.Service.{Served}
use loop_engine.Routes.{
  Response, Request, Answer, given, denied, broken, answer, error, WriteContext, Site, Handler,
  after_quota, run_handler, within_quota, with_entitlements, with_identity,
  with_persisted_run_write,
}
use loop_engine.Routes.Gate.{status_of, with_persisted_run_write-Admitted}

-- The writes that succeeded: whose they were, and when.
abbrev Log : Type 0
Log = List (String × ℕ)

-- The successful writes of a tenant in the minute before `now`.
abbrev pub successes : (tenant : String) → (now : ℕ) → Log → ℕ
successes tenant now [] = 0
successes tenant now ((who, t) ∷ log) =
    let rest = successes tenant now log in
    if who == tenant && in_last_minute now t then suc rest else rest

abbrev hits_at : (tenant : String) → (now : ℕ) → Windows → ℕ
hits_at tenant now windows = length (filter (in_last_minute now) (window tenant windows))

-- From `t` on the windows count every success.
abbrev Covers : ℕ → Windows → Log → Type 0
Covers t windows log =
    (tenant : String) (now : ℕ) → t ≤ now → successes tenant now log ≤ hits_at tenant now windows

length-recent :
    (now : ℕ) (xs : List ℕ)
    → length (filter (in_last_minute now) xs) ≡ length (filter (is_recent now) xs)
length-recent now xs = ap length (filter-in_last_minute now xs)

-- Pruning at `now` loses nothing that counts later.
length-pruned :
    (now later : ℕ) (xs : List ℕ)
    → now ≤ later
    → length (filter (in_last_minute later) (filter (is_recent now) xs))
      ≡ length (filter (in_last_minute later) xs)
length-pruned now later xs h =
    length-recent later (filter (is_recent now) xs)
    ∙ ap length (filter-filter now later xs h)
    ∙ sym (length-recent later xs)

length-added :
    (now later : ℕ) (xs : List ℕ)
    → now ≤ later
    → length (filter (in_last_minute later) (filter (is_recent now) xs ++ now ∷ [])) ≡ (
        if in_last_minute later now
        then suc (length (filter (in_last_minute later) xs))
        else length (filter (in_last_minute later) xs))
unfolding filter
length-added now later xs h =
    let kept = filter (is_recent now) xs in
    let parts = ap length (filter-append (in_last_minute later) kept (now ∷ [])) in
    let sum =
      length-append (filter (in_last_minute later) kept)
        (filter (in_last_minute later) (now ∷ [])) in
    ground (arith, parts, sum, length-pruned now later xs h)

module _ (tenant : String) (now : ℕ) (windows : Windows) (other : String) (later : ℕ)
    (h : now ≤ later) where
  recent : List ℕ
  recent = filter (is_recent now) (window tenant windows)

  hits-put :
      (ts : List ℕ)
      → hits_at other later (put tenant ts windows) ≡ (
          if tenant == other
          then length (filter (in_last_minute later) ts)
          else hits_at other later windows)
  hits-put ts = elim (Bool-cases (tenant == other)) [
    | inl here ↦ rw (window-put tenant other ts windows, here) refl
    | inr there ↦ rw (window-put tenant other ts windows, there) refl
  ]

  own_hits : (tenant == other) ≡ true → hits_at tenant later windows ≡ hits_at other later windows
  own_hits here = ap (λ x. hits_at x later windows) (eq_of_== here)

  hits-pruned : hits_at other later (put tenant recent windows) ≡ hits_at other later windows
  unfolding recent
  hits-pruned = elim (Bool-cases (tenant == other)) [
    | inl here ↦
        hits-put recent
        ∙ rw here (length-pruned now later (window tenant windows) h ∙ own_hits here)
    | inr there ↦ hits-put recent ∙ rw there refl
  ]

  hits-added : hits_at other later (put tenant (recent ++ now ∷ []) windows) ≡ (
      if tenant == other && in_last_minute later now
      then suc (hits_at other later windows)
      else hits_at other later windows)
  unfolding recent
  hits-added = elim (Bool-cases (tenant == other)) [
    | inl here ↦
        hits-put (recent ++ now ∷ [])
        ∙ rw here (length-added now later (window tenant windows) h ∙ rw (own_hits here) refl)
    | inr there ↦ hits-put (recent ++ now ∷ []) ∙ rw there refl
  ]

-- A call of the limiter keeps the cover, and covers its own success where it is accepted.
limiter-Covers :
    (tenant : String) (snapshot : EntitlementsSnapshot) (windows : Windows) (now : ℕ) (log : Log)
    → Covers now windows log
    → let (accepted, after) = record_transition_within_limit tenant snapshot windows now in
      Covers now after log × (accepted ≡ true → Covers now after ((tenant, now) ∷ log))
unfolding record_transition_within_limit recent
limiter-Covers tenant snapshot windows now log covers = go (
    leb (transitions_per_minute_for_tier snapshot.tier)
      (length (filter (is_recent now) (window tenant windows))))
  where
    go :
        (full : Bool)
        → let (accepted, after) =
            if◌then◌else◌ {A = Bool × Windows} full
              (false, put tenant (filter (is_recent now) (window tenant windows)) windows)
              (
                true,
                put tenant (filter (is_recent now) (window tenant windows) ++ now ∷ []) windows,
              ) in
          Covers now after log × (accepted ≡ true → Covers now after ((tenant, now) ∷ log))
    go true = (
      λ other later h. rw (hits-pruned tenant now windows other later h) (covers other later h),
      λ bad. cc,
    )
    go false = (
      λ other later h.
          let before = covers other later h in
          rw (hits-added tenant now windows other later h) (ground (arith, before)),
      λ e other later h.
          let before = covers other later h in
          rw (hits-added tenant now windows other later h) (ground (arith, before)),
    )

-- One write, as it arrives.
pub record Write (S T R : Type 0) : Type 0 where
  pub request : Request
  pub now : ℕ
  pub handler : Handler S T R

module _ {S T R : Type 0} (ctx : WriteContext S T R) (message : EntitlementsSnapshot → String) where
  unfoldable pub perform : Write S T R → Site S T R → Served Response × Site S T R
  perform w = with_persisted_run_write ctx message w.request w.now w.handler

  abbrev credited : Answer RuntimeIdentity → ℕ → Log
  credited (given identity) now = (identity.tenant_id, now) ∷ []
  credited (denied m) now = []
  credited broken now = []

  -- What a write adds to the log.
  abbrev success : Write S T R → Site S T R → Log
  success w site =
      if ltb (status_of (perform w site).0) 400
      then credited (ctx.authenticate w.request.authorization) w.now
      else []

  -- The site after some writes, and the log of those that succeeded.
  abbrev pub run : List (Write S T R) → Site S T R → Log → Site S T R × Log
  run [] site log = (site, log)
  run (w ∷ ws) site log = run ws (perform w site).1 (success w site ++ log)

  -- The writes come in the order of time, from `t` on, and end by `last`.
  abbrev InOrder : ℕ → List (Write S T R) → ℕ → Type 0
  InOrder t [] last = t ≤ last
  InOrder t (w ∷ ws) last = (t ≤ w.now) × InOrder w.now ws last

  -- What a write does to the windows, and that its success is covered.
  abbrev Counts :
      Write S T R
      → Site S T R
      → Log
      → Answer RuntimeIdentity
      → Served Response × Site S T R
      → Type 0
  Counts w site log found x =
      Covers w.now x.1.windows
        ((if ltb (status_of x.0) 400 then credited found w.now else []) ++ log)

  perform-Counts :
      (w : Write S T R) (site : Site S T R) (log : Log)
      → Covers w.now site.windows log
      → Counts w site log (ctx.authenticate w.request.authorization) (perform w site)
  unfolding perform with_persisted_run_write with_identity with_entitlements within_quota
      after_quota run_handler
  perform-Counts w site log covers = identity (ctx.authenticate w.request.authorization)
    where
      limited :
          (i : RuntimeIdentity) (x : Bool × Windows)
          → Covers w.now x.1 log × (x.0 ≡ true → Covers w.now x.1 ((i.tenant_id, w.now) ∷ log))
          → Counts w site log (given i) (after_quota ctx w.handler i x site)
      limited i (true, windows) (kept, counted) = go (ltb _ 400)
        where
          go :
              (b : Bool)
              → Covers w.now windows ((if b then (i.tenant_id, w.now) ∷ [] else []) ++ log)
          go true = counted refl
          go false = kept
      limited i (false, windows) (kept, counted) = kept

      quota :
          (i : RuntimeIdentity) (snapshot : EntitlementsSnapshot) (allowed : Bool)
          → Counts w site log (given i) (
              if allowed
              then after_quota ctx w.handler i
                  (record_transition_within_limit i.tenant_id snapshot site.windows w.now)
                  site
              else answer ctx (error 403 (message snapshot)) site)
      quota i snapshot true =
          limited i _ (limiter-Covers i.tenant_id snapshot site.windows w.now log covers)
      quota i snapshot false = covers

      entitlements :
          (i : RuntimeIdentity) (found : Answer EntitlementsSnapshot)
          → Counts w site log (given i) (with_entitlements ctx message w.handler i w.now found site)
      entitlements i (given snapshot) = quota i snapshot (runtime_allowed snapshot)
      entitlements i (denied m) = covers
      entitlements i broken = covers

      identity :
          (found : Answer RuntimeIdentity)
          → Counts w site log found (with_identity ctx message w.handler w.now found site)
      identity (given i) = entitlements i (ctx.entitlements_of i.tenant_id)
      identity (denied m) = covers
      identity broken = covers

  Covers-later :
      (t now : ℕ) (windows : Windows) (log : Log)
      → t ≤ now
      → Covers t windows log
      → Covers now windows log
  Covers-later t now windows log h covers tenant later h' =
      covers tenant later (omega (arith, h, h'))

  run-Covers :
      (t last : ℕ) (ws : List (Write S T R)) (site : Site S T R) (log : Log)
      → InOrder t ws last
      → Covers t site.windows log
      → Covers last (run ws site log).0.windows (run ws site log).1
  run-Covers t last [] site log h covers = Covers-later t last site.windows log h covers
  run-Covers t last (w ∷ ws) site log (h, order) covers =
      run-Covers w.now last ws _ _ order
        (perform-Counts w site log (Covers-later t w.now site.windows log h covers))

  -- After any writes in the order of time, from a site that has seen none, a write that ends with a
  -- status below 400 was authenticated; the tier of its tenant is not at most 0; fewer writes of this
  -- tenant succeeded in the minute before it than the limit of the tier; and its answer and the
  -- server after it are those of the handler, run once for the authenticated identity.
  pub with_persisted_run_write_admits :
      (ws : List (Write S T R)) (w : Write S T R) (site : Site S T R)
      → site.windows ≡ []
      → InOrder 0 ws w.now
      → status_of (perform w (run ws site []).0).0 < 400
      → (identity : RuntimeIdentity) × (snapshot : EntitlementsSnapshot) × (ctx.authenticate
            w.request.authorization
          ≡ given identity)
        × (ctx.entitlements_of identity.tenant_id ≡ given snapshot)
        × (ge_number (number 0) snapshot.tier ≡ false)
        × (successes identity.tenant_id w.now (run ws site []).1
            < transitions_per_minute_for_tier snapshot.tier)
        × ((perform w (run ws site []).0).0, (perform w (run ws site []).0).1.server)
          ≡ w.handler identity (run ws site []).0.server
  unfolding perform runtime_allowed
  with_persisted_run_write_admits ws w site fresh order low =
      let before = (run ws site []).0 in
      let a = with_persisted_run_write-Admitted ctx message w.request w.now w.handler before low in
      let covers =
        run-Covers 0 w.now ws site [] order (λ tenant later h. omega arith) a.identity.tenant_id
          w.now (omega arith) in
      (
        a.identity,
        a.snapshot,
        a.authenticated,
        a.entitled,
        ground (arith, a.allowed),
        omega (arith, covers, a.below_limit),
        a.handled,
      )
