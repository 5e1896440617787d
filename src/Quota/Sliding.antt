-- ===== src/Quota/Sliding.antt =====
-- The limiter against its specification: a tenant's accepted calls of the last minute are counted over
-- the whole history of its accepted calls (entitlements-iface/src/quota.ts).
use loop_engine.Prelude.{
  subst, eq_of_==, ℕ, ◌-◌, ◌≤◌, ◌≡◌, refl, sym, ap, ◌∙◌, inl, inr, Bool, true, false, String, List,
  [], ◌∷◌, ◌++◌, put, get-put, filter, leb, length, length-append, arith, Bool-cases, if◌then◌else◌,
  ◌==◌,
}
use loop_engine.Quota.{
  EntitlementsSnapshot, Windows, window, is_recent, transitions_per_minute_for_tier,
  record_transition_within_limit,
}
use loop_engine.Quota.Window.{filter-append, length-filter, filter-filter}

pub record Request : Type 0 where
  pub tenant_id : String
  pub snapshot : EntitlementsSnapshot
  pub now : ℕ

abbrev limit_of : Request → ℕ
limit_of r = transitions_per_minute_for_tier r.snapshot.tier

-- The specification's notion of the last minute is the age of a call at `now`.
abbrev pub in_last_minute : ℕ → ℕ → Bool
in_last_minute now ts = leb (now - ts) 60000

pub filter-in_last_minute :
    (now : ℕ) (xs : List ℕ) → filter (in_last_minute now) xs ≡ filter (is_recent now) xs
unfolding filter
filter-in_last_minute now [] = refl
filter-in_last_minute now (x ∷ xs) = ground (arith, filter-in_last_minute now xs)

-- The specification: every accepted call is kept for ever, and those of the last minute are counted.
abbrev pub accept : Request → Windows → Bool × Windows
accept r log =
    if leb (limit_of r) (length (filter (in_last_minute r.now) (window r.tenant_id log)))
    then (false, log)
    else (true, put r.tenant_id (window r.tenant_id log ++ r.now ∷ []) log)

-- The answers to a sequence of calls, of the limiter and of the specification.
abbrev pub answers : List Request → Windows → List Bool
answers [] windows = []
answers (r ∷ rs) windows =
    let step = record_transition_within_limit r.tenant_id r.snapshot windows r.now in
    step.0 ∷ answers rs step.1

abbrev pub expected : List Request → Windows → List Bool
expected [] log = []
expected (r ∷ rs) log = let step = accept r log in step.0 ∷ expected rs step.1

-- The calls come in the order of time, from `t` on.
abbrev pub InOrder : ℕ → List Request → Type 0
InOrder t [] = Unit
InOrder t (r ∷ rs) = (t ≤ r.now) × InOrder r.now rs

pub window-put :
    (tenant other : String) (ts : List ℕ) (windows : Windows)
    → window other (put tenant ts windows) ≡ (if tenant == other then ts else window other windows)
window-put tenant other ts windows = ground (arith, get-put tenant other ts windows)

-- From `t` on the windows and the history show the same recent calls.
abbrev Agrees : ℕ → Windows → Windows → Type 0
Agrees t windows log =
    (tenant : String) (now : ℕ)
    → t ≤ now
    → filter (is_recent now) (window tenant windows) ≡ filter (is_recent now) (window tenant log)

-- The limiter prunes the window of the tenant.
pruned :
    (r : Request) (windows log : Windows)
    → Agrees r.now windows log
    → Agrees r.now
        (put r.tenant_id (filter (is_recent r.now) (window r.tenant_id windows)) windows)
        log
pruned r windows log agrees tenant now later = elim (Bool-cases (r.tenant_id == tenant)) [
  | inl here ↦
      rw
        (
          window-put r.tenant_id tenant (filter (is_recent r.now) (window r.tenant_id windows))
              windows,
          here,
          filter-filter r.now now (window r.tenant_id windows) later,
        )
        (subst
          (λ a.
            filter (is_recent now) (window r.tenant_id windows)
            ≡ filter (is_recent now) (window a log))
          (eq_of_== here) (agrees r.tenant_id now later))
  | inr there ↦
      rw
        (
          window-put r.tenant_id tenant (filter (is_recent r.now) (window r.tenant_id windows))
              windows,
          there,
        )
        (agrees tenant now later)
]

-- The accepted call is added to the pruned window and to the history.
recorded :
    (r : Request) (windows log : Windows)
    → Agrees r.now windows log
    → Agrees r.now
        (put r.tenant_id
          (filter (is_recent r.now) (window r.tenant_id windows) ++ r.now ∷ [])
          windows)
        (put r.tenant_id (window r.tenant_id log ++ r.now ∷ []) log)
recorded r windows log agrees tenant now later =
    let kept = filter (is_recent r.now) (window r.tenant_id windows) in
    let own : filter (is_recent now) (kept ++ r.now ∷ [])
        ≡ filter (is_recent now) (window r.tenant_id log ++ r.now ∷ []) =
      filter-append (is_recent now) kept (r.now ∷ [])
      ∙ ap (λ xs. xs ++ filter (is_recent now) (r.now ∷ []))
          (filter-filter r.now now (window r.tenant_id windows) later
            ∙ agrees r.tenant_id now later)
      ∙ sym (filter-append (is_recent now) (window r.tenant_id log) (r.now ∷ [])) in
    elim (Bool-cases (r.tenant_id == tenant)) [
      | inl here ↦
          rw
            (
              window-put r.tenant_id tenant (kept ++ r.now ∷ []) windows,
              window-put r.tenant_id tenant (window r.tenant_id log ++ r.now ∷ []) log,
              here,
            )
            own
      | inr there ↦
          rw
            (
              window-put r.tenant_id tenant (kept ++ r.now ∷ []) windows,
              window-put r.tenant_id tenant (window r.tenant_id log ++ r.now ∷ []) log,
              there,
            )
            (agrees tenant now later)
    ]

Agrees-later :
    (t now : ℕ) (windows log : Windows) → t ≤ now → Agrees t windows log → Agrees now windows log
Agrees-later t now windows log h agrees tenant now' later =
    agrees tenant now' (omega (arith, h, later))

-- One call: the same answer, and windows and history that agree from then on.
step-Agrees :
    (r : Request) (windows log : Windows)
    → Agrees r.now windows log
    → ((record_transition_within_limit r.tenant_id r.snapshot windows r.now).0 ≡ (accept r log).0)
      × Agrees r.now
          (record_transition_within_limit r.tenant_id r.snapshot windows r.now).1
          (accept r log).1
unfolding record_transition_within_limit
step-Agrees r windows log agrees =
    elim (Bool-cases
      (leb (limit_of r) (length (filter (is_recent r.now) (window r.tenant_id log))))) [
        | inl full ↦ (
          rw (same, aged, full) refl,
          rw (same, aged, full, ← same) (pruned r windows log agrees),
        )
        | inr free ↦ (
          rw (same, aged, free) refl,
          rw (same, aged, free, ← same) (recorded r windows log agrees),
        )
      ]
  where
    same :
        filter (is_recent r.now) (window r.tenant_id windows)
        ≡ filter (is_recent r.now) (window r.tenant_id log)
    same = agrees r.tenant_id r.now (omega arith)

    aged :
        filter (in_last_minute r.now) (window r.tenant_id log)
        ≡ filter (is_recent r.now) (window r.tenant_id log)
    aged = filter-in_last_minute r.now (window r.tenant_id log)

agreement :
    (t : ℕ) (rs : List Request) (windows log : Windows)
    → InOrder t rs
    → Agrees t windows log
    → answers rs windows ≡ expected rs log
agreement t [] windows log order agrees = refl
agreement t (r ∷ rs) windows log (h, order) agrees =
    let (same, after) = step-Agrees r windows log (Agrees-later t r.now windows log h agrees) in
    cc (same, agreement r.now rs _ _ order after)

-- For calls in the order of time the limiter, which keeps only recent hits, gives the answers of the
-- specification, which counts the accepted calls of the last minute over the whole history.
pub answers-eq-expected : (rs : List Request) → InOrder 0 rs → answers rs [] ≡ expected rs []
answers-eq-expected rs order = agreement 0 rs [] [] order (λ tenant now later. refl)

-- No window holds more than `n` hits.
abbrev pub IsBounded : ℕ → Windows → Type 0
IsBounded n windows = (tenant : String) → length (window tenant windows) ≤ n

-- A call keeps every bound on the windows that is at least the limit of its tenant's tier, whether it
-- is accepted or denied.
pub record_transition-IsBounded :
    (n : ℕ) (r : Request) (windows : Windows)
    → transitions_per_minute_for_tier r.snapshot.tier ≤ n
    → IsBounded n windows
    → IsBounded n (record_transition_within_limit r.tenant_id r.snapshot windows r.now).1
unfolding record_transition_within_limit
record_transition-IsBounded n r windows limit bounded tenant =
    let kept = filter (is_recent r.now) (window r.tenant_id windows) in
    let short = length-filter (is_recent r.now) (window r.tenant_id windows) in
    ground (
      arith,
      window-put r.tenant_id tenant kept windows,
      window-put r.tenant_id tenant (kept ++ r.now ∷ []) windows,
      short,
      bounded r.tenant_id,
      bounded tenant,
      length-append kept (r.now ∷ []),
    )
