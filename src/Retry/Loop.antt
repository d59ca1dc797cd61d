-- ===== src/Retry/Loop.antt =====
-- `apiRequestWithRetry`: how often the loop runs, what ends it, and what it does on the way.
use usezombie.Prelude.{
  ℕ, zero, suc, ◌+◌, ◌≤◌, ◌<◌, ◌≡◌, refl, sym, subst, dec_lt, ◌⊎◌, inl, inr, true, Option, none,
  some, List, [], ◌∷◌, ◌++◌, arith, Option-cases,
}
use mathlib.Core.Option.{some-injective}
use usezombie.Json.{Json}
use usezombie.Http.{ApiError, Thrown, Outcome, returned, threw}
use usezombie.Retry.{
  Runtime, Attempts, Event, Run, plan_retry, status_of, retry_loop, before, slept, finish,
  resolve_retry_runtime, Options, api_request_with_retry, no_retry_env,
}

pub Outcome-cases :
    {V E : Type 0} (o : Outcome V E)
    → ((v : V) × (o ≡ returned v)) ⊎ ((e : Thrown E) × (o ≡ threw e))
Outcome-cases (returned v) = inl (v, refl)
Outcome-cases (threw e) = inr (e, refl)

module _ (precision : ℕ) (cfg : Runtime) (world : Attempts) where
  -- What `planRetry` decides of a failure of the k-th request.
  abbrev pub decision : ℕ → Thrown ApiError → Option (ℕ × List Event)
  decision k err =
      plan_retry precision err cfg
        (record { attempt = k; status = status_of err; duration_ms = world.duration_ms k })
        (world.random k)

  pub record IsRetried (k : ℕ) : Type 0 where
    pub err : Thrown ApiError
    pub step : ℕ × List Event
    pub failed : world.outcome k ≡ threw err
    pub planned : decision k err ≡ some step

  pub data IsFinal (k : ℕ) : Type 0 where
    succeeds : (v : Json) → world.outcome k ≡ returned v → IsFinal k
    gives_up :
        (err : Thrown ApiError) → world.outcome k ≡ threw err → decision k err ≡ none → IsFinal k

  -- A run that starts behind request `a`: it ends with the outcome of its last request, which is
  -- final, and every request before that failed and was planned again.
  pub record IsRun (a : ℕ) (r : Run Json ApiError) : Type 0 where
    pub later : a < r.requests
    pub bounded : r.requests ≤ cfg.max_attempts
    pub last : r.result ≡ world.outcome r.requests
    pub final : IsFinal r.requests
    pub retried : (k : ℕ) → a < k → k < r.requests → IsRetried k

  plan_retry-lt :
      (err : Thrown ApiError) (k : ℕ) (step : ℕ × List Event)
      → decision k err ≡ some step
      → k < cfg.max_attempts
  unfolding plan_retry
  plan_retry-lt err k step e = ground arith

  IsRetried-from :
      (a : ℕ) (r : Run Json ApiError)
      → IsRetried (a + 1)
      → IsRun (a + 1) r
      → (k : ℕ) → a < k
      → k < r.requests
      → IsRetried k
  IsRetried-from a r here v k above below = elim (dec_lt (a + 1) k) [
    | yes past ↦ v.retried k past below
    | no at ↦ let e : a + 1 ≡ k = omega arith in subst IsRetried e here
  ]

  IsRun-before :
      (a : ℕ) (events : List Event) (r : Run Json ApiError)
      → IsRetried (a + 1)
      → IsRun (a + 1) r
      → IsRun a (record r { trace = events ++ r.trace })
  IsRun-before a events r here v = record {
    later = let l = v.later in omega arith;
    bounded = v.bounded;
    last = v.last;
    final = v.final;
    retried = IsRetried-from a r here v;
  }

  IsRun-single :
      (a : ℕ) (r : Run Json ApiError)
      → r.requests ≡ a + 1
      → a + 1 ≤ cfg.max_attempts
      → r.result ≡ world.outcome (a + 1)
      → IsFinal (a + 1)
      → IsRun a r
  IsRun-single a r e h last final = record {
    later = omega arith;
    bounded = omega arith;
    last = rw e last;
    final = rw e final;
    retried = λ k above below. absurd (omega arith);
  }

  retry_loop-IsRun :
      (fuel a : ℕ)
      → cfg.max_attempts ≤ fuel + a
      → a < cfg.max_attempts
      → (r : Run Json ApiError) × (retry_loop precision cfg world fuel a ≡ some r) × IsRun a r
  unfolding retry_loop
  retry_loop-IsRun zero a h k = absurd (omega arith)
  retry_loop-IsRun (suc fuel) a h k = elim (Outcome-cases (world.outcome (a + 1))) [
    | inl (v, e) ↦ (
      finish precision cfg world (returned v) (a + 1) (some 200),
      rw (e, retry_loop),
      IsRun-single a _ refl (omega arith) (sym e) (succeeds v e),
    )
    | inr (err, e) ↦ elim (Option-cases (decision (a + 1) err)) [
      | inl stop ↦ (
        finish precision cfg world (threw err) (a + 1) (status_of err),
        rw (e, retry_loop) (rw (stop, retry_loop)),
        IsRun-single a _ refl (omega arith) (sym e) (gives_up err e stop),
      )
      | inr (step, go) ↦
          let room = plan_retry-lt err (a + 1) step go in
          let (r, ran, v) = retry_loop-IsRun fuel (a + 1) (omega arith) room in
          let here : IsRetried (a + 1) = record {
            err = err;
            step = step;
            failed = e;
            planned = go;
          } in
          (
            record r { trace = (step.1 ++ slept step.0 ∷ []) ++ r.trace },
            rw (e, retry_loop) (rw (go, retry_loop) (rw ran)),
            IsRun-before a _ r here v,
          )
    ]
  ]

module _ (precision : ℕ) (cfg : Runtime) (world : Attempts)
    (P : ℕ → Run Json ApiError → Type 0) where
  -- Induction on a run, from its end: what holds of the two exits, and of a run behind one more
  -- failure that is retried, holds of each run of the loop.
  pub retry_loop_induction :
      ((a : ℕ) (v : Json)
        → world.outcome (a + 1) ≡ returned v
        → P a (finish precision cfg world (returned v) (a + 1) (some 200)))
      → ((a : ℕ) (err : Thrown ApiError)
          → world.outcome (a + 1) ≡ threw err
          → decision precision cfg world (a + 1) err ≡ none
          → P a (finish precision cfg world (threw err) (a + 1) (status_of err)))
      → ((a : ℕ) (err : Thrown ApiError) (step : ℕ × List Event) (r : Run Json ApiError)
          → world.outcome (a + 1) ≡ threw err
          → decision precision cfg world (a + 1) err ≡ some step
          → P (a + 1) r
          → P a (record r { trace = (step.1 ++ slept step.0 ∷ []) ++ r.trace }))
      → (fuel a : ℕ) (r : Run Json ApiError) → retry_loop precision cfg world fuel a ≡ some r
      → P a r
  unfolding retry_loop
  retry_loop_induction ok gave again zero a r e = cc
  retry_loop_induction ok gave again (suc fuel) a r e =
      elim (Outcome-cases (world.outcome (a + 1))) [
        | inl (v, o) ↦ subst (P a) (some-injective _ _ (rw (o, retry_loop) at e)) (ok a v o)
        | inr (err, o) ↦ elim (Option-cases (decision precision cfg world (a + 1) err)) [
          | inl stop ↦
              subst (P a) (some-injective _ _ (rw (stop, retry_loop) at (rw (o, retry_loop) at e)))
                (gave a err o stop)
          | inr (step, go) ↦ elim (Option-cases (retry_loop precision cfg world fuel (a + 1))) [
            | inl out ↦
                let over = rw (out, before) at (rw (go, retry_loop) at (rw (o, retry_loop) at e)) in
                cc
            | inr (q, ran) ↦
                subst (P a)
                  (some-injective _ _
                    (rw (ran, before) at (rw (go, retry_loop) at (rw (o, retry_loop) at e))))
                  (again a err step q o go (retry_loop_induction ok gave again fuel (a + 1) q ran))
          ]
        ]
      ]

resolve_bounds :
    (options : Options) (cfg : Runtime)
    → resolve_retry_runtime options ≡ some cfg
    → (0 < cfg.max_attempts) × (cfg.max_attempts ≤ 10)
unfolding resolve_retry_runtime
resolve_bounds options cfg e = ground arith

-- With a valid configuration the call ends, after at least one request and at most `maxAttempts`,
-- which is at most 10. It ends with the outcome of its last request: a success, or a failure that
-- `planRetry` does not retry. Each request before that failed, and `planRetry` asked for another.
pub api_request_with_retry_run :
    (precision : ℕ) (options : Options) (world : Attempts) (cfg : Runtime)
    → resolve_retry_runtime options ≡ some cfg
    → (r : Run Json ApiError) × (api_request_with_retry precision options world ≡ some r)
      × IsRun precision cfg world 0 r
      × (cfg.max_attempts ≤ 10)
unfolding api_request_with_retry
api_request_with_retry_run precision options world cfg e =
    let (some_room, capped) = resolve_bounds options cfg e in
    let (r, ran, v) =
      retry_loop-IsRun precision cfg world cfg.max_attempts 0 (omega arith) some_room in
    (r, rw (e, api_request_with_retry) ran, v, capped)

-- With ZOMBIE_NO_RETRY set to "1" or "true" there is one request, whatever it returns.
pub no_retry_single :
    (precision : ℕ) (options : Options) (world : Attempts) (cfg : Runtime)
    → resolve_retry_runtime options ≡ some cfg
    → no_retry_env options.no_retry ≡ true
    → (r : Run Json ApiError) × (api_request_with_retry precision options world ≡ some r)
      × (r.requests ≡ 1)
      × (r.result ≡ world.outcome 1)
unfolding resolve_retry_runtime
no_retry_single precision options world cfg e off =
    let (r, ran, v, _) = api_request_with_retry_run precision options world cfg e in
    let one : cfg.max_attempts ≡ 1 = ground arith in
    let at : r.requests ≡ 1 = let l = v.later in let b = v.bounded in omega arith in
    (r, ran, at, rw at at v.last)
