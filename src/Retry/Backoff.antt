-- ===== src/Retry/Backoff.antt =====
-- `backoffDelay`: the jittered exponential delay between two attempts.
use native.Mathlib.Nat.{min-le_right, pow-suc}
use usezombie.Prelude.{ℕ, suc, ◌+◌, ◌-◌, ◌*◌, ◌^◌, ◌≤◌, ◌<◌, ◌≡◌, none, some, arith, min}
use usezombie.Retry.{base_delay, backoff_delay}

jitter_bounds :
    (b precision random : ℕ)
    → random < precision
    → (b * (4 * precision) ≤ b * (5 * precision) + b * (2 * random) - b * precision)
      × (b * (5 * precision) + b * (2 * random) - b * precision ≤ b * (6 * precision))
jitter_bounds b precision random h =
    let p : b * random ≤ b * precision = grind arith in (omega arith, omega arith)

base_delay-le-cap : (base cap attempt : ℕ) → base_delay base cap attempt ≤ cap
unfolding base_delay
base_delay-le-cap base cap attempt = min-le_right _ cap

-- Without a Retry-After, and with random numbers below 1, the delay is within a fifth of the
-- exponential delay, which is at most the cap; so it is below 1.2 times the cap.
pub backoff_delay_jitter :
    (precision base cap attempt random : ℕ)
    → random < precision
    → (base_delay base cap attempt * (4 * precision)
        ≤ backoff_delay precision base cap attempt none random)
      × (backoff_delay precision base cap attempt none random
          ≤ base_delay base cap attempt * (6 * precision))
      × (backoff_delay precision base cap attempt none random ≤ cap * (6 * precision))
unfolding backoff_delay
backoff_delay_jitter precision base cap attempt random h =
    let (lo, hi) = jitter_bounds (base_delay base cap attempt) precision random h in
    let capped = base_delay-le-cap base cap attempt in
    let scaled : base_delay base cap attempt * precision ≤ cap * precision = grind arith in
    (lo, hi, omega arith)

-- A positive Retry-After is a floor: the client never comes back earlier than the server asked, and
-- at most a fifth later, whatever the cap is. A Retry-After of 0 counts as none.
pub backoff_delay_floor :
    (precision base cap attempt floor random : ℕ)
    → random < precision
    → 0 < floor
    → (floor * (5 * precision) ≤ backoff_delay precision base cap attempt (some floor) random)
      × (backoff_delay precision base cap attempt (some floor) random ≤ floor * (6 * precision))
      × (backoff_delay precision base cap attempt (some 0) random
          ≡ backoff_delay precision base cap attempt none random)
unfolding backoff_delay
backoff_delay_floor precision base cap attempt floor random h pos =
    let p : floor * random ≤ floor * precision = grind arith in
    (ground arith, ground arith, ground arith)

-- From one attempt to the next the delay before jitter doubles, until it meets the cap.
pub base_delay_doubles :
    (base cap attempt : ℕ)
    → base_delay base cap (suc (suc attempt)) ≡ min (2 * base_delay base cap (suc attempt)) cap
unfolding base_delay
base_delay_doubles base cap attempt =
    let here : suc attempt - 1 ≡ attempt = omega arith in
    let next : suc (suc attempt) - 1 ≡ suc attempt = omega arith in
    let twice : base * 2 ^ suc attempt ≡ 2 * (base * 2 ^ attempt) =
      rw (pow-suc 2 attempt) (omega arith) in
    rw (next, here, twice) (omega arith)
