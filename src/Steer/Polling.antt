-- ===== src/Steer/Polling.antt =====
-- The polling ends, and what it reports was answered.
use usezombie.Prelude.{
  ℕ, zero, suc, ◌+◌, ◌*◌, ◌≤◌, ◌≡◌, refl, String, true, not, ◌&&◌, Option, subst, none, some, ltb,
  arith, Bool-cases, inl, inr,
}
use usezombie.Steer.{
  Polls, PolledSteerOutcome, complete, timeout, polled, poll_loop, poll_event_terminal,
  fallback_poll_ms, sse_fallback_timeout_ms,
}

-- How the polling may end.
pub data IsAnswer (id : String) (polls : Polls) (bound : ℕ)
    : Option (PolledSteerOutcome × ℕ) → Type 0 where
  found :
      {n : ℕ} {status : String}
      → suc n ≤ bound
      → polled id (polls.rows n) ≡ some status
      → IsAnswer id polls bound (some (complete status, suc n))
  gave_up : {n : ℕ} → n ≤ bound → IsAnswer id polls bound (some (timeout, n))

IsAnswer-later :
    {id : String} {polls : Polls} {o : Option (PolledSteerOutcome × ℕ)} (n fuel : ℕ)
    → IsAnswer id polls (suc n + fuel) o
    → IsAnswer id polls (n + suc fuel) o
IsAnswer-later {id} {polls} {o} n fuel answer =
    let same : suc n + fuel ≡ n + suc fuel = omega arith in
    subst (λ bound. IsAnswer id polls bound o) same answer

module _ (id : String) (polls : Polls) (deadline : ℕ) where
  IsAnswer-cases :
      (fuel n now : ℕ) (answer : Option String)
      → polled id (polls.rows n) ≡ answer
      → IsAnswer id polls (suc n + fuel) (
          poll_loop id polls deadline
            (suc fuel)
            (suc n)
            (now + polls.request_ms n + fallback_poll_ms + polls.late_ms n))
      → (ltb now deadline && not (polls.aborted_before n)) ≡ true
      → IsAnswer id polls (n + suc fuel) (poll_loop id polls deadline (suc (suc fuel)) n now)
  unfolding poll_loop
  IsAnswer-cases fuel n now (some status) e later going = rw going (rw e (found (omega arith) e))
  IsAnswer-cases fuel n now none e later going = rw going (
      rw e (elim (Bool-cases (polls.aborted_after n)) [
        | inl stop ↦ rw stop (gave_up (omega arith))
        | inr stay ↦ rw stay (IsAnswer-later n fuel later)
      ]))

  -- With time left for `fuel` polls, one unit of fuel more is enough.
  poll_loop-IsAnswer :
      (fuel n now : ℕ)
      → deadline ≤ now + 1500 * fuel
      → IsAnswer id polls (n + fuel) (poll_loop id polls deadline (suc fuel) n now)
  unfolding poll_loop
  poll_loop-IsAnswer zero n now k =
      elim (Bool-cases (ltb now deadline && not (polls.aborted_before n))) [
        | inr stopped ↦ rw stopped (gave_up (omega arith))
        | inl going ↦ absurd (ground arith)
      ]
  poll_loop-IsAnswer (suc fuel) n now k =
      elim (Bool-cases (ltb now deadline && not (polls.aborted_before n))) [
        | inr stopped ↦ rw stopped (gave_up (omega arith))
        | inl going ↦
            IsAnswer-cases fuel n now (polled id (polls.rows n)) refl
              (poll_loop-IsAnswer fuel (suc n)
                (now + polls.request_ms n + fallback_poll_ms + polls.late_ms n) (omega arith))
              going
      ]

-- Whatever the server answers and however long it takes, the polling ends after at most forty polls,
-- and a status that it reports is the terminal one that the last poll had for the event.
pub poll_event_terminal-IsAnswer :
    (id : String) (polls : Polls) (start : ℕ)
    → IsAnswer id polls 40 (poll_event_terminal id polls start)
unfolding poll_event_terminal
poll_event_terminal-IsAnswer id polls start =
    poll_loop-IsAnswer id polls (start + sse_fallback_timeout_ms) 40 0 start (omega arith)
