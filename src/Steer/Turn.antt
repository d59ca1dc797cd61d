-- ===== src/Steer/Turn.antt =====
-- What the end of a turn says.
use usezombie.Prelude.{
  List, ℕ, ◌≤◌, ◌≡◌, refl, ap, String, str_eq, eq_iff, Text, Bool, false, Option, none, some, ◌⊎◌,
  inl, inr, Bool-cases, suc, sym, subst, ◌∙◌, if◌then◌else◌,
}
use usezombie.Sse.Stream.{Opened, Ending, refused, not_ok, no_body, body}
use usezombie.Sse.Chunks.{concat}
use usezombie.Sse.Framing.{blocks}
use usezombie.Steer.Completion.{Any, Completes, tail_event_stream-Completes}
use usezombie.Cli.Errors.{CliError}
use usezombie.Cli.Effects.{Outcome, succeeded, failed, request}
use usezombie.Cli.Guards.{present}
use usezombie.Steer.{PolledSteerOutcome, complete, timeout, polled}
use usezombie.Steer.Polling.{IsAnswer, found, gave_up, poll_event_terminal-IsAnswer}
use usezombie.Steer.Tail
use usezombie.Steer.Tail.{
  SteerOutcome, Tail, tail_event_stream, tail_event_stream_chunks, tail_of_run, tail_callback,
  started,
}
use usezombie.Steer.Command.{
  World, Machine, steer_turn, follow, poll_instead, render_outcome, ending, after_polls, after_tail,
  steer_interrupted, after_stream, after_post, with_event,
}

-- There is a result, and if it is a success, it is for the reason `E`.
pub data IsHonest (E : Type 0) : Option (Outcome Unit) → Type 0 where
  success : (u : Unit) → E → IsHonest E (some (succeeded u))
  failure : (err : CliError) → IsHonest E (some (failed err))

weaken : {E F : Type 0} {o : Option (Outcome Unit)} → (E → F) → IsHonest E o → IsHonest F o
weaken f (success u e) = success u (f e)
weaken f (failure err) = failure err

rendered :
    (outcome : PolledSteerOutcome) (id : String)
    → IsHonest (outcome ≡ complete "processed") (some (render_outcome outcome id))
unfolding render_outcome
rendered (complete status) id = elim (Bool-cases (str_eq status "processed")) [
  | inl e ↦ rw e (success tt (ap (λ s. complete s) ((eq_iff status "processed").0 e)))
  | inr e ↦ rw e (failure _)
]
rendered timeout id = failure _

-- The turn was not aborted, and what it reports has the status "processed".
abbrev Processed : World → PolledSteerOutcome → Type 0
Processed w outcome = (w.aborted_at_end ≡ false) × (outcome ≡ complete "processed")

ending-IsHonest :
    (w : World) (outcome : PolledSteerOutcome) (id : String)
    → IsHonest (Processed w outcome) (some (ending w id outcome))
ending-IsHonest w outcome id = elim (Bool-cases (w.aborted_at_end)) [
  | inl e ↦ rw e (failure _)
  | inr e ↦
      subst
        (λ b.
          IsHonest (Processed w outcome)
            (some (if b then steer_interrupted else render_outcome outcome id)))
        (sym e)
        (weaken {E = outcome ≡ complete "processed"} {F = Processed w outcome} (λ h. (e, h))
          (rendered outcome id))
]

-- A poll, one of the first forty, had the event as processed.
abbrev PolledProcessed : World → String → Type 0
PolledProcessed w id = (n : ℕ) × (suc n ≤ 40) × (polled id (w.polls.rows n) ≡ some "processed")

status_of : PolledSteerOutcome → String
status_of (complete status) = status
status_of timeout = "timeout"

polled-IsHonest :
    (w : World) (id : String) {o : Option (PolledSteerOutcome × ℕ)}
    → IsAnswer id w.polls 40 o
    → IsHonest ((w.aborted_at_end ≡ false) × PolledProcessed w id) (after_polls w id o)
unfolding status_of
polled-IsHonest w id (found {n} {status} short e) =
    weaken {E = Processed w (complete status)}
      {F = (w.aborted_at_end ≡ false) × PolledProcessed w id}
      (λ h.
        (h.0, (n, short, subst (λ s. polled id (w.polls.rows n) ≡ some s) (ap status_of h.1) e)))
      (ending-IsHonest w (complete status) id)
polled-IsHonest w id (gave_up {n} short) =
    weaken {E = Processed w timeout} {F = (w.aborted_at_end ≡ false) × PolledProcessed w id}
      (λ h. absurd (timeout≢complete h.1)) (ending-IsHonest w timeout id)
  where
    timeout≢complete : timeout ≡ complete "processed" → ⊥
    timeout≢complete e = cc

module _ (machine : Machine) where
  -- The text of the stream, however it was cut into chunks, has a block that completes this event as
  -- processed: of the type "event_complete", naming the event or none, with the status.
  abbrev pub StreamProcessed : World → String → Type 0
  StreamProcessed w id =
      (chunks : List Text) × (ends : Ending) × (w.opened ≡ some (body chunks ends))
      × Any (Completes machine.parse id "processed") (blocks (concat chunks)).0

  -- The server took the message as the event `id`, the turn was not aborted, and the stream or a poll
  -- completed that event as processed.
  abbrev pub IsProcessed : World → Text → Type 0
  IsProcessed w message =
      (o : Option String) × (id : String) × (request machine.show machine.thrown machine.url
          (w.post message)
        ≡ succeeded o)
      × (present o ≡ some id)
      × (w.aborted_at_end ≡ false)
      × (StreamProcessed w id ⊎ PolledProcessed w id)

  abbrev Reason : World → String → Type 0
  Reason w id = (w.aborted_at_end ≡ false) × (StreamProcessed w id ⊎ PolledProcessed w id)

  tail_ends :
      (id : String) (aborted : Bool) (opened : Option Opened)
      → (tail : Tail) × (tail_event_stream machine.runtime machine.parse id machine.timed_out
            aborted opened
          ≡ some tail)
  unfolding tail_event_stream
  tail_ends id aborted none = (_, refl)
  tail_ends id aborted (some (refused err)) = (_, refl)
  tail_ends id aborted (some (not_ok res)) = (_, refl)
  tail_ends id aborted (some no_body) = (_, refl)
  tail_ends id aborted (some (body chunks ends)) = (
    _,
    tail_event_stream_chunks machine.runtime machine.parse id machine.timed_out aborted ends chunks,
  )

  poll_instead-IsHonest : (w : World) (id : String) → IsHonest (Reason w id) (poll_instead w id)
  unfolding poll_instead
  poll_instead-IsHonest w id = elim (Bool-cases (w.aborted_after_stream)) [
    | inl e ↦ rw e (failure _)
    | inr e ↦ rw e (
        weaken {E = (w.aborted_at_end ≡ false) × PolledProcessed w id} {F = Reason w id}
          (λ h. (h.0, inr h.1))
          (polled-IsHonest w id (poll_event_terminal-IsAnswer id w.polls w.start)))
  ]

  after_tail-IsHonest :
      (w : World) (id : String) (tail : Tail) (outcome : SteerOutcome)
      → tail_event_stream machine.runtime machine.parse id machine.timed_out w.stream_aborted
          w.opened
        ≡ some tail
      → tail.outcome ≡ outcome
      → IsHonest (Reason w id) (after_tail w id outcome)
  unfolding status_of
  after_tail-IsHonest w id tail (Tail.complete status) e o =
      weaken {E = Processed w (complete status)} {F = Reason w id}
        (λ h. (
          h.0,
          inl (
              tail_event_stream-Completes machine.parse id "processed" machine.runtime
                machine.timed_out w.stream_aborted w.opened tail e
                (o ∙ ap (λ s. Tail.complete (status_of s)) h.1)),
        ))
        (ending-IsHonest w (complete status) id)
  after_tail-IsHonest w id tail Tail.sse_disconnected e o = poll_instead-IsHonest w id
  after_tail-IsHonest w id tail (Tail.sse_error err) e o = poll_instead-IsHonest w id

  followed : (w : World) (id : String) → IsHonest (Reason w id) (follow machine w id)
  unfolding follow
  followed w id =
      let (tail, e) = tail_ends id w.stream_aborted w.opened in
      subst (λ o. IsHonest (Reason w id) (after_stream w id o)) (sym e)
        (after_tail-IsHonest w id tail tail.outcome e refl)

  with_event-IsHonest :
      (w : World) (message : Text) (o : Option String) (id : Option String)
      → request machine.show machine.thrown machine.url (w.post message) ≡ succeeded o
      → present o ≡ id
      → IsHonest (IsProcessed w message) (with_event machine w id)
  with_event-IsHonest w message o none e p = failure _
  with_event-IsHonest w message o (some id) e p =
      weaken {E = Reason w id} {F = IsProcessed w message} (λ h. (o, id, e, p, h.0, h.1))
        (followed w id)

  after_post-IsHonest :
      (w : World) (message : Text) (o : Outcome (Option String))
      → request machine.show machine.thrown machine.url (w.post message) ≡ o
      → IsHonest (IsProcessed w message) (after_post machine w o)
  after_post-IsHonest w message (failed err) e = failure err
  after_post-IsHonest w message (succeeded o) e = with_event-IsHonest w message o (present o) e refl

  -- Whatever the server answers, however the stream ends and whenever the signal is aborted: a turn has
  -- a result, and it is a success only if the server took the message as an event, the signal was not
  -- aborted at the end, and the stream carried a completion of that event (one that names it or no event)
  -- with the status "processed", or one of at most forty polls had that event as processed.
  pub steer_turn-IsHonest :
      (w : World) (message : Text) → IsHonest (IsProcessed w message) (steer_turn machine w message)
  unfolding steer_turn
  steer_turn-IsHonest w message = after_post-IsHonest w message _ refl
