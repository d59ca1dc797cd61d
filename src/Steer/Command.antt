-- ===== src/Steer/Command.antt =====
-- agentsfleet/src/commands/zombie_steer.ts and lib/repl.ts: one turn of the conversation with a
-- zombie, the read loop, and the command. The server, the stream, the clock and the signal of a turn
-- are given with it; printing is not modelled. `none` stands for fuel of the stream or of the polling
-- that ran out.
use usezombie.Prelude.{
  ℕ, String, str_append, str_eq, Text, trim, is_empty, Bool, true, false, ◌||◌, ◌==◌, Option, none,
  some, List, [], ◌∷◌, if◌then◌else◌,
}
use usezombie.Json.{Json, str}
use usezombie.Http
use usezombie.Http.{Runtime, ApiError}
use usezombie.Sse.Stream.{Opened}
use usezombie.Cli.Errors.{CliError, server_error, config_error, validation_error, interrupted}
use usezombie.Cli.Effects.{Outcome, succeeded, failed, request}
use usezombie.Cli.Store.{Disk}
use usezombie.Cli.Guards.{present, require_workspace_id, resolve_auth_token}
use usezombie.Steer.{PolledSteerOutcome, complete, timeout, Polls, poll_event_terminal}
use usezombie.Steer.Tail
use usezombie.Steer.Tail.{SteerOutcome, Tail, tail_event_stream}

-- What a turn meets: the answer to a message with the event id in it, the stream and whether the
-- signal is aborted when an abort of the stream is caught, the polls and when they begin, and whether
-- the signal is aborted when the code looks at it after the stream and at the end.
pub record World : Type 0 where
  pub post : Text → Http.Outcome (Option String) ApiError
  pub opened : Option Opened
  pub stream_aborted : Bool
  pub polls : Polls
  pub start : ℕ
  pub aborted_after_stream : Bool
  pub aborted_at_end : Bool

-- The runtime, `JSON.parse` of a frame, the detail of a timeout, the URL that an error names, and the
-- writing of numbers and thrown values.
pub record Machine : Type 0 where
  pub runtime : Runtime
  pub parse : Text → Option Json
  pub timed_out : String
  pub url : String
  pub show : ℕ → String
  pub thrown : String

abbrev pub steer_interrupted : Outcome Unit
steer_interrupted = failed (interrupted "steer interrupted")

abbrev pub bad_response : CliError
bad_response = server_error (str "messages response missing event_id") (str "BAD_RESPONSE") 502 none

unfoldable pub render_outcome : PolledSteerOutcome → String → Outcome Unit
render_outcome (complete status) event_id =
    if str_eq status "processed"
    then succeeded tt
    else failed (
        config_error (
          str_append "event "
            (str_append event_id (str_append " terminated with status: " status))))
render_outcome timeout event_id =
    failed (config_error (str_append "event " (str_append event_id " did not complete (timeout)")))

abbrev pub ending : World → String → PolledSteerOutcome → Outcome Unit
ending w event_id outcome =
    if w.aborted_at_end then steer_interrupted else render_outcome outcome event_id

abbrev pub after_polls : World → String → Option (PolledSteerOutcome × ℕ) → Option (Outcome Unit)
after_polls w event_id none = none
after_polls w event_id (some (outcome, n)) = some (ending w event_id outcome)

unfoldable pub poll_instead : World → String → Option (Outcome Unit)
unfolding poll_event_terminal render_outcome
poll_instead w event_id =
    let polled = after_polls w event_id (poll_event_terminal event_id w.polls w.start) in
    if w.aborted_after_stream then some steer_interrupted else polled

abbrev pub after_tail : World → String → SteerOutcome → Option (Outcome Unit)
after_tail w event_id (Tail.complete status) = some (ending w event_id (complete status))
after_tail w event_id Tail.sse_disconnected = poll_instead w event_id
after_tail w event_id (Tail.sse_error err) = poll_instead w event_id

abbrev pub after_stream : World → String → Option Tail → Option (Outcome Unit)
after_stream w event_id none = none
after_stream w event_id (some tail) = after_tail w event_id tail.outcome

-- A line that is read, what its turn meets, and whether SIGINT has come when its turn is over.
pub record Round : Type 0 where
  pub raw : Text
  pub world : World
  pub stopped : Bool

-- The exit code, the messages that were sent and the errors that were printed.
pub record Session : Type 0 where
  pub code : ℕ
  pub sent : List Text
  pub printed : List CliError

abbrev pub ended : Bool → Session
ended stopped = record { code = if stopped then 130 else 0; sent = []; printed = [] }

abbrev pub print : CliError → Session → Session
print err s = record s { printed = err ∷ s.printed }

abbrev pub send : Text → Session → Session
send line s = record s { sent = line ∷ s.sent }

abbrev pub prepend : (Session → Session) → Option Session → Option Session
prepend f none = none
prepend f (some s) = some (f s)

-- Behind a turn: the loop stops after SIGINT, and prints an error otherwise.
abbrev pub after_turn : Bool → Option (Outcome Unit) → Option Session → Option Session
after_turn stopped none rest = none
after_turn stopped (some (succeeded _)) rest = if stopped then some (ended true) else rest
after_turn stopped (some (failed err)) rest =
    if stopped then some (ended true) else prepend (print err) rest

-- The arguments and the input of the command.
pub record Arguments : Type 0 where
  pub zombie_id : Option String
  pub message : Option Text
  pub force_tty : Bool
  pub is_tty : Bool
  pub piped : Text
  pub rounds : List Round
  pub closed : Bool

unfoldable pub should_enter_steer_repl : Bool → Option Text → Bool → Bool
should_enter_steer_repl is_tty none force_tty = force_tty || is_tty
should_enter_steer_repl is_tty (some message) force_tty = false

abbrev pub of_session : Option Session → Option (Outcome Unit)
of_session none = none
of_session (some s) = some (if s.code == 130 then steer_interrupted else succeeded tt)

-- `message ?? readPipedMessage(stdin)`
abbrev pub single_message : Option Text → Text → Text
single_message (some message) piped = message
single_message none piped = trim piped

abbrev pub guarded : {A : Type 0} → Outcome A → (A → Option (Outcome Unit)) → Option (Outcome Unit)
guarded (failed err) f = some (failed err)
guarded (succeeded a) f = f a

module _ (machine : Machine) where
  unfoldable pub follow : World → String → Option (Outcome Unit)
  unfolding tail_event_stream poll_instead
  follow w event_id = after_stream w event_id (
      tail_event_stream machine.runtime machine.parse event_id machine.timed_out w.stream_aborted
        w.opened)

  abbrev pub with_event : World → Option String → Option (Outcome Unit)
  with_event w none = some (failed bad_response)
  with_event w (some event_id) = follow w event_id

  abbrev pub after_post : World → Outcome (Option String) → Option (Outcome Unit)
  after_post w (failed err) = some (failed err)
  after_post w (succeeded event_id) = with_event w (present event_id)

  unfoldable pub steer_turn : World → Text → Option (Outcome Unit)
  unfolding request follow
  steer_turn w message =
      after_post w (request machine.show machine.thrown machine.url (w.post message))

  -- `runSteerRepl`; the last argument says whether SIGINT closed the input.
  unfoldable pub run_steer_repl : List Round → Bool → Option Session
  unfolding steer_turn
  run_steer_repl [] closed = some (ended closed)
  run_steer_repl (round ∷ rounds) closed =
      let rest = run_steer_repl rounds closed in
      let line = trim round.raw in
      if is_empty line
      then (if round.stopped then some (ended true) else rest)
      else prepend (send line) (after_turn round.stopped (steer_turn round.world line) rest)

  -- `world` is what the turn of a single message meets.
  unfoldable pub steer_effect : Option Text → World → Arguments → Disk → Option (Outcome Unit)
  unfolding require_workspace_id resolve_auth_token should_enter_steer_repl run_steer_repl
  steer_effect env_token world args d = elim (present args.zombie_id) [
    | none ↦ some (failed (validation_error "zombie_id is required"))
    | some zombie_id ↦ guarded (require_workspace_id d).0 (λ workspace_id.
        guarded (resolve_auth_token env_token d).0 (λ token.
          let message = single_message args.message args.piped in
          if should_enter_steer_repl args.is_tty args.message args.force_tty
          then of_session (run_steer_repl args.rounds args.closed)
          else if is_empty (trim message)
          then some (failed (validation_error "message is required"))
          else steer_turn world message))
  ]
