-- ===== src/Steer.antt =====
-- agentsfleet/src/commands/zombie_steer_events.ts: what the command does with a frame of the stream,
-- and the polling that replaces a broken stream. Colours are not modelled.
pub mod Polling
pub mod Tail
pub mod Completion
pub mod Command
pub mod Turn
pub mod Repl
use usezombie.Prelude.{
  ℕ, zero, suc, ◌+◌, ◌==◌, String, Bool, true, false, not, ◌&&◌, ◌||◌, Option, none, some, List, [],
  ◌∷◌, find, ltb, str_eq, text_eq, Text, codes, if◌then◌else◌,
}
use usezombie.Json.{Json, Number, nat, num, null, bool, str, is_object, get, string?}

abbrev pub sse_fallback_timeout_ms : ℕ
sse_fallback_timeout_ms = 60000

abbrev pub fallback_poll_ms : ℕ
fallback_poll_ms = 1500

-- `event_status` of agentsfleet/src/constants/event-status.ts.
abbrev pub is_terminal : String → Bool
is_terminal status =
    str_eq status "processed" || str_eq status "agent_error" || str_eq status "gate_blocked"

pub data Line : Type 0 where
  claw : String → Line
  tool_starting : String → Line
  tool_done : String → Option Number → Line

-- What the callback does: it ignores the frame, prints a line, or ends the stream with a status.
pub data Reaction : Type 0 where
  ignored : Reaction
  printed : Line → Reaction
  completed : String → Reaction

-- Whether a value counts as true; `JSON.parse` gives no `NaN`.
abbrev pub is_truthy : Option Json → Bool
is_truthy none = false
is_truthy (some null) = false
is_truthy (some (bool b)) = b
is_truthy (some (num (nat n))) = not (n == 0)
is_truthy (some (num _)) = true
is_truthy (some (str s)) = not (str_eq s "")
is_truthy (some _) = true

abbrev pub is_string : String → Option Json → Bool
is_string id value = elim (string? value) [ none ↦ false | some s ↦ str_eq s id ]

-- A frame for another event: `frameEventId && frameEventId !== handlers.eventId`.
abbrev pub is_foreign : String → Option Json → Bool
is_foreign event_id value = is_truthy value && not (is_string event_id value)

abbrev pub number? : Option Json → Option Number
number? (some (num n)) = some n
number? _ = none

abbrev pub status_or_unknown : Option String → String
status_or_unknown none = "unknown"
status_or_unknown (some s) = s

-- `none` where a field that the branch asks for is no string, so that the next branch is tried.
abbrev pub line_of : Text → Json → Option Line
line_of type payload =
    if text_eq type (codes "chunk")
    then elim (string? (get "text" payload)) [ none ↦ none | some text ↦ some (claw text) ]
    else if text_eq type (codes "tool_call_started")
    then elim (string? (get "name" payload)) [ none ↦ none | some name ↦ some (tool_starting name) ]
    else if text_eq type (codes "tool_call_completed")
    then elim (string? (get "name" payload)) [
      | none ↦ none
      | some name ↦ some (tool_done name (number? (get "ms" payload)))
    ]
    else none

abbrev pub reaction_to : Text → Json → Reaction
reaction_to type payload = elim (line_of type payload) [
  | some line ↦ printed line
  | none ↦
      if text_eq type (codes "event_complete")
      then completed (status_or_unknown (string? (get "status" payload)))
      else ignored
]

unfoldable pub frame_callback : String → Text → Json → Reaction
frame_callback event_id type payload =
    if not (is_object payload)
    then ignored
    else if is_foreign event_id (get "event_id" payload)
    then ignored
    else reaction_to type payload

pub record EventRow : Type 0 where
  pub event_id : Option String
  pub status : Option String

pub data PolledSteerOutcome : Type 0 where
  complete : String → PolledSteerOutcome
  timeout : PolledSteerOutcome

-- The n-th poll: the rows of its answer, `none` if the request failed, how long the request and,
-- beyond its 1.5 seconds, the sleep after it took, and whether the signal was aborted before and
-- after the request.
pub record Polls : Type 0 where
  pub rows : ℕ → Option (List EventRow)
  pub request_ms : ℕ → ℕ
  pub late_ms : ℕ → ℕ
  pub aborted_before : ℕ → Bool
  pub aborted_after : ℕ → Bool

abbrev pub has_event_id : String → EventRow → Bool
has_event_id id row = elim (row.event_id) [ none ↦ false | some i ↦ str_eq i id ]

abbrev pub terminal_status : Option EventRow → Option String
terminal_status none = none
terminal_status (some row) = elim (row.status) [
  | none ↦ none
  | some s ↦ if is_terminal s then some s else none
]

abbrev pub rows_or_none : Option (List EventRow) → List EventRow
rows_or_none none = []
rows_or_none (some rows) = rows

unfoldable pub polled : String → Option (List EventRow) → Option String
polled id rows = terminal_status (find (has_event_id id) (rows_or_none rows))

module _ (id : String) (polls : Polls) (deadline : ℕ) where
  -- The loop of `pollEventTerminal` from the n-th poll on, at the time `now`, with the number of the
  -- polls that were made; `none` means that the fuel ran out.
  unfoldable pub poll_loop : ℕ → ℕ → ℕ → Option (PolledSteerOutcome × ℕ)
  poll_loop zero n now = none
  poll_loop (suc fuel) n now =
      let later =
        poll_loop fuel (suc n) (now + polls.request_ms n + fallback_poll_ms + polls.late_ms n) in
      if ltb now deadline && not (polls.aborted_before n)
      then elim (polled id (polls.rows n)) [
        | some status ↦ some (complete status, suc n)
        | none ↦ if polls.aborted_after n then some (timeout, suc n) else later
      ]
      else some (timeout, n)

-- One poll more than fits into the time.
abbrev pub poll_fuel : ℕ
poll_fuel = 41

unfoldable pub poll_event_terminal : String → Polls → ℕ → Option (PolledSteerOutcome × ℕ)
unfolding poll_loop
poll_event_terminal id polls start =
    poll_loop id polls (start + sse_fallback_timeout_ms) poll_fuel 0 start
