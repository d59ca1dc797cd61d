-- ===== src/Steer/Tail.antt =====
-- agentsfleet/src/commands/zombie_steer_events.ts, tailEventStream: the callback on the event stream.
use usezombie.Prelude.{
  ◌≡◌, ap, String, Text, Bool, true, false, Option, none, some, List, [], ◌∷◌, ◌++◌,
}
use usezombie.Json.{Json}
use usezombie.Http.{Runtime, ApiError, Thrown}
use usezombie.Sse.Frame.{SseFrame, raw, parsed, parse_sse_frame}
use usezombie.Sse.Stream.{
  stream_get, StreamResult, resolved, rejected, Opened, body, Ending, finish, on_frame,
}
use usezombie.Sse.Chunks.{concat, deliver, stream_get_chunks}
use usezombie.Sse.Framing.{blocks}
use usezombie.Steer.{Line, Reaction, ignored, printed, completed, frame_callback}

-- The detail of `sse_error` is the message of the error.
pub data SteerOutcome : Type 0 where
  complete : String → SteerOutcome
  sse_disconnected : SteerOutcome
  sse_error : Thrown ApiError → SteerOutcome

-- The variable `outcome`, and the lines that were printed.
pub record Tail : Type 0 where
  pub outcome : SteerOutcome
  pub lines : List Line

abbrev pub react : Tail → Reaction → Tail × Bool
react t ignored = (t, true)
react t (printed line) = (record t { lines = t.lines ++ line ∷ [] }, true)
react t (completed status) = (record t { outcome = complete status }, false)

-- Data that is no JSON is a string, which the callback ignores.
abbrev pub tail_callback : String → Tail → SseFrame Json → Tail × Bool
tail_callback event_id t event = elim (event.content) [
  | raw text ↦ (t, true)
  | parsed payload ↦ react t (frame_callback event_id event.type payload)
]

abbrev pub tail_of : StreamResult Tail → Tail
tail_of (resolved t) = t
tail_of (rejected err t) = record t { outcome = sse_error err }

-- `none` stands for fuel of the stream that ran out.
abbrev pub tail_of_run : Option (StreamResult Tail) → Option Tail
tail_of_run none = none
tail_of_run (some result) = some (tail_of result)

abbrev pub started : Tail
started = record { outcome = sse_disconnected; lines = [] }

unfoldable pub tail_event_stream :
    Runtime → (Text → Option Json) → String → String → Bool → Option Opened → Option Tail
unfolding stream_get frame_callback
tail_event_stream rt parse event_id timed_out aborted opened =
    tail_of_run (stream_get rt parse (tail_callback event_id) timed_out aborted opened started)

-- The tail of a stream always has an outcome, and neither it nor the lines depend on how the network
-- splits the stream into chunks: it is that of the callback on the frames of the whole text.
pub tail_event_stream_chunks :
    (rt : Runtime) (parse : Text → Option Json) (event_id timed_out : String) (aborted : Bool)
    (ending : Ending) (chunks : List Text)
    → tail_event_stream rt parse event_id timed_out aborted (some (body chunks ending))
      ≡ some (
          tail_of (
            finish timed_out aborted ending (
              deliver
                (on_frame (parse_sse_frame parse) (tail_callback event_id))
                started
                (blocks (concat chunks)).0)))
unfolding tail_event_stream
tail_event_stream_chunks rt parse event_id timed_out aborted ending chunks =
    ap tail_of_run
      (stream_get_chunks rt parse (tail_callback event_id) timed_out aborted chunks ending started)
