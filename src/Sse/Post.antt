-- ===== src/Sse/Post.antt =====
-- agentsfleet/src/lib/stream-fetch.ts: server-sent events over POST. Its frames have no id, and its
-- callback cannot stop the stream. The read loop is the same text as that of `streamGet`.
pub mod LastLine
use usezombie.Prelude.{
  String, Bool, Option, none, some, List, [], ◌∷◌, if◌then◌else◌, Text, codes, is_empty, ◌≡◌, refl,
  false,
}
use usezombie.Json.{Json, str, get?, null, nullish}
use usezombie.Http.{ApiError, Thrown, api, Response, coded_error, Runtime, envelope, or_value}
use usezombie.Sse.Frame.{
  Line, skip, id_line, event_line, data_line, on_prefix, split_lines, Payload, parsed, raw, payload,
}
use usezombie.Sse.Stream.{
  Progress, going, Ending, Opened, refused, not_ok, no_body, body, StreamResult, resolved, rejected,
  pump, finish, caught,
}

pub record SseEvent (V : Type 0) : Type 0 where
  pub type : Text
  pub content : Payload V

-- The last clause skips comments, as any other line is skipped.
unfoldable pub read_line : Text → Line
read_line line =
    on_prefix (codes "event: ") line event_line (on_prefix (codes "data: ") line data_line skip)

pub record Fields : Type 0 where
  pub type : Text
  pub content : Text

unfoldable pub apply_line : Fields → Line → Fields
apply_line fields (event_line v) = record fields { type = v }
apply_line fields (data_line v) = record fields { content = v }
apply_line fields _ = fields

unfoldable pub read_lines : Fields → List Text → Fields
read_lines fields [] = fields
read_lines fields (line ∷ lines) = read_lines (apply_line fields (read_line line)) lines

module _ {V : Type 0} (json_parse : Text → Option V) where
  unfoldable pub event_of : Fields → Option (SseEvent V)
  event_of fields =
      if is_empty fields.content
      then none
      else some (record { type = fields.type; content = payload json_parse fields.content })

  unfoldable pub parse_sse_event : Text → Option (SseEvent V)
  unfolding event_of read_lines apply_line read_line
  parse_sse_event frame =
      event_of (read_lines (record { type = codes "message"; content = [] }) (split_lines frame))

unfoldable pub on_event_frame :
    {S V : Type 0} → (Text → Option (SseEvent V)) → (S → SseEvent V → S) → S → Text → Progress S
on_event_frame parse on_event s frame = elim (parse frame) [
  | none ↦ going s
  | some event ↦ going (on_event s event)
]

module _ (rt : Runtime) where
  -- The error of a response that is not ok.
  unfoldable pub post_error : Response → ApiError
  post_error res =
      let json : Json = elim (rt.json_parse res.text) [ none ↦ null | some v ↦ v ] in
      let error = nullish (get? "error" (envelope json)) in
      record {
        message = or_value (nullish (get? "message" error)) (str res.status_text);
        status = some res.status;
        code = some (or_value (nullish (get? "code" error)) (str (rt.show_http res.status)));
        request_id = none;
        body = some (or_value (nullish (some json)) (str res.text));
        retry_after_ms = none;
      }

module _ {S V : Type 0} (rt : Runtime) (parse : Text → Option V)
    (on_event : S → SseEvent V → S) where
  -- No caller can abort this stream, so an abort is a timeout.
  unfoldable pub stream_fetch : String → Option Opened → S → Option (StreamResult S)
  unfolding post_error on_event_frame parse_sse_event
  stream_fetch timed_out none s =
      some (rejected (api (coded_error "fetch is unavailable" "NO_FETCH")) s)
  stream_fetch timed_out (some (refused err)) s = some (caught timed_out false err s)
  stream_fetch timed_out (some (not_ok res)) s = some (rejected (api (post_error rt res)) s)
  stream_fetch timed_out (some no_body) s =
      some (rejected (api (coded_error "response body is not streamable" "NO_STREAM_BODY")) s)
  stream_fetch timed_out (some (body chunks ending)) s =
      elim (pump (on_event_frame (parse_sse_event parse) on_event) s [] chunks) [
        | none ↦ none
        | some progress ↦ some (finish timed_out false ending progress)
      ]
