-- ===== src/Sse/Stream.antt =====
-- `streamGet` of agentsfleet/src/lib/sse.ts: the read loop, its early stop, and its errors.
use usezombie.Prelude.{
  ℕ, zero, suc, String, Bool, Option, none, some, List, [], ◌∷◌, ◌++◌, if◌then◌else◌, str_eq, Text,
  newline, strip, length,
}
use usezombie.Json.{Json, str, get?, string?, null}
use usezombie.Http.{ApiError, Thrown, api, js, Response, coded_error, Runtime}
use usezombie.Sse.Frame.{SseFrame, parse_sse_frame}

-- The frame before the first empty line, and what follows it: `indexOf` and the two `slice`s.
unfoldable pub cut : Text → Option (Text × Text)
cut [] = none
cut (c ∷ s) = elim (strip (newline ∷ newline ∷ []) (c ∷ s)) [
  | some rest ↦ some ([], rest)
  | none ↦ elim (cut s) [ none ↦ none | some (frame, rest) ↦ some (c ∷ frame, rest) ]
]

-- A state that the caller's callback keeps, behind a `return` or still in the loop.
pub data Progress (S : Type 0) : Type 0 where
  stopped : S → Progress S
  going : S → Progress S

-- `handle` is what is done with a frame.
module _ {S : Type 0} (handle : S → Text → Progress S) where
  -- The inner `while`, with fuel, and the text that stays in the buffer; `none` means that the fuel
  -- ran out.
  unfoldable pub drain : ℕ → S → Text → Option (Progress S × Text)
  drain zero s buf = none
  drain (suc fuel) s buf = elim (cut buf) [
    | none ↦ some (going s, buf)
    | some (frame, rest) ↦ elim (handle s frame) [
      | stopped t ↦ some (stopped t, rest)
      | going t ↦ drain fuel t rest
    ]
  ]

  -- The outer loop over the chunks that arrive before `done`. The fuel is one more than the length
  -- of the buffer.
  unfoldable pub pump : S → Text → List Text → Option (Progress S)
  pump s buf [] = some (going s)
  pump s buf (chunk ∷ chunks) = elim (drain (suc (length (buf ++ chunk))) s (buf ++ chunk)) [
    | none ↦ none
    | some (stopped t, _) ↦ some (stopped t)
    | some (going t, rest) ↦ pump t rest chunks
  ]

-- What a callback that returns whether to go on makes of a frame.
unfoldable pub on_frame :
    {S V : Type 0}
    → (Text → Option (SseFrame V))
    → (S → SseFrame V → S × Bool)
    → S
    → Text
    → Progress S
on_frame parse on_event s frame = elim (parse frame) [
  | none ↦ going s
  | some event ↦ let (t, go_on) = on_event s event in if go_on then going t else stopped t
]

-- `readNestedString`, for a path of one key and of two.
abbrev pub read_string : Json → String → Option String
read_string value key = string? (get? key (some value))

abbrev pub read_nested : Json → String → String → Option String
read_nested value outer inner = string? (get? inner (get? outer (some value)))

abbrev pub first_string : Option String → Option String → String → String
first_string (some a) b c = a
first_string none (some b) c = b
first_string none none c = c

module _ (rt : Runtime) where
  -- The error of a response that is not ok.
  unfoldable pub stream_error : Response → ApiError
  stream_error res =
      let json : Json = elim (rt.json_parse res.text) [ none ↦ null | some v ↦ v ] in
      record {
        message = str (
            first_string (read_nested json "error" "message") (read_string json "detail")
              res.status_text);
        status = some res.status;
        code = some (
            str (
              first_string (read_nested json "error" "code") (read_string json "error_code")
                (rt.show_http res.status)));
        request_id = none;
        body = some (elim json [ null ↦ str res.text | v ↦ v ]);
        retry_after_ms = none;
      }

-- How the reads of a body go: chunks, and then the end or a failure.
pub data Ending : Type 0 where
  done : Ending
  broken : Thrown ApiError → Ending

pub data Opened : Type 0 where
  refused : Thrown ApiError → Opened
  not_ok : Response → Opened
  no_body : Opened
  body : List Text → Ending → Opened

pub data StreamResult (S : Type 0) : Type 0 where
  resolved : S → StreamResult S
  rejected : Thrown ApiError → S → StreamResult S

-- The `catch`: an abort by the caller ends the stream, any other abort is a timeout.
unfoldable pub caught : {S : Type 0} → String → Bool → Thrown ApiError → S → StreamResult S
caught timed_out aborted (js e) s =
    if str_eq e.name "AbortError"
    then if aborted
      then resolved s
      else rejected (api (record (coded_error timed_out "TIMEOUT") { status = some 408 })) s
    else rejected (js e) s
caught timed_out aborted err s = rejected err s

abbrev pub finish : {S : Type 0} → String → Bool → Ending → Progress S → StreamResult S
finish timed_out aborted ending (stopped s) = resolved s
finish timed_out aborted done (going s) = resolved s
finish timed_out aborted (broken err) (going s) = caught timed_out aborted err s

module _ {S V : Type 0} (rt : Runtime) (parse : Text → Option V)
    (on_event : S → SseFrame V → S × Bool) where
  -- `none` stands for fuel that ran out; `opened` is `none` where there is no `fetch`, and `aborted`
  -- says whether the caller's signal is aborted when an abort is caught.
  unfoldable pub stream_get : String → Bool → Option Opened → S → Option (StreamResult S)
  unfolding caught pump drain on_frame parse_sse_frame stream_error cut
  stream_get timed_out aborted none s =
      some (rejected (api (coded_error "fetch is unavailable" "NO_FETCH")) s)
  stream_get timed_out aborted (some (refused err)) s = some (caught timed_out aborted err s)
  stream_get timed_out aborted (some (not_ok res)) s = some (rejected (api (stream_error rt res)) s)
  stream_get timed_out aborted (some no_body) s =
      some (rejected (api (coded_error "response body is not streamable" "NO_STREAM_BODY")) s)
  stream_get timed_out aborted (some (body chunks ending)) s =
      elim (pump (on_frame (parse_sse_frame parse) on_event) s [] chunks) [
        | none ↦ none
        | some progress ↦ some (finish timed_out aborted ending progress)
      ]
