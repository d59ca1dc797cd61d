-- ===== src/Tests/Streams.antt =====
-- The event streams at fixed inputs.
use usezombie.Prelude.{
  ℕ, ◌≡◌, refl, Bool, true, false, Option, none, some, List, [], ◌∷◌, arith, Text, codes,
}
use usezombie.Sse.Frame.{SseFrame, raw, parse_sse_frame}
use usezombie.Sse.Stream.{done, body, resolved, finish, on_frame, stream_get}
use usezombie.Sse.Framing.{blocks}
use usezombie.Sse.Chunks.{concat, deliver, stream_get_chunks}
use usezombie.Sse.RoundTrip.{print_frame, parse_sse_frame-print_frame}
use usezombie.Sse.Post.{parse_sse_event}
use usezombie.Sse.Post.LastLine.{parse_sse_event-print_frame}
use usezombie.Tests.Retries.{one_text}

abbrev no_json : Text → Option ℕ
no_json text = none

abbrev two_lines : List Text
two_lines = codes "a" ∷ codes "bc" ∷ []

-- Keep the events, and stop at the second.
abbrev keep_two : List (SseFrame ℕ) → SseFrame ℕ → List (SseFrame ℕ) × Bool
keep_two [] event = (event ∷ [], true)
keep_two (e ∷ es) event = (event ∷ e ∷ es, false)

abbrev chunks : List Text
chunks = codes "data: a\n" ∷ codes "\ndata: b\n\nda" ∷ codes "ta: c\n\n" ∷ []

stopped_early :
    stream_get one_text no_json keep_two "timed out" false (some (body chunks done)) []
    ≡ some (
        resolved (
          record { id = none; type = codes "message"; content = raw (codes "b") }
          ∷ record { id = none; type = codes "message"; content = raw (codes "a") }
          ∷ []))
unfolding stream_get
stopped_early = refl

stream_get_chunks_example :
    stream_get one_text no_json keep_two "timed out" false (some (body chunks done)) []
    ≡ some (
        finish "timed out" false done
          (deliver (on_frame (parse_sse_frame no_json) keep_two) [] (blocks (concat chunks)).0))
stream_get_chunks_example =
    stream_get_chunks one_text no_json keep_two "timed out" false chunks done []

parse_sse_frame-print_frame_example :
    parse_sse_frame no_json (print_frame (codes "7") (codes "chunk") two_lines)
    ≡ some (record { id = some (codes "7"); type = codes "chunk"; content = raw (codes "a\nbc") })
parse_sse_frame-print_frame_example =
    parse_sse_frame-print_frame no_json (codes "7") (codes "chunk") (codes "a") (codes "bc" ∷ [])
      (omega arith) (omega arith) (omega arith) (λ e. cc)

parse_sse_event-print_frame_example :
    parse_sse_event no_json (print_frame (codes "7") (codes "chunk") two_lines)
    ≡ some (record { type = codes "chunk"; content = raw (codes "bc") })
parse_sse_event-print_frame_example =
    parse_sse_event-print_frame no_json (codes "7") (codes "chunk") (codes "a") (codes "bc" ∷ [])
      (omega arith) (omega arith) (omega arith) (λ e. cc)
