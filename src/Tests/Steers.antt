-- ===== src/Tests/Steers.antt =====
-- The polling at concrete answers.
use usezombie.Prelude.{
  ◌==◌, ◌≡◌, refl, false, Option, none, some, List, [], ◌∷◌, Text, codes, if◌then◌else◌,
}
use usezombie.Json.{Json, obj, field, end, str}
use usezombie.Steer.{
  Polls, complete, polled, poll_event_terminal, frame_callback, completed, ignored,
}
use usezombie.Sse.Stream.{body, done}
use usezombie.Steer.Tail
use usezombie.Steer.Tail.{tail_event_stream, tail_callback, tail_of, started}
use usezombie.Tests.Retries.{one_text}
use usezombie.Steer.Polling.{IsAnswer, poll_event_terminal-IsAnswer}

-- The event is done at the third poll.
abbrev pub third_time : Polls
third_time = record {
  rows = λ n.
      if n == 2
      then some (record { event_id = some "e"; status = some "processed" } ∷ [])
      else if n == 1
      then none
      else some (record { event_id = some "e"; status = some "received" } ∷ []);
  request_ms = λ n. 20;
  late_ms = λ n. 3;
  aborted_before = λ n. false;
  aborted_after = λ n. false;
}

done_at_third : poll_event_terminal "e" third_time 1000 ≡ some (complete "processed", 3)
unfolding poll_event_terminal polled
done_at_third = refl

own_completion :
    frame_callback "e"
      (codes "event_complete")
      (obj (field "event_id" (str "e") (field "status" (str "agent_error") end)))
    ≡ completed "agent_error"
unfolding frame_callback
own_completion = refl

foreign_completion :
    frame_callback "e" (codes "event_complete") (obj (field "event_id" (str "f") end)) ≡ ignored
unfolding frame_callback
foreign_completion = refl

poll_event_terminal-IsAnswer_example :
    IsAnswer "e" third_time 40 (poll_event_terminal "e" third_time 1000)
poll_event_terminal-IsAnswer_example = poll_event_terminal-IsAnswer "e" third_time 1000

-- The stream ends after the frame that completes the event, which comes in two chunks.
abbrev pub completion : Text → Option Json
completion text = some (obj (field "event_id" (str "e") end))

abbrev pub two_chunks : List Text
two_chunks = codes "event: event_complete\ndata: x\n" ∷ codes "\nevent: chunk\n" ∷ []

completed_tail :
    tail_event_stream one_text completion "e" "timed out" false (some (body two_chunks done))
    ≡ some (record { outcome = Tail.complete "unknown"; lines = [] })
unfolding tail_event_stream
completed_tail = refl
