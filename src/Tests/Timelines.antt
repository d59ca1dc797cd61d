-- ===== src/Tests/Timelines.antt =====
-- The timeline at concrete events, rows and frames.
use usezombie.Prelude.{ℕ, ◌≡◌, refl, String, codes, List, [], ◌∷◌, ◌++◌, none, some, map}
use mathlib.Core.List.{Perm}
use usezombie.Timeline.{
  ZombieEvent, EventRow, LiveFrame, event_received, chunk, event_complete, other, row_to_event,
  merge_backfill, apply_live_frame, agent_event,
}
use usezombie.Timeline.ByEvent.{
  event_of, step, text_of, chunk_texts, apply_frames, apply_live_frame-step, apply_frames_text,
}
use usezombie.Timeline.Distinct.{IsDistinct, apply_frames-IsDistinct}
use usezombie.Timeline.Backfill.{IsSorted, fresh, merge_backfill-IsSorted}

abbrev row : String → ℕ → EventRow
row id at = record {
  event_id = id;
  actor = codes "steer:kishore";
  status = "processed";
  request_json = "{}";
  response_text = some (codes "done");
  created_at = at;
}

abbrev two_rows : List EventRow
two_rows = row "b" 20 ∷ row "a" 10 ∷ []

abbrev one_event : List ZombieEvent
one_event = agent_event "c" (codes "x") 15 ∷ []

abbrev mixed : List (LiveFrame × ℕ)
mixed =
    (event_received "d" (codes "agent"), 30)
    ∷ (chunk "d" (codes "he"), 31)
    ∷ (chunk "c" (codes "y"), 32)
    ∷ (chunk "d" (codes "llo"), 33)
    ∷ (event_complete "d" none, 34)
    ∷ (other, 35)
    ∷ []

ids_in_order : map (λ e. e.id) (merge_backfill one_event two_rows) ≡ "a" ∷ "c" ∷ "b" ∷ []
unfolding merge_backfill
ids_in_order = refl

text_shown : text_of (event_of "d" (apply_frames one_event mixed)) ≡ codes "hello"
unfolding apply_frames
text_shown = refl

apply_live_frame-step_example :
    event_of "c" (apply_live_frame one_event (chunk "c" (codes "y")) 16)
    ≡ step (chunk "c" (codes "y")) 16 "c" (event_of "c" one_event)
apply_live_frame-step_example = apply_live_frame-step "c" one_event 16 (chunk "c" (codes "y"))

apply_frames_text_example :
    text_of (event_of "d" (apply_frames one_event mixed))
    ≡ text_of (event_of "d" one_event) ++ chunk_texts "d" mixed
apply_frames_text_example = apply_frames_text mixed "d" one_event

apply_frames-IsDistinct_example : IsDistinct (apply_frames one_event mixed)
apply_frames-IsDistinct_example = apply_frames-IsDistinct one_event mixed (refl, tt)

merge_backfill-IsSorted_example :
    IsSorted (merge_backfill one_event two_rows)
    × Perm
        (merge_backfill one_event two_rows)
        (map row_to_event (fresh one_event two_rows) ++ one_event)
merge_backfill-IsSorted_example = merge_backfill-IsSorted one_event two_rows
