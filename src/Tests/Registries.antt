-- ===== src/Tests/Registries.antt =====
-- The registry of event streams in concrete states.
use usezombie.Prelude.{
  ℕ, suc, ap, ◌∙◌, List, ◌++◌, false, arith, ◌≡◌, refl, Text, codes, [], ◌∷◌, Option, none, some,
}
use mathlib.Core.List.{Memᴰ}
use usezombie.Json.{Json, str, obj, end, field}
use usezombie.Timeline.{has_id, LiveFrame, other, event_received, apply_live_frame}
use usezombie.Timeline.Distinct.{IsDistinct}
use usezombie.Registry.State.{World, Timer, reconnecting}
use usezombie.Registry.Operations.{
  subscribe, release_subscriber, create_entry, on_event_source_error, idle_release, on_frame,
  on_open, get_snapshot,
}
use usezombie.Registry.Outbox.{
  append_optimistic, digits, mark_optimistic_failed, optimistic_event, received_as, failed,
  reconcile_optimistic, temp_id,
}
use usezombie.Registry.Connections.{IsSound}
use usezombie.Registry.Reachable.{
  Reachable, start, next, subscribed, released, Reachable-IsSound, idle_release_closes,
}
use text.Mathlib.TextLemmas.{cons-append, head-eq_of_cons-eq}
use Prim.Native.Char.{code}
use usezombie.Registry.Exchange.{Exchange, opened, IsServerId}
use usezombie.Registry.Sent.{sent_settled}
use usezombie.Registry.Reconcile.{events_of, on_frames, reconcile_duplicates}

abbrev empty : World
empty = record {
  current = none;
  entries = λ a. create_entry "" [];
  fresh = 0;
  sources = [];
  reconnects = [];
  idles = [];
}

-- Frames are not read.
abbrev no_json : Text → Option Json
no_json t = none

abbrev no_frame : Json → LiveFrame
no_frame v = other

-- Every payload is the frame of the event "evt-1".
abbrev one_json : Text → Option Json
one_json t = some (obj (field "kind" (str "event_received") end))

abbrev one_frame : Json → LiveFrame
one_frame v = event_received "evt-1" (codes "steer:user")

abbrev watched : World
watched = subscribe "w" [] 7 empty

abbrev left : World
left = release_subscriber 7 watched

abbrev idle_timer_of_left : Timer
idle_timer_of_left = record { handle = 2; owner = 0; delay = 30000 }

watched-Reachable : Reachable no_json no_frame watched 1
watched-Reachable = next (start (λ a. create_entry "" []) 0) (subscribed "w" [] 7)

left-Reachable : Reachable no_json no_frame left 0
left-Reachable = next watched-Reachable (released 7)

broken_off :
    (get_snapshot (on_event_source_error 0 (on_open 0 watched))).connection_status ≡ reconnecting
unfolding subscribe on_event_source_error on_open get_snapshot
broken_off = refl

Reachable-IsSound_example : IsSound left 0
Reachable-IsSound_example = Reachable-IsSound no_json no_frame left-Reachable

idle_release_closes_example :
    (idle_release idle_timer_of_left left).current ≡ none
    × (idle_release idle_timer_of_left left).sources ≡ []
    × (idle_release idle_timer_of_left left).reconnects ≡ []
    × (idle_release idle_timer_of_left left).idles ≡ []
unfolding subscribe release_subscriber
idle_release_closes_example =
    idle_release_closes no_json no_frame left-Reachable idle_timer_of_left (Memᴰ.head refl)

-- The first temporary id.
first_id : temp_id 1 ≡ "optim-1"
unfolding temp_id
first_id = refl

abbrev words : Text
words = codes "hello"

abbrev user_actor : Text
user_actor = codes "steer:user"

-- One frame of the event "evt-1".
abbrev other_frames : List (Text × ℕ)
other_frames = ([], 10) ∷ []

abbrev frame_payload : Json
frame_payload = obj (field "kind" (str "event_received") end)

watched-Exchange : Exchange one_json one_frame 0 watched
unfolding subscribe
watched-Exchange = opened watched refl tt

evt_1-IsServerId : IsServerId "evt-1"
unfolding temp_id
evt_1-IsServerId n e = absurd (
    differ (
      ap code (
        head-eq_of_cons-eq {x = "e"} {y = "o"} {xs = "vt-1"}
          (e ∙ cons-append "o" "ptim-" (digits (suc n) n "")))))
  where
    differ : ◌≡◌ {A = ℕ} 101 111 → ⊥
    differ h = omega arith

sent_settled_example :
    (has_id "optim-1" (events_of watched) ≡ false)
    × (events_of
          (reconcile_optimistic "optim-1" "evt-2" (append_optimistic words user_actor 9 watched).1)
        ≡ events_of watched
          ++ received_as "evt-2" (optimistic_event "optim-1" words user_actor 9) ∷ [])
    × (events_of (mark_optimistic_failed "optim-1" (append_optimistic words user_actor 9 watched).1)
        ≡ events_of watched ++ failed (optimistic_event "optim-1" words user_actor 9) ∷ [])
    × (events_of (
          reconcile_optimistic "optim-1" "evt-2" (
            on_frames one_json one_frame 0 other_frames
              (append_optimistic words user_actor 9 watched).1))
        ≡ events_of (
            on_frames one_json one_frame 0 other_frames (
              reconcile_optimistic "optim-1" "evt-2"
                (append_optimistic words user_actor 9 watched).1)))
    × (events_of (
          mark_optimistic_failed "optim-1" (
            on_frames one_json one_frame 0 other_frames
              (append_optimistic words user_actor 9 watched).1))
        ≡ events_of (
            on_frames one_json one_frame 0 other_frames
              (mark_optimistic_failed "optim-1" (append_optimistic words user_actor 9 watched).1)))
unfolding subscribe append_optimistic
sent_settled_example =
    sent_settled one_json one_frame 0 (λ v. evt_1-IsServerId) watched words user_actor 9
      watched-Exchange "evt-2" other_frames ((λ v d. refl), tt)

reconcile_duplicates_example : ¬ IsDistinct (
    events_of (
      reconcile_optimistic "optim-1" "evt-1"
        (on_frame one_json one_frame 0 [] 10 (append_optimistic words user_actor 9 watched).1)))
unfolding subscribe append_optimistic temp_id get_snapshot on_frame on_frames apply_live_frame
reconcile_duplicates_example =
    reconcile_duplicates one_json one_frame 0 watched words user_actor 9 [] [] "evt-1"
      (codes "steer:user") [] frame_payload "event_received" 10 refl refl refl refl refl refl
