-- ===== src/Timeline.antt =====
-- ui/packages/app/lib/streaming/zombie-stream-frames.ts: the timeline of a zombie's events, which a
-- backfill seeds and live frames extend. A frame has the fields that its type declares. Times are
-- milliseconds, and `new Date()` is the argument `now`.
pub mod ByEvent
pub mod Distinct
pub mod Backfill
use usezombie.Prelude.{
  ℕ, String, Bool, true, false, Option, none, some, List, [], ◌∷◌, ◌++◌, map, any, find, keep, not,
  leb, if◌then◌else◌, str_eq, Text, codes, starts_with, text_eq,
}

pub data Role : Type 0 where
  user assistant system : Role

-- `id` and `status` are compared whole; `actor` and `text` are lists of code units. `request` is the
-- `requestJson` of `custom`, where there is one.
pub record ZombieEvent : Type 0 where
  pub id : String
  pub role : Role
  pub actor : Text
  pub text : Text
  pub created_at : ℕ
  pub status : String
  pub request : Option String

-- What the timeline reads of a row.
pub record EventRow : Type 0 where
  pub event_id : String
  pub actor : Text
  pub status : String
  pub request_json : String
  pub response_text : Option Text
  pub created_at : ℕ

-- `other` is a frame of a tool call, or of a kind that is not known.
pub data LiveFrame : Type 0 where
  event_received : String → Text → LiveFrame
  chunk : String → Text → LiveFrame
  event_complete : String → Option String → LiveFrame
  other : LiveFrame

abbrev pub status_received : String
status_received = "received"

abbrev pub status_processed : String
status_processed = "processed"

unfoldable pub actor_to_role : Text → Role
actor_to_role actor =
    if starts_with actor (codes "steer:")
    then user
    else if text_eq actor (codes "agent")
    then assistant
    else system

abbrev pub text_or_empty : Option Text → Text
text_or_empty none = []
text_or_empty (some t) = t

unfoldable pub row_to_event : EventRow → ZombieEvent
unfolding actor_to_role
row_to_event row = record {
  id = row.event_id;
  role = actor_to_role row.actor;
  actor = row.actor;
  text = text_or_empty row.response_text;
  created_at = row.created_at;
  status = row.status;
  request = some row.request_json;
}

-- `new Set(events.map((e) => e.id)).has(id)`, and `events.some((e) => e.id === id)`
abbrev pub has_id : String → List ZombieEvent → Bool
has_id id = any (λ e. str_eq e.id id)

-- `sort((a, b) => a.createdAt - b.createdAt)`, which is stable.
unfoldable pub insert_event : ZombieEvent → List ZombieEvent → List ZombieEvent
insert_event e [] = e ∷ []
insert_event e (f ∷ fs) =
    let later = insert_event e fs in if leb e.created_at f.created_at then e ∷ f ∷ fs else f ∷ later

unfoldable pub sort_events : List ZombieEvent → List ZombieEvent
unfolding insert_event
sort_events [] = []
sort_events (e ∷ es) = insert_event e (sort_events es)

unfoldable pub merge_backfill : List ZombieEvent → List EventRow → List ZombieEvent
unfolding row_to_event sort_events
merge_backfill prev rows =
    sort_events (map row_to_event (keep (λ r. not (has_id r.event_id prev)) rows) ++ prev)

-- `prev.map((e) => (e === existing ? change(e) : e))` for `existing` the first event with the id: the
-- events are objects of their own, so that one is changed and no other.
unfoldable pub change_first :
    String → (ZombieEvent → ZombieEvent) → List ZombieEvent → List ZombieEvent
change_first id change [] = []
change_first id change (e ∷ es) =
    let later = change_first id change es in if str_eq e.id id then change e ∷ es else e ∷ later

unfoldable pub apply_event_received : List ZombieEvent → String → Text → ℕ → List ZombieEvent
unfolding actor_to_role
apply_event_received prev id actor now =
    if has_id id prev
    then prev
    else prev
      ++ record {
        id = id;
        role = actor_to_role actor;
        actor = actor;
        text = [];
        created_at = now;
        status = status_received;
        request = none;
      }
        ∷ []

abbrev pub assistant_unless_user : Role → Role
assistant_unless_user user = user
assistant_unless_user _ = assistant

abbrev pub add_text : Text → ZombieEvent → ZombieEvent
add_text text e = record e { role = assistant_unless_user e.role; text = e.text ++ text }

abbrev pub agent_event : String → Text → ℕ → ZombieEvent
agent_event id text now = record {
  id = id;
  role = assistant;
  actor = codes "agent";
  text = text;
  created_at = now;
  status = status_received;
  request = none;
}

unfoldable pub apply_chunk : List ZombieEvent → String → Text → ℕ → List ZombieEvent
unfolding change_first
apply_chunk prev id text now =
    if has_id id prev
    then change_first id (add_text text) prev
    else prev ++ agent_event id text now ∷ []

abbrev pub status_or_processed : Option String → String
status_or_processed none = status_processed
status_or_processed (some s) = s

abbrev pub complete : Option String → ZombieEvent → ZombieEvent
complete status e = record e { status = status_or_processed status }

unfoldable pub apply_event_complete : List ZombieEvent → String → Option String → List ZombieEvent
unfolding change_first
apply_event_complete prev id status =
    if has_id id prev then change_first id (complete status) prev else prev

unfoldable pub apply_live_frame : List ZombieEvent → LiveFrame → ℕ → List ZombieEvent
unfolding apply_event_received apply_chunk apply_event_complete
apply_live_frame prev (event_received id actor) now = apply_event_received prev id actor now
apply_live_frame prev (chunk id text) now = apply_chunk prev id text now
apply_live_frame prev (event_complete id status) now = apply_event_complete prev id status
apply_live_frame prev other now = prev
