-- ===== src/Registry/Reconcile.antt =====
-- A message of the user: shown at once, then given the id of the event that the server made of it.
use usezombie.Prelude.{
  ℕ, suc, ◌≡◌, sym, ap, ◌∙◌, String, Text, true, false, Option, none, some, List, [], ◌∷◌, ◌++◌,
  str_eq, subst, if◌then◌else◌,
}
use usezombie.Json.{Json, is_object, get, string?}
use usezombie.Timeline.{ZombieEvent, LiveFrame, event_received, has_id, apply_live_frame}
use usezombie.Timeline.Distinct.{IsDistinct}
use usezombie.Registry.State.{World, Entry, put, set_events}
use usezombie.Registry.Connections.{set_entry-own}
use usezombie.Registry.Operations.{get_snapshot, on_frame}
use usezombie.Registry.Outbox.{
  temp_id, optimistic_event, append_optimistic, change_current, reconcile_optimistic,
}
use usezombie.Registry.Settled.{
  has_id-last, apply_live_frame-keeps, apply_live_frame-received, settle, settle-duplicates,
}

-- What the client shows.
abbrev pub events_of : World → List ZombieEvent
events_of w = (get_snapshot w).events

get_snapshot-some :
    (w : World) (a : ℕ) → w.current ≡ some a → get_snapshot w ≡ (w.entries a).snapshot
unfolding get_snapshot
get_snapshot-some w a here = simp (here, get_snapshot)

events_of-put :
    (w : World) (a : ℕ) (e : Entry) → w.current ≡ some a → events_of (put a e w) ≡ e.snapshot.events
events_of-put w a e here =
    ap (λ s. s.events) (get_snapshot-some (put a e w) a here)
    ∙ ap (λ e. (Entry.snapshot e).events) (set_entry-own a e w.entries)

module _ (w : World) (a : ℕ) (here : w.current ≡ some a) where
  pub events_of-entry : (w.entries a).snapshot.events ≡ events_of w
  events_of-entry = ap (λ s. s.events) (sym (get_snapshot-some w a here))

  pub events_of-change :
      (next : List ZombieEvent → List ZombieEvent)
      → events_of (change_current next w) ≡ next (events_of w)
  unfolding change_current
  events_of-change next =
      let changed : change_current next w ≡ put a (set_events next (w.entries a)) w =
        simp (here, change_current) in
      ap events_of changed
      ∙ events_of-put w a (set_events next (w.entries a)) here
      ∙ ap next events_of-entry

module _ (w : World) (a : ℕ) (here : w.current ≡ some a) (text actor : Text) (now : ℕ) where
  -- The id under which the message is shown at first, and the state with it.
  abbrev pub sent_id : String
  sent_id = (append_optimistic text actor now w).0

  abbrev pub sent : World
  sent = (append_optimistic text actor now w).1

  abbrev counted : Entry
  counted = record (w.entries a) { temp_counter = suc (w.entries a).temp_counter }

  abbrev shown : Entry
  shown =
      set_events
        (λ prev. prev ++ optimistic_event (temp_id counted.temp_counter) text actor now ∷ [])
        counted

  pub append_optimistic-some :
      append_optimistic text actor now w ≡ (temp_id counted.temp_counter, put a shown w)
  unfolding append_optimistic
  append_optimistic-some = simp (here, append_optimistic)

  pub current-sent : sent.current ≡ some a
  current-sent = ap (λ p. World.current p.1) append_optimistic-some ∙ here

  pub events_of-sent : events_of sent ≡ events_of w ++ optimistic_event sent_id text actor now ∷ []
  events_of-sent =
      ap (λ p. events_of p.1) append_optimistic-some
      ∙ events_of-put w a shown here
      ∙ ap (λ es. es ++ optimistic_event (temp_id counted.temp_counter) text actor now ∷ [])
          (events_of-entry w a here)
      ∙ ap (λ p. events_of w ++ optimistic_event p.0 text actor now ∷ [])
          (sym append_optimistic-some)

  has_id-sent : has_id sent_id (events_of sent) ≡ true
  has_id-sent =
      ap (has_id sent_id) events_of-sent
      ∙ has_id-last (optimistic_event sent_id text actor now) (events_of w)

-- What a frame does to the state.
pub data IsFramed (cast : Json → LiveFrame) (w : World) (a now : ℕ) : World → Type 0 where
  ignored : IsFramed cast w a now w
  applied :
      (v : Json)
      → IsFramed cast w a now
          (put a (set_events (λ prev. apply_live_frame prev (cast v) now) (w.entries a)) w)

-- The entry that is shown, and an event with the id in it.
record Shows (a : ℕ) (id : String) (w : World) : Type 0 where
  current : w.current ≡ some a
  shown : has_id id (events_of w) ≡ true

module _ (decode : Text → Option Json) (cast : Json → LiveFrame) (a : ℕ) where
  pub on_frame-IsFramed :
      (payload : Text) (now : ℕ) (w : World)
      → IsFramed cast w a now (on_frame decode cast a payload now w)
  unfolding on_frame
  on_frame-IsFramed payload now w = decoded (decode payload)
    where
      of_kind :
          (parsed : Json) (kind : Option String)
          → IsFramed cast w a now (elim kind [
            | none ↦ w
            | some _ ↦
                put a (set_events (λ prev. apply_live_frame prev (cast parsed) now) (w.entries a)) w
          ])
      of_kind parsed none = ignored
      of_kind parsed (some kind) = applied parsed

      decoded :
          (o : Option Json)
          → IsFramed cast w a now (elim o [
            | none ↦ w
            | some parsed ↦ elim (if is_object parsed then string? (get "kind" parsed) else none) [
              | none ↦ w
              | some _ ↦
                  put a
                    (set_events (λ prev. apply_live_frame prev (cast parsed) now) (w.entries a))
                    w
            ]
          ])
      decoded none = ignored
      decoded (some parsed) =
          of_kind parsed (if is_object parsed then string? (get "kind" parsed) else none)

  pub events_of-applied :
      (w : World) (f : LiveFrame) (now : ℕ)
      → w.current ≡ some a
      → events_of (put a (set_events (λ prev. apply_live_frame prev f now) (w.entries a)) w)
        ≡ apply_live_frame (events_of w) f now
  events_of-applied w f now here =
      events_of-put w a (set_events (λ prev. apply_live_frame prev f now) (w.entries a)) here
      ∙ ap (λ es. apply_live_frame es f now) (events_of-entry w a here)

  Shows-framed :
      (id : String) (w : World) (now : ℕ) {r : World}
      → Shows a id w
      → IsFramed cast w a now r
      → Shows a id r
  Shows-framed id w now s ignored = s
  Shows-framed id w now s (applied v) = record {
    current = s.current;
    shown =
        ap (has_id id) (events_of-applied w (cast v) now s.current)
        ∙ apply_live_frame-keeps id (events_of w) (cast v) now s.shown;
  }

  -- The frames of the stream, one after the other.
  unfoldable pub on_frames : List (Text × ℕ) → World → World
  unfolding on_frame
  on_frames [] w = w
  on_frames ((payload, now) ∷ frames) w = on_frames frames (on_frame decode cast a payload now w)

  Shows-frames :
      (id : String) (frames : List (Text × ℕ)) (w : World)
      → Shows a id w
      → Shows a id (on_frames frames w)
  unfolding on_frames
  Shows-frames id [] w s = s
  Shows-frames id ((payload, now) ∷ frames) w s =
      Shows-frames id frames _ (Shows-framed id w now s (on_frame-IsFramed payload now w))

  Shows-received :
      (id : String) (actor : Text) (payload : Text) (parsed : Json) (kind : String) (now : ℕ)
      (w : World)
      → decode payload ≡ some parsed
      → is_object parsed ≡ true
      → string? (get "kind" parsed) ≡ some kind
      → cast parsed ≡ event_received id actor
      → w.current ≡ some a
      → Shows a id (on_frame decode cast a payload now w)
  unfolding on_frame
  Shows-received id actor payload parsed kind now w d o k c here =
      rw (d, on_frame)
        (rw (o, k)
          record {
            current = here;
            shown =
                ap (has_id id) (events_of-applied w (cast parsed) now here)
                ∙ ap (λ f. has_id id (apply_live_frame (events_of w) f now)) c
                ∙ apply_live_frame-received id (events_of w) actor now;
          })

  -- A message is appended, frames arrive, among them one that is read as the server's frame for the event
  -- that it made of the message, and then the confirmation comes with the event's id, which is not the
  -- temporary one: two events of the timeline have the same id.
  pub reconcile_duplicates :
      (w : World) (text actor : Text) (at : ℕ) (before after : List (Text × ℕ)) (real : String)
      (by payload : Text) (parsed : Json) (kind : String) (now : ℕ)
      → (here : w.current ≡ some a) → str_eq real (append_optimistic text actor at w).0 ≡ false
      → decode payload ≡ some parsed
      → is_object parsed ≡ true
      → string? (get "kind" parsed) ≡ some kind
      → cast parsed ≡ event_received real by
      → (let (temp, appended) = append_optimistic text actor at w in
          ¬ IsDistinct (
            events_of (
              reconcile_optimistic temp real (
                on_frames after (on_frame decode cast a payload now (on_frames before appended))))))
  unfolding reconcile_optimistic
  reconcile_duplicates w text actor at before after real by payload parsed kind now here differ d o
        k c n =
      settle-duplicates temp real differ (events_of last) message.shown server.shown
        (subst IsDistinct (events_of-change last a message.current (settle temp real differ)) n)
    where
      temp : String
      temp = (append_optimistic text actor at w).0

      first : World
      first = on_frames before (append_optimistic text actor at w).1

      last : World
      last = on_frames after (on_frame decode cast a payload now first)

      message_first : Shows a temp first
      message_first = Shows-frames temp before _ record {
        current = current-sent w a here text actor at;
        shown = has_id-sent w a here text actor at;
      }

      message : Shows a temp last
      message =
          Shows-frames temp after _
            (Shows-framed temp first now message_first (on_frame-IsFramed payload now first))

      server : Shows a real last
      server =
          Shows-frames real after _
            (Shows-received real by payload parsed kind now first d o k c message_first.current)
