-- ===== src/Registry/Sent.antt =====
-- A message of the user: shown at once, then confirmed by the server or marked as failed.
use usezombie.Prelude.{
  ℕ, ◌≡◌, refl, sym, ap, ◌∙◌, subst, String, Text, true, false, Option, none, some, Option-cases,
  inl, inr, List, [], ◌∷◌, ◌++◌, All, str_eq, Bool-cases, eq_iff, str_eq_refl, ||_false,
  if◌then◌else◌,
}
use usezombie.Json.{Json, is_object, get, string?}
use usezombie.Timeline.{
  ZombieEvent, LiveFrame, event_received, chunk, event_complete, other, has_id, apply_live_frame,
}
use usezombie.Registry.State.{World, put, set_events}
use usezombie.Registry.Operations.{on_frame}
use usezombie.Registry.Outbox.{
  temp_id, optimistic_event, append_optimistic, change_all, change_current, received_as, failed,
  reconcile_optimistic, mark_optimistic_failed,
}
use usezombie.Registry.Reconcile.{
  events_of, events_of-change, events_of-sent, events_of-applied, current-sent,
  append_optimistic-some, on_frames,
}
use usezombie.Registry.Commute.{IsOther, change_all-apply_live_frame}
use usezombie.Registry.Exchange.{Exchange, IsServerFrame, IsServerId, sent_id-fresh}

change_all_last :
    (c : ZombieEvent → ZombieEvent) (es : List ZombieEvent) (e : ZombieEvent)
    → has_id e.id es ≡ false
    → change_all e.id c (es ++ e ∷ []) ≡ es ++ c e ∷ []
change_all_last c [] e h = rw (str_eq_refl e.id) refl
change_all_last c (f ∷ es) e h =
    let (this, later) = ||_false (str_eq f.id e.id) (has_id e.id es) h in
    rw this (ap (λ fs. f ∷ fs) (change_all_last c es e later))

module _ (decode : Text → Option Json) (cast : Json → LiveFrame) (a : ℕ) where
  -- What a frame does to the events that are shown.
  abbrev kind_events : Json → ℕ → List ZombieEvent → Option String → List ZombieEvent
  kind_events v now es none = es
  kind_events v now es (some kind) = apply_live_frame es (cast v) now

  abbrev payload_events : ℕ → List ZombieEvent → Option Json → List ZombieEvent
  payload_events now es none = es
  payload_events now es (some v) =
      kind_events v now es (if is_object v then string? (get "kind" v) else none)

  record IsStep (w : World) (es : List ZombieEvent) (r : World) : Type 0 where
    current : r.current ≡ some a
    events : events_of r ≡ es

  on_frame-IsStep :
      (payload : Text) (now : ℕ) (w : World)
      → w.current ≡ some a
      → IsStep w
          (payload_events now (events_of w) (decode payload))
          (on_frame decode cast a payload now w)
  unfolding on_frame
  on_frame-IsStep payload now w here = elim (Option-cases (decode payload)) [
    | inl d ↦ rw (d, on_frame) record { current = here; events = refl }
    | inr (v, d) ↦ elim (Option-cases (if is_object v then string? (get "kind" v) else none)) [
      | inl k ↦ rw (d, on_frame) (rw k record { current = here; events = refl })
      | inr (kind, k) ↦
          rw (d, on_frame)
            (rw k record {
              current = here;
              events = events_of-applied decode cast a w (cast v) now here;
            })
    ]
  ]

  -- The frame, if the payload has one, is of another event.
  abbrev pub IsAbout : (LiveFrame → Type 0) → Text × ℕ → Type 0
  IsAbout P (payload, now) = (v : Json) → decode payload ≡ some v → P (cast v)

  module _ (temp : String) (g : ZombieEvent → ZombieEvent) where
    -- Neither the id nor what it is changed to is the frame's.
    Unrelated : LiveFrame → Type 0
    Unrelated f =
        IsOther temp f × ((e : ZombieEvent) → str_eq e.id temp ≡ true → IsOther (g e).id f)

    kind-commute :
        (v : Json) (now : ℕ) (es : List ZombieEvent) (kind : Option String)
        → Unrelated (cast v)
        → kind_events v now (change_all temp g es) kind
          ≡ change_all temp g (kind_events v now es kind)
    unfolding Unrelated
    kind-commute v now es none u = refl
    kind-commute v now es (some kind) u =
        sym (change_all-apply_live_frame temp g es (cast v) now u.0 u.1)

    payload-commute :
        (now : ℕ) (es : List ZombieEvent) (o : Option Json)
        → ((v : Json) → o ≡ some v → Unrelated (cast v))
        → payload_events now (change_all temp g es) o ≡ change_all temp g (payload_events now es o)
    payload-commute now es none u = refl
    payload-commute now es (some v) u =
        kind-commute v now es (if is_object v then string? (get "kind" v) else none) (u v refl)

    -- Two states of which one has the change, after the same frames.
    record IsAhead (w w' : World) : Type 0 where
      current : w.current ≡ some a
      current' : w'.current ≡ some a
      changed : events_of w' ≡ change_all temp g (events_of w)

    on_frames-IsAhead :
        (frames : List (Text × ℕ)) (w w' : World)
        → All (IsAbout Unrelated) frames
        → IsAhead w w'
        → IsAhead (on_frames decode cast a frames w) (on_frames decode cast a frames w')
    unfolding on_frames
    on_frames-IsAhead [] w w' u h = h
    on_frames-IsAhead ((payload, now) ∷ frames) w w' (u, us) h =
        let step = on_frame-IsStep payload now w h.current in
        let step' = on_frame-IsStep payload now w' h.current' in
        on_frames-IsAhead frames _ _ us record {
          current = step.current;
          current' = step'.current;
          changed =
              step'.events
              ∙ ap (λ es. payload_events now es (decode payload)) h.changed
              ∙ payload-commute now (events_of w) (decode payload) u
              ∙ ap (change_all temp g) (sym step.events);
        }

temp-not_server : (n : ℕ) (i : String) → IsServerId i → str_eq (temp_id n) i ≡ false
temp-not_server n i s = elim (Bool-cases (str_eq (temp_id n) i)) [
  | inr k ↦ k
  | inl k ↦ absurd (s n (sym ((eq_iff (temp_id n) i).0 k)))
]

temp-IsOther : (n : ℕ) (f : LiveFrame) → IsServerFrame f → IsOther (temp_id n) f
temp-IsOther n (event_received i actor) s = temp-not_server n i s
temp-IsOther n (chunk i text) s = temp-not_server n i s
temp-IsOther n (event_complete i status) s = temp-not_server n i s
temp-IsOther n other s = tt

change_current-current :
    (w : World) (a : ℕ) (next : List ZombieEvent → List ZombieEvent)
    → w.current ≡ some a
    → (change_current next w).current ≡ some a
unfolding change_current
change_current-current w a next here =
    let changed : change_current next w ≡ put a (set_events next (w.entries a)) w =
      simp (here, change_current) in
    ap (λ v. World.current v) changed ∙ here

module _ (decode : Text → Option Json) (cast : Json → LiveFrame) (a : ℕ)
    (from_server : (v : Json) → IsServerFrame (cast v)) (w : World) (text actor : Text) (now : ℕ)
    (x : Exchange decode cast a w) where
  abbrev temp : String
  temp = (append_optimistic text actor now w).0

  abbrev appended : World
  appended = (append_optimistic text actor now w).1

  here : w.current ≡ some a
  here = (sent_id-fresh decode cast a from_server w text actor now x).0

  fresh : has_id temp (events_of w) ≡ false
  fresh = (sent_id-fresh decode cast a from_server w text actor now x).1

  at_once :
      (g : ZombieEvent → ZombieEvent)
      → events_of (change_current (change_all temp g) appended)
        ≡ events_of w ++ g (optimistic_event temp text actor now) ∷ []
  at_once g =
      events_of-change appended a (current-sent w a here text actor now) (change_all temp g)
      ∙ ap (change_all temp g) (events_of-sent w a here text actor now)
      ∙ change_all_last g (events_of w) (optimistic_event temp text actor now) fresh

  sent_id-IsOther : (f : LiveFrame) → IsServerFrame f → IsOther temp f
  sent_id-IsOther f s =
      subst (λ id. IsOther id f)
        (ap (λ p. p.0) (sym (append_optimistic-some w a here text actor now))) (temp-IsOther _ f s)

  after_frames :
      (g : ZombieEvent → ZombieEvent) (frames : List (Text × ℕ))
      → All (IsAbout decode cast a (Unrelated decode cast a temp g)) frames
      → events_of (change_current (change_all temp g) (on_frames decode cast a frames appended))
        ≡ events_of (on_frames decode cast a frames (change_current (change_all temp g) appended))
  after_frames g frames u =
      let sent = current-sent w a here text actor now in
      let ahead =
        on_frames-IsAhead decode cast a temp g frames appended
          (change_current (change_all temp g) appended) u
          record {
            current = sent;
            current' = change_current-current appended a (change_all temp g) sent;
            changed = events_of-change appended a sent (change_all temp g);
          } in
      events_of-change (on_frames decode cast a frames appended) a ahead.current (change_all temp g)
      ∙ sym ahead.changed

  All-Unrelated :
      (g : ZombieEvent → ZombieEvent) (frames : List (Text × ℕ)) (P : LiveFrame → Type 0)
      → ((f : LiveFrame)
          → IsServerFrame f
          → P f
          → (e : ZombieEvent) → str_eq e.id temp ≡ true
          → IsOther (g e).id f)
      → All (IsAbout decode cast a P) frames
      → All (IsAbout decode cast a (Unrelated decode cast a temp g)) frames
  unfolding Unrelated
  All-Unrelated g [] P k h = tt
  All-Unrelated g ((payload, at) ∷ frames) P k (h, hs) = (
    (λ v d. (sent_id-IsOther (cast v) (from_server v), k (cast v) (from_server v) (h v d))),
    All-Unrelated g frames P k hs,
  )

  -- If no frame of the server has a temporary id, then in every state that a conversation comes to from
  -- events of the server (by messages, confirmations with ids of the server, failures and frames), a new
  -- message is shown under an id that no event has. The confirmation gives that event alone the server's id
  -- and the status "received", and a failure changes that event's status alone. Frames that are not of the
  -- server's event for the message and arrive in between make no difference: the events are those that
  -- there are if these frames come after the confirmation or the failure.
  pub sent_settled :
      (real : String) (frames : List (Text × ℕ))
      → All (IsAbout decode cast a (IsOther real)) frames
      → (let (id, sent) = append_optimistic text actor now w in
          let message = optimistic_event id text actor now in
          (has_id id (events_of w) ≡ false)
          × (events_of (reconcile_optimistic id real sent)
              ≡ events_of w ++ received_as real message ∷ [])
          × (events_of (mark_optimistic_failed id sent) ≡ events_of w ++ failed message ∷ [])
          × (events_of (reconcile_optimistic id real (on_frames decode cast a frames sent))
              ≡ events_of (on_frames decode cast a frames (reconcile_optimistic id real sent)))
          × (events_of (mark_optimistic_failed id (on_frames decode cast a frames sent))
              ≡ events_of (on_frames decode cast a frames (mark_optimistic_failed id sent))))
  unfolding reconcile_optimistic mark_optimistic_failed
  sent_settled real frames others = (
    fresh,
    at_once (received_as real),
    at_once failed,
    after_frames (received_as real) frames
        (All-Unrelated (received_as real) frames (IsOther real) (λ f s o e h. o) others),
    after_frames failed frames (
        All-Unrelated failed frames (IsOther real)
          (λ f s o e h.
            subst (λ id. IsOther id f) (sym ((eq_iff e.id temp).0 h)) (sent_id-IsOther f s))
          others),
  )
