-- ===== src/Timeline/ByEvent.antt =====
-- The timeline as a map from ids to events: what a live frame does to the event of each id.
use usezombie.Prelude.{
  str_eq-other, ℕ, String, ◌≡◌, refl, sym, Bool, true, false, Option, none, some, List, [], ◌∷◌,
  ◌++◌, find, str_eq, eq_iff, if◌then◌else◌, Bool-cases, inl, inr, ap, Text, Option-cases, ◌∙◌,
}
use mathlib.Core.List.{append-nil, append_assoc}
use usezombie.Timeline.{
  ZombieEvent, LiveFrame, event_received, chunk, event_complete, other, has_id, actor_to_role,
  status_received, agent_event, add_text, complete, change_first, apply_live_frame,
  apply_event_received, apply_chunk, apply_event_complete,
}

-- The event of an id: `prev.find((e) => e.id === id)`.
abbrev pub event_of : String → List ZombieEvent → Option ZombieEvent
event_of id = find (λ e. str_eq e.id id)

abbrev received_event : String → Text → ℕ → ZombieEvent
received_event id actor now = record {
  id = id;
  role = actor_to_role actor;
  actor = actor;
  text = [];
  created_at = now;
  status = status_received;
  request = none;
}

-- What a frame means for the event of its own id.
abbrev on_received : String → Text → ℕ → Option ZombieEvent → Option ZombieEvent
on_received id actor now none = some (received_event id actor now)
on_received id actor now (some e) = some e

abbrev on_chunk : String → Text → ℕ → Option ZombieEvent → Option ZombieEvent
on_chunk id text now none = some (agent_event id text now)
on_chunk id text now (some e) = some (add_text text e)

abbrev on_complete : Option String → Option ZombieEvent → Option ZombieEvent
on_complete status none = none
on_complete status (some e) = some (complete status e)

-- What a frame means for the event of any id.
abbrev pub step : LiveFrame → ℕ → String → Option ZombieEvent → Option ZombieEvent
step (event_received i actor) now id o = if str_eq i id then on_received i actor now o else o
step (chunk i text) now id o = if str_eq i id then on_chunk i text now o else o
step (event_complete i status) now id o = if str_eq i id then on_complete status o else o
step other now id o = o

abbrev or_event : Option ZombieEvent → ZombieEvent → String → Option ZombieEvent
or_event none e id = if str_eq e.id id then some e else none
or_event (some f) e id = some f

event_of-append :
    (id : String) (es : List ZombieEvent) (e : ZombieEvent)
    → event_of id (es ++ e ∷ []) ≡ or_event (event_of id es) e id
event_of-append id [] e = refl
event_of-append id (f ∷ es) e = elim (Bool-cases (str_eq f.id id)) [
  | inl h ↦ rw h refl
  | inr h ↦ rw h (event_of-append id es e)
]

abbrev pub is_some : Option ZombieEvent → Bool
is_some none = false
is_some (some _) = true

pub has_id-event_of :
    (id : String) (es : List ZombieEvent) → has_id id es ≡ is_some (event_of id es)
has_id-event_of id [] = refl
has_id-event_of id (f ∷ es) = elim (Bool-cases (str_eq f.id id)) [
  | inl h ↦ rw h refl
  | inr h ↦ rw h (has_id-event_of id es)
]

abbrev on_event : (ZombieEvent → ZombieEvent) → Option ZombieEvent → Option ZombieEvent
on_event c none = none
on_event c (some e) = some (c e)

event_of-change_first :
    (i id : String) (c : ZombieEvent → ZombieEvent) (es : List ZombieEvent)
    → ((e : ZombieEvent) → (c e).id ≡ e.id)
    → event_of id (change_first i c es)
      ≡ (if str_eq i id then on_event c (event_of id es) else event_of id es)
unfolding change_first
event_of-change_first i id c [] k = elim (Bool-cases (str_eq i id)) [
  | inl h ↦ rw h refl
  | inr h ↦ rw h refl
]
event_of-change_first i id c (e ∷ es) k = elim (Bool-cases (str_eq e.id i)) [
  | inl h ↦
      let same = (eq_iff e.id i).0 h in
      let own : str_eq e.id id ≡ str_eq i id = ap (λ s. str_eq s id) same in
      let changed : str_eq (c e).id id ≡ str_eq i id = ap (λ s. str_eq s id) (k e ∙ same) in
      elim (Bool-cases (str_eq i id)) [
        | inl j ↦ rw h (rw (changed, own, j) refl)
        | inr j ↦ rw h (rw (changed, own, j) refl)
      ]
  | inr h ↦ elim (Bool-cases (str_eq e.id id)) [
    | inl j ↦ rw (h, j) (rw (str_eq-other e.id i id h j) refl)
    | inr j ↦ rw (h, j) (event_of-change_first i id c es k)
  ]
]

event_of-own :
    (i id : String) (es : List ZombieEvent) (act : Option ZombieEvent → Option ZombieEvent)
    {o : Option ZombieEvent}
    → event_of i es ≡ o
    → (if str_eq i id then act o else event_of id es)
      ≡ (if str_eq i id then act (event_of id es) else event_of id es)
event_of-own i id es act found = elim (Bool-cases (str_eq i id)) [
  | inl h ↦ rw h (ap act (sym found ∙ ap (λ s. event_of s es) ((eq_iff i id).0 h)))
  | inr h ↦ rw h refl
]

unchanged :
    (i id : String) (es : List ZombieEvent) {o : Option ZombieEvent}
    → event_of i es ≡ o
    → event_of id es ≡ (if str_eq i id then o else event_of id es)
unchanged i id es found = elim (Bool-cases (str_eq i id)) [
  | inl h ↦ rw h (ap (λ s. event_of s es) (sym ((eq_iff i id).0 h)) ∙ found)
  | inr h ↦ rw h refl
]

append_event :
    (id : String) (es : List ZombieEvent) (e : ZombieEvent)
    → event_of e.id es ≡ none
    → event_of id (es ++ e ∷ []) ≡ (if str_eq e.id id then some e else event_of id es)
append_event id es e gone = elim (Bool-cases (str_eq e.id id)) [
  | inl h ↦
      let gone' : event_of id es ≡ none =
        ap (λ s. event_of s es) (sym ((eq_iff e.id id).0 h)) ∙ gone in
      rw (event_of-append id es e) (rw (gone', h) refl)
  | inr h ↦ rw (event_of-append id es e) (elim (Option-cases (event_of id es)) [
    | inl o ↦ rw (o, h) refl
    | inr (f, o) ↦ rw (o, h) refl
  ])
]

module _ (id : String) (es : List ZombieEvent) (now : ℕ) where
  received-step :
      (i : String) (actor : Text)
      → event_of id (apply_event_received es i actor now)
        ≡ step (event_received i actor) now id (event_of id es)
  unfolding apply_event_received
  received-step i actor = elim (Option-cases (event_of i es)) [
    | inl o ↦
        rw (has_id-event_of i es, o)
          (append_event id es (received_event i actor now) o
            ∙ event_of-own i id es (on_received i actor now) o)
    | inr (f, o) ↦
        rw (has_id-event_of i es, o)
          (unchanged i id es o ∙ event_of-own i id es (on_received i actor now) o)
  ]

  chunk-step :
      (i : String) (text : Text)
      → event_of id (apply_chunk es i text now) ≡ step (chunk i text) now id (event_of id es)
  unfolding apply_chunk
  chunk-step i text = elim (Option-cases (event_of i es)) [
    | inl o ↦
        rw (has_id-event_of i es, o)
          (append_event id es (agent_event i text now) o
            ∙ event_of-own i id es (on_chunk i text now) o)
    | inr (f, o) ↦
        rw (has_id-event_of i es, o)
          (event_of-change_first i id (add_text text) es (λ e. refl)
            ∙ sym (event_of-own i id es (on_event (add_text text)) o)
            ∙ event_of-own i id es (on_chunk i text now) o)
  ]

  complete-step :
      (i : String) (status : Option String)
      → event_of id (apply_event_complete es i status)
        ≡ step (event_complete i status) now id (event_of id es)
  unfolding apply_event_complete
  complete-step i status = elim (Option-cases (event_of i es)) [
    | inl o ↦
        rw (has_id-event_of i es, o)
          (unchanged i id es o ∙ event_of-own i id es (on_complete status) o)
    | inr (f, o) ↦
        rw (has_id-event_of i es, o)
          (event_of-change_first i id (complete status) es (λ e. refl)
            ∙ sym (event_of-own i id es (on_event (complete status)) o)
            ∙ event_of-own i id es (on_complete status) o)
  ]

  -- A live frame acts on the timeline as on a map: the event of its own id, if there is one, gets the
  -- frame's text or status, `event_received` and `chunk` make the event if there is none, and the
  -- event of every other id stays as it is.
  pub apply_live_frame-step :
      (f : LiveFrame) → event_of id (apply_live_frame es f now) ≡ step f now id (event_of id es)
  unfolding apply_live_frame
  apply_live_frame-step (event_received i actor) = received-step i actor
  apply_live_frame-step (chunk i text) = chunk-step i text
  apply_live_frame-step (event_complete i status) = complete-step i status
  apply_live_frame-step other = refl

-- The frames of a connection in order, each with the time at which it comes.
unfoldable pub apply_frames : List ZombieEvent → List (LiveFrame × ℕ) → List ZombieEvent
unfolding apply_live_frame
apply_frames es [] = es
apply_frames es ((f, now) ∷ fs) = apply_frames (apply_live_frame es f now) fs

-- What a frame adds to the text of an id.
abbrev frame_text : String → LiveFrame → Text
frame_text id (event_received i actor) = []
frame_text id (chunk i text) = if str_eq i id then text else []
frame_text id (event_complete i status) = []
frame_text id other = []

-- The texts of an id's chunks, in order.
abbrev pub chunk_texts : String → List (LiveFrame × ℕ) → Text
chunk_texts id [] = []
chunk_texts id ((f, now) ∷ fs) = frame_text id f ++ chunk_texts id fs

abbrev pub text_of : Option ZombieEvent → Text
text_of none = []
text_of (some e) = e.text

text_of-if :
    (b : Bool) (o p : Option ZombieEvent) (t : Text)
    → text_of p ≡ text_of o ++ t
    → text_of (if b then p else o) ≡ text_of o ++ (if b then t else [])
text_of-if true o p t h = h
text_of-if false o p t h = sym (append-nil (text_of o))

text_of-kept :
    (b : Bool) (o p : Option ZombieEvent)
    → text_of p ≡ text_of o
    → text_of (if b then p else o) ≡ text_of o ++ []
text_of-kept true o p h = h ∙ sym (append-nil (text_of o))
text_of-kept false o p h = sym (append-nil (text_of o))

step-text :
    (f : LiveFrame) (now : ℕ) (id : String) (o : Option ZombieEvent)
    → text_of (step f now id o) ≡ text_of o ++ frame_text id f
step-text (event_received i actor) now id none = text_of-kept (str_eq i id) none _ refl
step-text (event_received i actor) now id (some e) = text_of-kept (str_eq i id) (some e) _ refl
step-text (chunk i text) now id none = text_of-if (str_eq i id) none _ text refl
step-text (chunk i text) now id (some e) = text_of-if (str_eq i id) (some e) _ text refl
step-text (event_complete i status) now id none = text_of-kept (str_eq i id) none _ refl
step-text (event_complete i status) now id (some e) = text_of-kept (str_eq i id) (some e) _ refl
step-text other now id o = sym (append-nil (text_of o))

-- However the frames of several events interleave, the text shown for an id is the text it had
-- followed by the texts of its chunks, in the order in which they came.
pub apply_frames_text :
    (fs : List (LiveFrame × ℕ)) (id : String) (es : List ZombieEvent)
    → text_of (event_of id (apply_frames es fs)) ≡ text_of (event_of id es) ++ chunk_texts id fs
unfolding apply_frames
apply_frames_text [] id es = sym (append-nil (text_of (event_of id es)))
apply_frames_text ((f, now) ∷ fs) id es =
    apply_frames_text fs id (apply_live_frame es f now)
    ∙ ap (λ o. text_of o ++ chunk_texts id fs) (apply_live_frame-step id es now f)
    ∙ ap (λ t. t ++ chunk_texts id fs) (step-text f now id (event_of id es))
    ∙ append_assoc (text_of (event_of id es)) (frame_text id f) (chunk_texts id fs)
