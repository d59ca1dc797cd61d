-- ===== src/Steer/Completion.antt =====
-- Which frame of a stream completes the tail.
use mathlib.Core.Option.{some-injective}
use usezombie.Prelude.{
  ◌≡◌, refl, sym, ap, ◌∙◌, ◌⊎◌, String, str_eq, eq_iff, Text, codes, text_eq, text_eq_eq, Bool,
  true, false, false≢true, Option, none, some, List, [], ◌∷◌, inl, inr, Bool-cases, Option-cases,
  if◌then◌else◌,
}
use usezombie.Json.{Json, is_object, get, string?}
use usezombie.Http.{Runtime, ApiError, Thrown, api, js, primitive}
use usezombie.Sse.Frame.{SseFrame, Payload, raw, parsed, parse_sse_frame}
use usezombie.Sse.Stream.{
  Opened, refused, not_ok, no_body, body, Ending, done, broken, finish, caught, on_frame, Progress,
  stopped, going,
}
use usezombie.Sse.Chunks.{concat, deliver}
use usezombie.Sse.Framing.{blocks}
use usezombie.Steer.{
  Reaction, ignored, printed, completed, frame_callback, reaction_to, line_of, is_foreign,
  is_truthy, is_string, status_or_unknown,
}
use usezombie.Steer.Tail.{
  SteerOutcome, complete, sse_disconnected, sse_error, Tail, react, tail_callback, tail_of, started,
  tail_event_stream, tail_event_stream_chunks,
}

-- The event's id, or a value that counts as none.
pub data IsOwn (id : String) (value : Option Json) : Type 0 where
  unnamed : is_truthy value ≡ false → IsOwn id value
  named : string? value ≡ some id → IsOwn id value

-- A completion of the event: an object of the type "event_complete" that names the event or none, with
-- the status.
pub record IsCompletion (id status : String) (type : Text) (payload : Json) : Type 0 where
  pub kind : type ≡ codes "event_complete"
  pub own : IsOwn id (get "event_id" payload)
  pub status_field : status_or_unknown (string? (get "status" payload)) ≡ status

is_string-some :
    (id : String) (value : Option Json) → is_string id value ≡ true → string? value ≡ some id
is_string-some id value h = elim (Option-cases (string? value)) [
  | inl e ↦ absurd (false≢true (rw (e, is_string) at h))
  | inr (s, e) ↦ e ∙ ap (λ t. some t) ((eq_iff s id).0 (rw (e, is_string) at h))
]

is_foreign-IsOwn :
    (id : String) (value : Option Json) → is_foreign id value ≡ false → IsOwn id value
is_foreign-IsOwn id value h = elim (Bool-cases (is_truthy value)) [
  | inr e ↦ unnamed e
  | inl e ↦ elim (Bool-cases (is_string id value)) [
    | inl f ↦ named (is_string-some id value f)
    | inr f ↦ absurd (false≢true (sym (rw (e, f) at h)))
  ]
]

ignored≢completed : {s : String} → ignored ≡ completed s → ⊥
ignored≢completed e = cc

reaction_to-completed :
    (status : String) (type : Text) (payload : Json)
    → reaction_to type payload ≡ completed status
    → (type ≡ codes "event_complete")
      × (status_or_unknown (string? (get "status" payload)) ≡ status)
reaction_to-completed status type payload h = elim (Option-cases (line_of type payload)) [
  | inr (line, g) ↦ absurd (printed≢completed (rw (g, reaction_to) at h))
  | inl g ↦ elim (Bool-cases (text_eq type (codes "event_complete"))) [
    | inr k ↦ absurd (ignored≢completed (rw (g, k, reaction_to) at h))
    | inl k ↦ (
      text_eq_eq type (codes "event_complete") k,
      ap status_of_reaction (rw (g, k, reaction_to) at h),
    )
  ]
]
  where
    printed≢completed : {line : _} {s : String} → printed line ≡ completed s → ⊥
    printed≢completed e = cc

    status_of_reaction : Reaction → String
    status_of_reaction (completed s) = s
    status_of_reaction _ = ""

frame_callback-IsCompletion :
    (id status : String) (type : Text) (payload : Json)
    → frame_callback id type payload ≡ completed status
    → IsCompletion id status type payload
unfolding frame_callback
frame_callback-IsCompletion id status type payload h = elim (Bool-cases (is_object payload)) [
  | inr e ↦ absurd (ignored≢completed (rw e at h))
  | inl e ↦ elim (Bool-cases (is_foreign id (get "event_id" payload))) [
    | inl f ↦ absurd (ignored≢completed (rw (e, f) at h))
    | inr f ↦
        let (kind, status_field) = reaction_to-completed status type payload (rw (e, f) at h) in
        record {
          kind = kind;
          own = is_foreign-IsOwn id (get "event_id" payload) f;
          status_field = status_field;
        }
  ]
]

-- A block of the stream's text is a completion of the event.
pub data Completes (parse : Text → Option Json) (id status : String) (block : Text) : Type 0 where
  completes :
      (frame : SseFrame Json) (value : Json)
      → parse_sse_frame parse block ≡ some frame
      → frame.content ≡ parsed value
      → IsCompletion id status frame.type value
      → Completes parse id status block

pub data Any {A : Type 0} (P : A → Type 0) : List A → Type 0 where
  first : {x : A} {xs : List A} → P x → Any P (x ∷ xs)
  later : {x : A} {xs : List A} → Any P xs → Any P (x ∷ xs)

abbrev state_of : Progress Tail → Tail
state_of (stopped t) = t
state_of (going t) = t

module _ (parse : Text → Option Json) (id status : String) where
  react-outcome :
      (t : Tail) (r : Reaction)
      → (react t r).0.outcome ≡ complete status
      → (t.outcome ≡ complete status) ⊎ (r ≡ completed status)
  react-outcome t ignored h = inl h
  react-outcome t (printed line) h = inl h
  react-outcome t (completed s) h = inr (ap again h)
    where
      again : SteerOutcome → Reaction
      again (complete u) = completed u
      again _ = ignored

  callback-outcome :
      (t : Tail) (block : Text) (frame : SseFrame Json) (content : Payload Json)
      → parse_sse_frame parse block ≡ some frame
      → frame.content ≡ content
      → (tail_callback id t frame).0.outcome ≡ complete status
      → (t.outcome ≡ complete status) ⊎ Completes parse id status block
  callback-outcome t block frame (raw text) e c h = inl (rw (c, tail_callback) at h)
  callback-outcome t block frame (parsed value) e c h =
      elim (react-outcome t (frame_callback id frame.type value) (rw (c, tail_callback) at h)) [
        | inl k ↦ inl k
        | inr k ↦
            inr
              (completes frame value e c (frame_callback-IsCompletion id status frame.type value k))
      ]

  state_of-if : (b : Bool) (t : Tail) → state_of (if b then going t else stopped t) ≡ t
  state_of-if true t = refl
  state_of-if false t = refl

  on_frame-outcome :
      (t : Tail) (block : Text)
      → (state_of (on_frame (parse_sse_frame parse) (tail_callback id) t block)).outcome
        ≡ complete status
      → (t.outcome ≡ complete status) ⊎ Completes parse id status block
  unfolding on_frame
  on_frame-outcome t block h = elim (Option-cases (parse_sse_frame parse block)) [
    | inl e ↦ inl (rw (e, on_frame) at h)
    | inr (frame, e) ↦
        let r = tail_callback id t frame in
        callback-outcome t block frame frame.content e refl
          (ap (λ u. Tail.outcome u) (sym (state_of-if r.1 r.0)) ∙ rw (e, on_frame) at h)
  ]

  -- The outcome is that of a completion on the stream, or the one before.
  deliver-outcome :
      (blocks : List Text) (t : Tail)
      → (state_of (deliver (on_frame (parse_sse_frame parse) (tail_callback id)) t blocks)).outcome
        ≡ complete status
      → (t.outcome ≡ complete status) ⊎ Any (Completes parse id status) blocks
  unfolding deliver
  deliver-outcome [] t h = inl h
  deliver-outcome (block ∷ blocks) t h =
      delivered (on_frame (parse_sse_frame parse) (tail_callback id) t block) refl
        (deliver-outcome blocks)
    where
      delivered :
          (p : Progress Tail)
          → on_frame (parse_sse_frame parse) (tail_callback id) t block ≡ p
          → ((u : Tail)
              → (state_of
                  (deliver (on_frame (parse_sse_frame parse) (tail_callback id)) u blocks)).outcome
                ≡ complete status
              → (u.outcome ≡ complete status) ⊎ Any (Completes parse id status) blocks)
          → (t.outcome ≡ complete status) ⊎ Any (Completes parse id status) (block ∷ blocks)
      delivered (stopped u) e rest =
          elim (on_frame-outcome t block
            (ap (λ p. Tail.outcome (state_of p)) e ∙ (rw (e, deliver) at h))) [
              | inl k ↦ inl k
              | inr k ↦ inr (first k)
            ]
      delivered (going u) e rest = elim (rest u (rw (e, deliver) at h)) [
        | inr k ↦ inr (later k)
        | inl k ↦ elim (on_frame-outcome t block (ap (λ p. Tail.outcome (state_of p)) e ∙ k)) [
          | inl m ↦ inl m
          | inr m ↦ inr (first m)
        ]
      ]

  caught-outcome :
      (timed_out : String) (aborted : Bool) (err : Thrown ApiError) (t : Tail)
      → (tail_of (caught timed_out aborted err t)).outcome ≡ complete status
      → t.outcome ≡ complete status
  unfolding caught
  caught-outcome timed_out aborted (api e) t h = cc
  caught-outcome timed_out aborted primitive t h = cc
  caught-outcome timed_out false (js e) t h = elim (Bool-cases (str_eq e.name "AbortError")) [
    | inl k ↦ absurd (sse_error≢complete (rw k at h))
    | inr k ↦ absurd (sse_error≢complete (rw k at h))
  ]
    where
      sse_error≢complete : {err : Thrown ApiError} → sse_error err ≡ complete status → ⊥
      sse_error≢complete e = cc
  caught-outcome timed_out true (js e) t h = elim (Bool-cases (str_eq e.name "AbortError")) [
    | inl k ↦ rw k at h
    | inr k ↦ absurd (sse_error≢complete (rw k at h))
  ]
    where
      sse_error≢complete : {err : Thrown ApiError} → sse_error err ≡ complete status → ⊥
      sse_error≢complete e = cc

  finish-outcome :
      (timed_out : String) (aborted : Bool) (ending : Ending) (p : Progress Tail)
      → (tail_of (finish timed_out aborted ending p)).outcome ≡ complete status
      → (state_of p).outcome ≡ complete status
  finish-outcome timed_out aborted ending (stopped t) h = h
  finish-outcome timed_out aborted done (going t) h = h
  finish-outcome timed_out aborted (broken err) (going t) h =
      caught-outcome timed_out aborted err t h

  -- A stream that ends with a status has a block that completes the event with it.
  pub finished-Completes :
      (timed_out : String) (aborted : Bool) (ending : Ending) (blocks : List Text)
      → (tail_of (
          finish timed_out aborted ending
            (deliver (on_frame (parse_sse_frame parse) (tail_callback id)) started blocks))).outcome
        ≡ complete status
      → Any (Completes parse id status) blocks
  finished-Completes timed_out aborted ending blocks h =
      elim (deliver-outcome blocks started (
        finish-outcome timed_out aborted ending
          (deliver (on_frame (parse_sse_frame parse) (tail_callback id)) started blocks) h)) [
            | inl k ↦ absurd (disconnected≢complete k)
            | inr k ↦ k
          ]
    where
      disconnected≢complete : sse_disconnected ≡ complete status → ⊥
      disconnected≢complete e = cc

  unopened :
      {t tail : Tail} {err : Thrown ApiError}
      → t.outcome ≡ sse_error err
      → some t ≡ some tail
      → tail.outcome ≡ complete status
      → ⊥
  unopened {t} {tail} {err} k e h =
      error≢complete (sym k ∙ ap (λ u. Tail.outcome u) (some-injective t tail e) ∙ h)
    where
      error≢complete : sse_error err ≡ complete status → ⊥
      error≢complete e = cc

  -- A tail that ends with a status was of a stream, in the text of which, however it was cut into chunks,
  -- is a block that completes the event with it.
  pub tail_event_stream-Completes :
      (rt : Runtime) (timed_out : String) (aborted : Bool) (opened : Option Opened) (tail : Tail)
      → tail_event_stream rt parse id timed_out aborted opened ≡ some tail
      → tail.outcome ≡ complete status
      → (chunks : List Text) × (ending : Ending) × (opened ≡ some (body chunks ending))
        × Any (Completes parse id status) (blocks (concat chunks)).0
  unfolding tail_event_stream
  tail_event_stream-Completes rt timed_out aborted none tail e h = absurd (unopened refl e h)
  tail_event_stream-Completes rt timed_out aborted (some (refused err)) tail e h = absurd (
      disconnected (
        caught-outcome timed_out aborted err started
          (ap (λ u. Tail.outcome u) (some-injective _ tail e) ∙ h)))
    where
      disconnected : sse_disconnected ≡ complete status → ⊥
      disconnected e = cc
  tail_event_stream-Completes rt timed_out aborted (some (not_ok res)) tail e h =
      absurd (unopened refl e h)
  tail_event_stream-Completes rt timed_out aborted (some no_body) tail e h =
      absurd (unopened refl e h)
  tail_event_stream-Completes rt timed_out aborted (some (body chunks ending)) tail e h = (
    chunks,
    ending,
    refl,
    finished-Completes timed_out aborted ending (blocks (concat chunks)).0 (
        ap (λ u. Tail.outcome u)
          (some-injective _ tail
            (sym (tail_event_stream_chunks rt parse id timed_out aborted ending chunks) ∙ e))
        ∙ h),
  )
