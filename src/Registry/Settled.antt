-- ===== src/Registry/Settled.antt =====
-- The ids in a timeline under frames and under a confirmation.
use usezombie.Prelude.{
  str_eq_refl, ℕ, ◌≡◌, refl, sym, ◌∙◌, String, Text, true, false, false≢true, Bool-cases, inl, inr,
  eq_iff, List, [], ◌∷◌, ◌++◌, str_eq, subst,
}
use usezombie.Timeline.{
  ZombieEvent, LiveFrame, event_received, chunk, event_complete, other, has_id, apply_live_frame,
  apply_event_received, apply_chunk, apply_event_complete, add_text, complete,
}
use usezombie.Timeline.Distinct.{IsDistinct, has_id-change}
use usezombie.Registry.Outbox.{change_all, received_as}

has_id-left :
    (id : String) (es fs : List ZombieEvent) → has_id id es ≡ true → has_id id (es ++ fs) ≡ true
has_id-left id [] fs h = absurd (false≢true h)
has_id-left id (e ∷ es) fs h = elim (Bool-cases (str_eq e.id id)) [
  | inl k ↦ rw k refl
  | inr k ↦ rw k (has_id-left id es fs (rw k at h))
]

pub has_id-last : (e : ZombieEvent) (es : List ZombieEvent) → has_id e.id (es ++ e ∷ []) ≡ true
has_id-last e [] = rw (str_eq_refl e.id) refl
has_id-last e (f ∷ es) = elim (Bool-cases (str_eq f.id e.id)) [
  | inl k ↦ rw k refl
  | inr k ↦ rw k (has_id-last e es)
]

-- No frame takes an event away.
pub apply_live_frame-keeps :
    (id : String) (es : List ZombieEvent) (f : LiveFrame) (now : ℕ)
    → has_id id es ≡ true
    → has_id id (apply_live_frame es f now) ≡ true
unfolding apply_live_frame apply_event_received apply_chunk apply_event_complete
apply_live_frame-keeps id es (event_received i actor) now h = elim (Bool-cases (has_id i es)) [
  | inl k ↦ rw k h
  | inr k ↦ rw k (has_id-left id es _ h)
]
apply_live_frame-keeps id es (chunk i text) now h = elim (Bool-cases (has_id i es)) [
  | inl k ↦ rw k (has_id-change i (add_text text) (λ e. refl) id es ∙ h)
  | inr k ↦ rw k (has_id-left id es _ h)
]
apply_live_frame-keeps id es (event_complete i status) now h = elim (Bool-cases (has_id i es)) [
  | inl k ↦ rw k (has_id-change i (complete status) (λ e. refl) id es ∙ h)
  | inr k ↦ rw k h
]
apply_live_frame-keeps id es other now h = h

pub apply_live_frame-received :
    (id : String) (es : List ZombieEvent) (actor : Text) (now : ℕ)
    → has_id id (apply_live_frame es (event_received id actor) now) ≡ true
unfolding apply_live_frame apply_event_received
apply_live_frame-received id es actor now = elim (Bool-cases (has_id id es)) [
  | inl k ↦ rw k k
  | inr k ↦ rw k (has_id-last _ es)
]

module _ (temp real : String) (differ : str_eq real temp ≡ false) where
  abbrev pub settle : List ZombieEvent → List ZombieEvent
  settle = change_all temp (received_as real)

  -- An event with either id has the server's after a confirmation.
  has_id-settle-temp :
      (es : List ZombieEvent) → has_id temp es ≡ true → has_id real (settle es) ≡ true
  has_id-settle-temp [] h = absurd (false≢true h)
  has_id-settle-temp (e ∷ es) h = elim (Bool-cases (str_eq e.id temp)) [
    | inl k ↦ rw (k, str_eq_refl real) refl
    | inr k ↦ elim (Bool-cases (str_eq e.id real)) [
      | inl m ↦ rw (k, m) refl
      | inr m ↦ rw (k, m) (has_id-settle-temp es (rw k at h))
    ]
  ]

  has_id-settle-real :
      (es : List ZombieEvent) → has_id real es ≡ true → has_id real (settle es) ≡ true
  has_id-settle-real [] h = absurd (false≢true h)
  has_id-settle-real (e ∷ es) h = elim (Bool-cases (str_eq e.id temp)) [
    | inl k ↦ rw (k, str_eq_refl real) refl
    | inr k ↦ elim (Bool-cases (str_eq e.id real)) [
      | inl m ↦ rw (k, m) refl
      | inr m ↦ rw (k, m) (has_id-settle-real es (rw m at h))
    ]
  ]

  not_both : (id : String) → str_eq id temp ≡ true → str_eq id real ≡ false
  not_both id h = elim (Bool-cases (str_eq id real)) [
    | inr k ↦ k
    | inl k ↦ absurd (
        false≢true
          (sym differ ∙ (eq_iff real temp).1 (sym ((eq_iff id real).0 k) ∙ (eq_iff id temp).0 h)))
  ]

  pub settle-duplicates :
      (es : List ZombieEvent)
      → has_id temp es ≡ true
      → has_id real es ≡ true
      → ¬ IsDistinct (settle es)
  settle-duplicates [] h k d = absurd (false≢true h)
  settle-duplicates (e ∷ es) h k (new, d) = elim (Bool-cases (str_eq e.id temp)) [
    | inl m ↦ false≢true (sym (rw m at new) ∙ has_id-settle-real es (rw (not_both e.id m) at k))
    | inr m ↦ elim (Bool-cases (str_eq e.id real)) [
      | inl n ↦ false≢true (
          sym (rw m at new)
          ∙ subst (λ id. has_id id (settle es) ≡ true) (sym ((eq_iff e.id real).0 n))
              (has_id-settle-temp es (rw m at h)))
      | inr n ↦ settle-duplicates es (rw m at h) (rw n at k) d
    ]
  ]
