-- ===== src/Timeline/Distinct.antt =====
-- The ids of the timeline's events: no two events have the same.
use usezombie.Prelude.{
  str_eq-swap, ||_false, ℕ, String, ◌≡◌, refl, ap, ◌∙◌, false, ◌||◌, List, [], ◌∷◌, ◌++◌, str_eq,
  Bool-cases, inl, inr,
}
use usezombie.Timeline.{
  ZombieEvent, LiveFrame, event_received, chunk, event_complete, other, has_id, change_first,
  apply_live_frame, apply_event_received, apply_chunk, apply_event_complete, add_text, complete,
}
use usezombie.Timeline.ByEvent.{apply_frames}

abbrev pub IsDistinct : List ZombieEvent → Type 0
IsDistinct [] = Unit
IsDistinct (e ∷ es) = (has_id e.id es ≡ false) × IsDistinct es

has_id-snoc :
    (id : String) (es : List ZombieEvent) (e : ZombieEvent)
    → has_id id es ≡ false
    → str_eq e.id id ≡ false
    → has_id id (es ++ e ∷ []) ≡ false
has_id-snoc id [] e h k = rw k refl
has_id-snoc id (f ∷ es) e h k =
    let (this, later) = ||_false (str_eq f.id id) (has_id id es) h in
    rw this (has_id-snoc id es e later k)

pub IsDistinct-snoc :
    (es : List ZombieEvent) (e : ZombieEvent)
    → IsDistinct es
    → has_id e.id es ≡ false
    → IsDistinct (es ++ e ∷ [])
IsDistinct-snoc [] e d h = (refl, tt)
IsDistinct-snoc (f ∷ es) e (k, d) h =
    let (this, later) = ||_false (str_eq f.id e.id) (has_id e.id es) h in
    (has_id-snoc f.id es e k (str_eq-swap f.id e.id this), IsDistinct-snoc es e d later)

module _ (i : String) (c : ZombieEvent → ZombieEvent)
    (k : (e : ZombieEvent) → (c e).id ≡ e.id) where
  pub has_id-change :
      (id : String) (es : List ZombieEvent) → has_id id (change_first i c es) ≡ has_id id es
  unfolding change_first
  has_id-change id [] = refl
  has_id-change id (e ∷ es) = elim (Bool-cases (str_eq e.id i)) [
    | inl h ↦ rw h (ap (λ s. str_eq s id || has_id id es) (k e))
    | inr h ↦ rw h (ap (λ b. str_eq e.id id || b) (has_id-change id es))
  ]

  IsDistinct-change : (es : List ZombieEvent) → IsDistinct es → IsDistinct (change_first i c es)
  unfolding change_first
  IsDistinct-change [] d = tt
  IsDistinct-change (e ∷ es) (h, d) = elim (Bool-cases (str_eq e.id i)) [
    | inl j ↦ rw j (ap (λ s. has_id s es) (k e) ∙ h, d)
    | inr j ↦ rw j (has_id-change e.id es ∙ h, IsDistinct-change es d)
  ]

module _ (es : List ZombieEvent) (d : IsDistinct es) (now : ℕ) where
  apply_live_frame-IsDistinct : (f : LiveFrame) → IsDistinct (apply_live_frame es f now)
  unfolding apply_live_frame apply_event_received apply_chunk apply_event_complete
  apply_live_frame-IsDistinct (event_received i actor) = elim (Bool-cases (has_id i es)) [
    | inl h ↦ rw h d
    | inr h ↦ rw h (IsDistinct-snoc es _ d h)
  ]
  apply_live_frame-IsDistinct (chunk i text) = elim (Bool-cases (has_id i es)) [
    | inl h ↦ rw h (IsDistinct-change i (add_text text) (λ e. refl) es d)
    | inr h ↦ rw h (IsDistinct-snoc es _ d h)
  ]
  apply_live_frame-IsDistinct (event_complete i status) = elim (Bool-cases (has_id i es)) [
    | inl h ↦ rw h (IsDistinct-change i (complete status) (λ e. refl) es d)
    | inr h ↦ rw h d
  ]
  apply_live_frame-IsDistinct other = d

-- Frames, however often one of them is repeated, never make a second event with the same id.
pub apply_frames-IsDistinct :
    (es : List ZombieEvent) (fs : List (LiveFrame × ℕ))
    → IsDistinct es
    → IsDistinct (apply_frames es fs)
unfolding apply_frames
apply_frames-IsDistinct es [] d = d
apply_frames-IsDistinct es ((f, now) ∷ fs) d =
    apply_frames-IsDistinct (apply_live_frame es f now) fs (apply_live_frame-IsDistinct es d now f)
