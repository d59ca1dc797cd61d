-- ===== src/Registry/Commute.antt =====
-- A change of the events with one id, and the frames of other events: in either order they come to the same.
use usezombie.Prelude.{
  ℕ, ◌≡◌, refl, sym, ap, ◌∙◌, String, true, false, false≢true, Bool-cases, inl, inr, eq_iff, List,
  [], ◌∷◌, ◌++◌, str_eq, if◌then◌else◌, ◌||◌,
}
use usezombie.Timeline.{
  ZombieEvent, LiveFrame, event_received, chunk, event_complete, other, has_id, change_first,
  apply_live_frame, apply_event_received, apply_chunk, apply_event_complete, add_text, complete,
}
use usezombie.Registry.Outbox.{change_all}

-- The frame is not of the event with the id.
abbrev pub IsOther : String → LiveFrame → Type 0
IsOther id (event_received i actor) = str_eq id i ≡ false
IsOther id (chunk i text) = str_eq id i ≡ false
IsOther id (event_complete i status) = str_eq id i ≡ false
IsOther id other = Unit

module _ (temp : String) (g : ZombieEvent → ZombieEvent) (i : String)
    (apart : str_eq temp i ≡ false)
    (moved : (e : ZombieEvent) → str_eq e.id temp ≡ true → str_eq (g e).id i ≡ false) where
  not_own : (id : String) → str_eq id temp ≡ true → str_eq id i ≡ false
  not_own id h = elim (Bool-cases (str_eq id i)) [
    | inr k ↦ k
    | inl k ↦ absurd (
        false≢true (sym apart ∙ (eq_iff temp i).1 (sym ((eq_iff id temp).0 h) ∙ (eq_iff id i).0 k)))
  ]

  not_temp : (id : String) → str_eq id i ≡ true → str_eq id temp ≡ false
  not_temp id h = elim (Bool-cases (str_eq id temp)) [
    | inr k ↦ k
    | inl k ↦ absurd (false≢true (sym (not_own id k) ∙ h))
  ]

  has_id-change_all : (es : List ZombieEvent) → has_id i (change_all temp g es) ≡ has_id i es
  has_id-change_all [] = refl
  has_id-change_all (e ∷ es) = elim (Bool-cases (str_eq e.id temp)) [
    | inl h ↦ rw (h, moved e h, not_own e.id h) (has_id-change_all es)
    | inr h ↦ rw h (ap (λ b. str_eq e.id i || b) (has_id-change_all es))
  ]

  change_all-first :
      (f : ZombieEvent → ZombieEvent) (es : List ZombieEvent)
      → ((e : ZombieEvent) → (f e).id ≡ e.id)
      → change_all temp g (change_first i f es) ≡ change_first i f (change_all temp g es)
  unfolding change_first
  change_all-first f [] k = refl
  change_all-first f (e ∷ es) k = elim (Bool-cases (str_eq e.id temp)) [
    | inl h ↦ rw (not_own e.id h, h, moved e h) (ap (λ fs. g e ∷ fs) (change_all-first f es k))
    | inr h ↦ elim (Bool-cases (str_eq e.id i)) [
      | inl m ↦
          let same : str_eq (f e).id temp ≡ false = ap (λ id. str_eq id temp) (k e) ∙ h in
          rw (m, h, m, same) refl
      | inr m ↦ rw (m, h, m) (ap (λ fs. e ∷ fs) (change_all-first f es k))
    ]
  ]

  change_all-last :
      (es : List ZombieEvent) (e : ZombieEvent)
      → e.id ≡ i
      → change_all temp g (es ++ e ∷ []) ≡ change_all temp g es ++ e ∷ []
  change_all-last [] e h =
      let kept : str_eq e.id temp ≡ false = not_temp e.id ((eq_iff e.id i).1 h) in rw kept refl
  change_all-last (f ∷ es) e h =
      ap (λ fs. (if str_eq f.id temp then g f else f) ∷ fs) (change_all-last es e h)

module _ (temp : String) (g : ZombieEvent → ZombieEvent) where
  pub change_all-apply_live_frame :
      (es : List ZombieEvent) (f : LiveFrame) (now : ℕ)
      → IsOther temp f
      → ((e : ZombieEvent) → str_eq e.id temp ≡ true → IsOther (g e).id f)
      → change_all temp g (apply_live_frame es f now)
        ≡ apply_live_frame (change_all temp g es) f now
  unfolding apply_live_frame apply_event_received apply_chunk apply_event_complete
  change_all-apply_live_frame es (event_received i actor) now o m =
      elim (Bool-cases (has_id i es)) [
        | inl k ↦ rw (k, has_id-change_all temp g i o m es ∙ k) refl
        | inr k ↦
            rw (k, has_id-change_all temp g i o m es ∙ k) (change_all-last temp g i o m es _ refl)
      ]
  change_all-apply_live_frame es (chunk i text) now o m = elim (Bool-cases (has_id i es)) [
    | inl k ↦
        rw (k, has_id-change_all temp g i o m es ∙ k)
          (change_all-first temp g i o m (add_text text) es (λ e. refl))
    | inr k ↦ rw (k, has_id-change_all temp g i o m es ∙ k) (change_all-last temp g i o m es _ refl)
  ]
  change_all-apply_live_frame es (event_complete i status) now o m =
      elim (Bool-cases (has_id i es)) [
        | inl k ↦
            rw (k, has_id-change_all temp g i o m es ∙ k)
              (change_all-first temp g i o m (complete status) es (λ e. refl))
        | inr k ↦ rw (k, has_id-change_all temp g i o m es ∙ k) refl
      ]
  change_all-apply_live_frame es other now o m = refl
