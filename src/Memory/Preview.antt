-- ===== src/Memory/Preview.antt =====
-- The preview is safe to print: it has no control unit, and at most eighty code points.
use mathlib.Core.List.{reverse, reverse-cons}
use usezombie.Prelude.{
  ℕ, zero, suc, ◌+◌, ◌≤◌, ◌≡◌, refl, ap, Text, trim, trim_start, is_space, is_empty, leb, Bool,
  true, false, ◌&&◌, Option, none, some, List, [], ◌∷◌, ◌++◌, length, All, All-append, Bool-cases,
  inl, inr, arith, sym, ◌∙◌, subst, false≢true,
}
use usezombie.Memory.{
  is_control, clean_cell, collapse, is_high, is_low, attach, points, take, joined, cut,
  preview_text,
}

abbrev pub IsClean : Text → Type 0
IsClean s = All (λ c. is_control c ≡ false) s

clean_cell-IsClean : (s : Text) → IsClean (clean_cell s)
unfolding clean_cell
clean_cell-IsClean [] = tt
clean_cell-IsClean (c ∷ s) = elim (Bool-cases (is_control c)) [
  | inl e ↦ rw e (clean_cell-IsClean s)
  | inr e ↦ rw e (e, clean_cell-IsClean s)
]

reverse-IsClean : (s : Text) → IsClean s → IsClean (reverse s)
reverse-IsClean [] h = tt
reverse-IsClean (c ∷ s) (h, k) =
    rw (reverse-cons c s)
      (All-append (λ c. is_control c ≡ false) (reverse s) (c ∷ []) (reverse-IsClean s k) (h, tt))

trim_start-IsClean : (s : Text) → IsClean s → IsClean (trim_start s)
unfolding trim_start
trim_start-IsClean [] h = tt
trim_start-IsClean (c ∷ s) h = elim (Bool-cases (is_space c)) [
  | inl e ↦ rw e (trim_start-IsClean s h.1)
  | inr e ↦ rw e h
]

trim-IsClean : (s : Text) → IsClean s → IsClean (trim s)
unfolding trim
trim-IsClean s h =
    reverse-IsClean _ (trim_start-IsClean _ (reverse-IsClean _ (trim_start-IsClean s h)))

-- A code point is one unit, or a high surrogate and a low one.
abbrev IsPoint : Text → Type 0
IsPoint [] = ⊥
IsPoint (c ∷ []) = Unit
IsPoint (c ∷ d ∷ []) = (is_high c && is_low d) ≡ true
IsPoint (c ∷ d ∷ e ∷ s) = ⊥

high_not_low : (d : ℕ) → is_high d ≡ true → is_low d ≡ false
high_not_low d h = ground arith

low_not_high : (d : ℕ) → is_low d ≡ true → is_high d ≡ false
low_not_high d h = ground arith

&&_true : (a b : Bool) → (a && b) ≡ true → (a ≡ true) × (b ≡ true)
&&_true true b h = (refl, h)
&&_true false b h = absurd (false≢true h)

attach-IsPoint : (c : ℕ) (gs : List Text) → All IsPoint gs → All IsPoint (attach c gs)
attach-IsPoint c [] h = (tt, tt)
attach-IsPoint c ([] ∷ gs) (h, k) = absurd h
attach-IsPoint c ((d ∷ []) ∷ gs) (h, k) = elim (Bool-cases (is_high c && is_low d)) [
  | inl e ↦ rw e (e, k)
  | inr e ↦ rw e (tt, (tt, k))
]
attach-IsPoint c ((d ∷ e ∷ []) ∷ gs) (h, k) = elim (Bool-cases (is_high c && is_low d)) [
  | inl p ↦ absurd (false≢true (sym (high_not_low d (&&_true _ _ h).0) ∙ (&&_true _ _ p).1))
  | inr p ↦ rw p (tt, (h, k))
]
attach-IsPoint c ((d ∷ e ∷ f ∷ s) ∷ gs) (h, k) = absurd h

points-IsPoint : (s : Text) → All IsPoint (points s)
unfolding points
points-IsPoint [] = tt
points-IsPoint (c ∷ s) = attach-IsPoint c (points s) (points-IsPoint s)

take-IsPoint : (n : ℕ) (gs : List Text) → All IsPoint gs → All IsPoint (take n gs)
take-IsPoint zero gs h = tt
take-IsPoint (suc n) [] h = tt
take-IsPoint (suc n) (g ∷ gs) (h, k) = (h, take-IsPoint n gs k)

length-take : {A : Type 0} (n : ℕ) (xs : List A) → length (take n xs) ≤ n
length-take zero xs = omega arith
length-take (suc n) [] = omega arith
length-take (suc n) (x ∷ xs) = omega (arith, length-take n xs)

length-attach : (c : ℕ) (gs : List Text) → length (attach c gs) ≤ suc (length gs)
length-attach c [] = omega arith
length-attach c ([] ∷ gs) = omega arith
length-attach c ((d ∷ s) ∷ gs) = elim (Bool-cases (is_high c && is_low d)) [
  | inl e ↦ rw e (omega arith)
  | inr e ↦ rw e (omega arith)
]

-- A low surrogate stands alone in front of whatever follows.
attach_low : (d : ℕ) (gs : List Text) → is_high d ≡ false → attach d gs ≡ (d ∷ []) ∷ gs
attach_low d [] h = refl
attach_low d ([] ∷ gs) h = refl
attach_low d ((e ∷ s) ∷ gs) h = rw h refl

attach_pair :
    (c d : ℕ) (gs : List Text)
    → (is_high c && is_low d) ≡ true
    → attach c ((d ∷ []) ∷ gs) ≡ (c ∷ d ∷ []) ∷ gs
attach_pair c d gs h = rw h refl

length-points-joined :
    (gs : List Text) (t : Text)
    → All IsPoint gs
    → length (points (joined gs ++ t)) ≤ length gs + length (points t)
unfolding points
length-points-joined [] t h = omega arith
length-points-joined ([] ∷ gs) t (h, k) = absurd h
length-points-joined ((c ∷ []) ∷ gs) t (h, k) =
    omega (arith, length-attach c (points (joined gs ++ t)), length-points-joined gs t k)
length-points-joined ((c ∷ d ∷ []) ∷ gs) t (h, k) =
    rw
      (
        attach_low d (points (joined gs ++ t))
            (low_not_high d (&&_true (is_high c) (is_low d) h).1),
        attach_pair c d (points (joined gs ++ t)) h,
      )
      (omega (arith, length-points-joined gs t k))
length-points-joined ((c ∷ d ∷ e ∷ s) ∷ gs) t (h, k) = absurd h

-- The first code points of a text are a part of it.
joined-attach : (c : ℕ) (gs : List Text) → joined (attach c gs) ≡ c ∷ joined gs
joined-attach c [] = refl
joined-attach c ([] ∷ gs) = refl
joined-attach c ((d ∷ s) ∷ gs) = elim (Bool-cases (is_high c && is_low d)) [
  | inl e ↦ rw e refl
  | inr e ↦ rw e refl
]

joined-points : (s : Text) → joined (points s) ≡ s
unfolding points
joined-points [] = refl
joined-points (c ∷ s) = joined-attach c (points s) ∙ ap (λ t. c ∷ t) (joined-points s)

left-IsClean : (s t : Text) → IsClean (s ++ t) → IsClean s
left-IsClean [] t h = tt
left-IsClean (c ∷ s) t (h, k) = (h, left-IsClean s t k)

right-IsClean : (s t : Text) → IsClean (s ++ t) → IsClean t
right-IsClean [] t h = h
right-IsClean (c ∷ s) t (h, k) = right-IsClean s t k

taken-IsClean : (n : ℕ) (gs : List Text) → IsClean (joined gs) → IsClean (joined (take n gs))
taken-IsClean zero gs h = tt
taken-IsClean (suc n) [] h = tt
taken-IsClean (suc n) (g ∷ gs) h =
    All-append (λ c. is_control c ≡ false) g (joined (take n gs)) (left-IsClean g (joined gs) h)
      (taken-IsClean n gs (right-IsClean g (joined gs) h))

abbrev pub IsShort : Text → Type 0
IsShort s = length (points s) ≤ 80

cut-IsClean : (s : Text) → IsClean s → IsClean (cut s)
unfolding cut
cut-IsClean s h = elim (Bool-cases (leb (length (points s)) 80)) [
  | inl e ↦ rw e h
  | inr e ↦ rw e (
      All-append (λ c. is_control c ≡ false) (joined (take 79 (points s))) (0x2026 ∷ [])
        (taken-IsClean 79 (points s) (subst (λ t. IsClean t) (sym (joined-points s)) h)) (refl, tt))
]

leb_le : (a b : ℕ) → leb a b ≡ true → a ≤ b
leb_le a b h = ground arith

ellipsis : length (points (0x2026 ∷ [])) ≡ 1
unfolding points
ellipsis = refl

empty-IsShort : IsShort []
unfolding points
empty-IsShort = omega arith

cut-IsShort : (s : Text) → IsShort (cut s)
unfolding cut
cut-IsShort s = elim (Bool-cases (leb (length (points s)) 80)) [
  | inl e ↦ rw e (leb_le _ _ e)
  | inr e ↦ rw e (
      omega (
        arith,
        length-points-joined (take 79 (points s)) (0x2026 ∷ [])
            (take-IsPoint 79 (points s) (points-IsPoint s)),
        length-take 79 (points s),
        ellipsis,
      ))
]

-- Whatever the stored text is, its preview has no control code unit, so no escape sequence of a
-- terminal, and at most eighty code points.
pub preview_text_safe :
    (text : Option Text) → IsClean (preview_text text) × IsShort (preview_text text)
unfolding preview_text
preview_text_safe none = (tt, empty-IsShort)
preview_text_safe (some text) = elim (Bool-cases (is_empty text)) [
  | inl e ↦ rw e (tt, empty-IsShort)
  | inr e ↦ rw e (
    cut-IsClean _ (trim-IsClean _ (clean_cell-IsClean (collapse text))),
    cut-IsShort (trim (clean_cell (collapse text))),
  )
]
