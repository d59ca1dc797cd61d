-- ===== src/Sse/Framing.antt =====
-- The frames of a whole text, read in one pass, and how the buffer's `cut` relates to them.
use usezombie.Prelude.{
  ℕ, ◌<◌, ◌≡◌, refl, ap, ◌∙◌, ◌&&◌, ◌==◌, if◌then◌else◌, none, some, List, [], ◌∷◌, ◌++◌, arith,
  Text, newline, strip, length, Bool-cases, Option-cases, inl, inr,
}
use usezombie.Sse.Stream.{cut}

abbrev pub push_front : ℕ → List Text × Text → List Text × Text
push_front c ([], rest) = ([], c ∷ rest)
push_front c (f ∷ fs, rest) = ((c ∷ f) ∷ fs, rest)

-- The texts that an empty line ends, in order, and what follows the last of them.
pub blocks : Text → List Text × Text
blocks [] = ([], [])
blocks (c ∷ []) = ([], c ∷ [])
blocks (c ∷ d ∷ s) =
    let after = blocks s in
    let more = blocks (d ∷ s) in
    if (c == newline) && (d == newline) then ([] ∷ after.0, after.1) else push_front c more

abbrev pub cons_frame : Text → List Text × Text → List Text × Text
cons_frame f b = (f ∷ b.0, b.1)

abbrev pub join : List Text × Text → (Text → List Text × Text) → List Text × Text
join b k = (b.0 ++ (k b.1).0, (k b.1).1)

push_front-join :
    (c : ℕ) (b : List Text × Text) (k : Text → List Text × Text)
    → (b.0 ≡ [] → push_front c (k b.1) ≡ k (c ∷ b.1))
    → push_front c (join b k) ≡ join (push_front c b) k
push_front-join c ([], rest) k h = h refl
push_front-join c (f ∷ fs, rest) k h = refl

push_front-none :
    (c : ℕ) (b : List Text × Text)
    → (push_front c b).0 ≡ []
    → (b.0 ≡ []) × ((push_front c b).1 ≡ c ∷ b.1)
push_front-none c ([], rest) h = (refl, refl)
push_front-none c (f ∷ fs, rest) h = cc

blocks-none : (b : Text) → (blocks b).0 ≡ [] → (blocks b).1 ≡ b
unfolding blocks
blocks-none [] h = refl
blocks-none (c ∷ []) h = refl
blocks-none (c ∷ d ∷ s) h = elim (Bool-cases ((c == newline) && (d == newline))) [
  | inl sep ↦ let bad = rw sep at h in cc
  | inr not_sep ↦
      let (nil, same) = push_front-none c (blocks (d ∷ s)) (rw not_sep at h) in
      rw not_sep (same ∙ ap (λ r. c ∷ r) (blocks-none (d ∷ s) nil))
]

-- Reading on: the frames of two texts joined are those of the first, and then those of what the
-- first leaves, joined to the second.
pub blocks-append : (b t : Text) → blocks (b ++ t) ≡ join (blocks b) (λ rest. blocks (rest ++ t))
unfolding blocks
blocks-append [] t = refl
blocks-append (c ∷ []) t = refl
blocks-append (c ∷ d ∷ s) t = elim (Bool-cases ((c == newline) && (d == newline))) [
  | inl sep ↦ rw sep (ap (cons_frame []) (blocks-append s t))
  | inr not_sep ↦ rw not_sep (
      ap (push_front c) (blocks-append (d ∷ s) t)
      ∙ push_front-join c (blocks (d ∷ s)) (λ rest. blocks (rest ++ t))
          (λ nil. rw (blocks-none (d ∷ s) nil) (rw not_sep)))
]

strip_two :
    (c d : ℕ) (s : Text)
    → strip (newline ∷ newline ∷ []) (c ∷ d ∷ s)
      ≡ (if (c == newline) && (d == newline) then some s else none)
strip_two c d s = ground arith

pub cut-none : (b : Text) → cut b ≡ none → blocks b ≡ ([], b)
unfolding blocks cut
cut-none [] e = refl
cut-none (c ∷ []) e = refl
cut-none (c ∷ d ∷ s) e = ground (arith, strip_two c d s, cut-none (d ∷ s))

pub cut-some :
    (b f rest : Text)
    → cut b ≡ some (f, rest)
    → (blocks b ≡ cons_frame f (blocks rest)) × (length rest < length b)
unfolding blocks cut
cut-some [] f rest e = absurd (ground arith)
cut-some (c ∷ []) f rest e = absurd (ground arith)
cut-some (c ∷ d ∷ s) f rest e = elim (Bool-cases ((c == newline) && (d == newline))) [
  | inl sep ↦
      let (no_frame, here) : (f ≡ []) × (rest ≡ s) = ground (arith, strip_two c d s) in
      rw (no_frame, here) (rw sep (refl, omega arith))
  | inr not_sep ↦ elim (Option-cases (cut (d ∷ s))) [
    | inl gone ↦ absurd (ground (arith, strip_two c d s))
    | inr ((f', rest'), found) ↦
        let (longer, same) : (f ≡ c ∷ f') × (rest ≡ rest') = ground (arith, strip_two c d s) in
        let (framed, shorter) = cut-some (d ∷ s) f' rest' found in
        rw (longer, same) (rw not_sep (ap (push_front c) framed, omega arith))
  ]
]
