-- ===== src/Prelude/Laws.antt =====
-- Laws of the equality tests of strings and texts, of the Boolean operations and of options.
use mathlib.Core.Path.{◌≡◌, refl, sym, ◌∙◌}
use mathlib.Core.Logic.{inl, inr}
use mathlib.Core.Bool.{Bool, true, false, ◌||◌, ◌&&◌, not, false≢true}
use Prim.Native.String.{String}
use text.Mathlib.Text.{◌==◌ as str_eq}
use text.Mathlib.TextEquality.{eq_iff}
use mathlib.Core.List.{[], ◌∷◌}
use mathlib.Core.Option.{none, some}
use usezombie.Prelude.Texts.{Text, text_eq}
use usezombie.Prelude.Tests.{Bool-cases, ◌==◌, ==_iff}

pub str_eq_refl : (s : String) → str_eq s s ≡ true
str_eq_refl s = (eq_iff s s).1 refl

pub str_eq-other : (s t u : String) → str_eq s t ≡ false → str_eq s u ≡ true → str_eq t u ≡ false
str_eq-other s t u h k = elim (Bool-cases (str_eq t u)) [
  | inl e ↦ absurd (false≢true (sym h ∙ (eq_iff s t).1 ((eq_iff s u).0 k ∙ sym ((eq_iff t u).0 e))))
  | inr e ↦ e
]

pub str_eq-swap : (s t : String) → str_eq s t ≡ false → str_eq t s ≡ false
str_eq-swap s t h = elim (Bool-cases (str_eq t s)) [
  | inl e ↦ absurd (false≢true (sym h ∙ (eq_iff s t).1 (sym ((eq_iff t s).0 e))))
  | inr e ↦ e
]

pub ||_false : (a b : Bool) → (a || b) ≡ false → (a ≡ false) × (b ≡ false)
||_false false b h = (refl, h)
||_false true b h = absurd (false≢true (sym h))

pub &&_true : (a b : Bool) → (a && b) ≡ true → (a ≡ true) × (b ≡ true)
&&_true true b h = (refl, h)
&&_true false b h = absurd (false≢true h)

pub text_eq_eq : (s t : Text) → text_eq s t ≡ true → s ≡ t
text_eq_eq [] [] h = refl
text_eq_eq [] (_ ∷ _) h = absurd (false≢true h)
text_eq_eq (_ ∷ _) [] h = absurd (false≢true h)
text_eq_eq (a ∷ s) (b ∷ t) h =
    let both = &&_true (a == b) (text_eq s t) h in
    rw ((==_iff a b).0 both.0, text_eq_eq s t both.1) refl

pub none≢some : {A : Type 0} {a : A} → none ≡ some a → ⊥
none≢some e = cc

pub not-true : (b : Bool) → not b ≡ true → b ≡ false
not-true true h = absurd (false≢true h)
not-true false h = refl
