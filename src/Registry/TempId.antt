-- ===== src/Registry/TempId.antt =====
-- Temporary ids of different numbers differ.
use Prim.Native.String.{◌++◌ as str_append}
use Prim.Native.Char.{Char, code}
use text.Mathlib.TextLemmas.{append_cancel_left, cons-append, nil-append}
use usezombie.Prelude.{
  ℕ, zero, suc, ◌+◌, ◌-◌, ◌*◌, ◌/◌, ◌%◌, ◌<◌, ◌≡◌, sym, ap, ◌∙◌, String, false, ◌==◌, ==_iff,
  Bool-cases, inl, inr, arith,
}
use usezombie.Registry.Outbox.{digit, digits, temp_id}

-- The number that a decimal text continues.
read : ℕ → String → ℕ
read n String.[] = n
read n (String.◌∷◌ c s) = read (n * 10 + (code c - 48)) s

single :
    (acc n : ℕ) (c : Char) (rest : String)
    → n ≡ code c - 48
    → read acc (str_append (String.◌∷◌ c String.[]) rest) ≡ read (acc * 10 + n) rest
unfolding read
single acc n c rest h =
    ap (read acc) (cons-append c String.[] rest ∙ ap (λ s. String.◌∷◌ c s) (nil-append rest))
    ∙ ap (λ k. read (acc * 10 + k) rest) (sym h)

read-digit :
    (acc n : ℕ) (rest : String)
    → n < 10
    → read acc (str_append (digit n) rest) ≡ read (acc * 10 + n) rest
read-digit acc n rest h = elim (Bool-cases (n == 0)) [
  | inl e ↦ rw e (single acc n "0" rest ((==_iff n 0).0 e))
  | inr e0 ↦ elim (Bool-cases (n == 1)) [
    | inl e ↦ rw (e0, e) (single acc n "1" rest ((==_iff n 1).0 e))
    | inr e1 ↦ elim (Bool-cases (n == 2)) [
      | inl e ↦ rw (e0, e1, e) (single acc n "2" rest ((==_iff n 2).0 e))
      | inr e2 ↦ elim (Bool-cases (n == 3)) [
        | inl e ↦ rw (e0, e1, e2, e) (single acc n "3" rest ((==_iff n 3).0 e))
        | inr e3 ↦ elim (Bool-cases (n == 4)) [
          | inl e ↦ rw (e0, e1, e2, e3, e) (single acc n "4" rest ((==_iff n 4).0 e))
          | inr e4 ↦ elim (Bool-cases (n == 5)) [
            | inl e ↦ rw (e0, e1, e2, e3, e4, e) (single acc n "5" rest ((==_iff n 5).0 e))
            | inr e5 ↦ elim (Bool-cases (n == 6)) [
              | inl e ↦ rw (e0, e1, e2, e3, e4, e5, e) (single acc n "6" rest ((==_iff n 6).0 e))
              | inr e6 ↦ elim (Bool-cases (n == 7)) [
                | inl e ↦
                    rw (e0, e1, e2, e3, e4, e5, e6, e) (single acc n "7" rest ((==_iff n 7).0 e))
                | inr e7 ↦ elim (Bool-cases (n == 8)) [
                  | inl e ↦
                      rw (e0, e1, e2, e3, e4, e5, e6, e7, e)
                        (single acc n "8" rest ((==_iff n 8).0 e))
                  | inr e8 ↦
                      rw (e0, e1, e2, e3, e4, e5, e6, e7, e8)
                        (single acc n "9" rest (last n h e0 e1 e2 e3 e4 e5 e6 e7 e8))
                ]
              ]
            ]
          ]
        ]
      ]
    ]
  ]
]
  where
    last :
        (n : ℕ)
        → n < 10
        → (n == 0) ≡ false
        → (n == 1) ≡ false
        → (n == 2) ≡ false
        → (n == 3) ≡ false
        → (n == 4) ≡ false
        → (n == 5) ≡ false
        → (n == 6) ≡ false
        → (n == 7) ≡ false
        → (n == 8) ≡ false
        → n ≡ 9
    last n h e0 e1 e2 e3 e4 e5 e6 e7 e8 = ground arith

read-digits : (fuel n : ℕ) (rest : String) → n < fuel → read 0 (digits fuel n rest) ≡ read n rest
unfolding digits
read-digits zero n rest h = absurd (omega arith)
read-digits (suc fuel) n rest h = elim (Bool-cases (n / 10 == 0)) [
  | inl e ↦
      let small = (==_iff (n / 10) 0).0 e in
      rw e (read-digit 0 n rest (omega arith) ∙ ap (λ k. read k rest) (omega arith))
  | inr e ↦
      let whole : n / 10 * 10 + n % 10 ≡ n = omega arith in
      rw e (
        read-digits fuel (n / 10) (str_append (digit (n % 10)) rest) (ground arith)
        ∙ read-digit (n / 10) (n % 10) rest (omega arith)
        ∙ ap (λ k. read k rest) whole)
]

pub temp_id_inj : (n m : ℕ) → temp_id n ≡ temp_id m → n ≡ m
unfolding temp_id read
temp_id_inj n m e =
    sym (read-digits (suc n) n "" (omega arith))
    ∙ ap (read 0) (append_cancel_left "optim-" (digits (suc n) n "") (digits (suc m) m "") e)
    ∙ read-digits (suc m) m "" (omega arith)
