-- ===== src/Text/Decimal.antt =====
-- A number is read back from its digits.
use sistemas_operativos.Prelude.{
  ℕ, zero, suc, ◌+◌, ◌*◌, ◌/◌, ◌%◌, ◌^◌, ◌≤◌, ◌<◌, ◌≡◌, refl, ap, ◌∙◌, List, [], ◌∷◌, ◌++◌, true,
  false, arith, length, length-append, Bool-cases, inl, inr, ltb,
}
use mathlib.Core.List.{append_assoc}
use native.Mathlib.Nat.{pow-suc}
use sistemas_operativos.Text.{decimal_fuel, number, starts_digit, skip_space}

number_digit :
    (acc d : ℕ) (t : List ℕ) → d < 10 → number acc ((48 + d) ∷ t) ≡ number (acc * 10 + d) t
unfolding number
number_digit acc d t h = ground arith

-- A number of two digits needs fuel for two.
more_fuel : (f n : ℕ) → n < 10 ^ suc f → ltb n 10 ≡ false → 0 < f
more_fuel zero n h more = absurd (ground arith)
more_fuel (suc f) n h more = omega arith

-- Reading the digits of `n` in front of a text goes on with `n`.
pub number-decimal_fuel :
    (f n : ℕ) (t : List ℕ) → n < 10 ^ f → 0 < f → number 0 (decimal_fuel f n ++ t) ≡ number n t
unfolding decimal_fuel
number-decimal_fuel zero n t h pos = absurd (omega arith)
number-decimal_fuel (suc f) n t h pos = elim (Bool-cases (ltb n 10)) [
  | inl one ↦ rw one (number_digit 0 n t (ground arith) ∙ ap (λ k. number k t) (omega arith))
  | inr more ↦
      rw (more, append_assoc)
        (number-decimal_fuel f (n / 10) ((48 + n % 10) ∷ t) (omega (arith, pow-suc))
            (more_fuel f n h more)
          ∙ number_digit (n / 10) (n % 10) t (omega arith)
          ∙ ap (λ k. number k t) (omega arith))
]

-- It begins with a digit, so there is no white space to skip.
pub starts_digit-decimal_fuel :
    (f n : ℕ) (t : List ℕ) → 0 < f → n < 10 ^ f → starts_digit (decimal_fuel f n ++ t) ≡ true
unfolding decimal_fuel
starts_digit-decimal_fuel zero n t h fits = absurd (omega arith)
starts_digit-decimal_fuel (suc f) n t h fits = elim (Bool-cases (ltb n 10)) [
  | inl one ↦ rw one (ground arith)
  | inr more ↦
      rw (more, append_assoc)
        (starts_digit-decimal_fuel f (n / 10) ((48 + n % 10) ∷ t) (more_fuel f n fits more)
          (omega (arith, pow-suc)))
]

pub skip_space-digit : (t : List ℕ) → starts_digit t ≡ true → skip_space t ≡ t
unfolding skip_space
skip_space-digit [] h = refl
skip_space-digit (c ∷ t) h = ground arith

pub length-decimal_fuel : (f n : ℕ) → length (decimal_fuel f n) ≤ f
unfolding decimal_fuel
length-decimal_fuel zero n = omega arith
length-decimal_fuel (suc f) n = elim (Bool-cases (ltb n 10)) [
  | inl one ↦ rw one (omega arith)
  | inr more ↦ rw (more, length-append) (omega (arith, length-decimal_fuel f (n / 10)))
]
