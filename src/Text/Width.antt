-- ===== src/Text/Width.antt =====
-- How long a written text can be, so that it is seen to fit in its buffer.
use sistemas_operativos.Prelude.{
  ℕ, zero, suc, ◌+◌, ◌-◌, ◌≤◌, ◌<◌, ◌≡◌, refl, ap, sym, ◌∙◌, ◌/◌, ◌%◌, ltb, Bool-cases, inl, inr,
  List, [], ◌∷◌, ◌++◌, Bool, true, false, not, ◌&&◌, ◌==◌, arith, length, length-append, take, drop,
}
use mathlib.Core.List.{append_assoc}
use sistemas_operativos.Text.{
  decimal, decimal_fuel, Directive, chr, ulong, format, snprintf, snprintf_into, c_string,
}
use sistemas_operativos.Text.Decimal.{length-decimal_fuel}

-- A bound on the number of characters that a format stands for.
unfoldable pub width : List Directive → ℕ
width [] = 0
width (chr c ∷ d) = 1 + width d
width (ulong ∷ d) = 20 + width d

pub length-format : (d : List Directive) (values : List ℕ) → length (format d values) ≤ width d
unfolding format width
length-format [] values = omega arith
length-format (chr c ∷ d) values = omega (arith, length-format d values)
length-format (ulong ∷ d) [] = omega arith
length-format (ulong ∷ d) (v ∷ values) =
    rw length-append (omega (arith, length-format d values, length-decimal_fuel 20 v))

take_all : (n : ℕ) (s : List ℕ) → length s ≤ n → take n s ≡ s
take_all zero [] h = refl
take_all zero (x ∷ s) h = absurd (omega arith)
take_all (suc n) [] h = refl
take_all (suc n) (x ∷ s) h = rw (take_all n s (omega arith)) refl

-- A buffer larger than the bound takes the whole text.
pub snprintf-format :
    (size : ℕ) (d : List Directive) (values : List ℕ)
    → width d < size
    → snprintf size d values ≡ format d values
unfolding snprintf
snprintf-format size d values h =
    take_all (size - 1) (format d values) (omega (arith, length-format d values))

-- No character of a text ends a string.
unfoldable pub no_null : List Directive → Bool
no_null [] = true
no_null (chr c ∷ d) = not (c == 0) && no_null d
no_null (ulong ∷ d) = no_null d

c_string-head : (c : ℕ) (s : List ℕ) → (c == 0) ≡ false → c_string (c ∷ s) ≡ c ∷ c_string s
unfolding c_string
c_string-head c s h = rw h refl

c_string-decimal_fuel :
    (f n : ℕ) (t : List ℕ) → c_string (decimal_fuel f n ++ t) ≡ decimal_fuel f n ++ c_string t
unfolding decimal_fuel
c_string-decimal_fuel zero n t = refl
c_string-decimal_fuel (suc f) n t = elim (Bool-cases (ltb n 10)) [
  | inl one ↦ rw one (c_string-head (48 + n) t (ground arith))
  | inr more ↦ rw more (
      ap c_string (append_assoc (decimal_fuel f (n / 10)) ((48 + n % 10) ∷ []) t)
      ∙ c_string-decimal_fuel f (n / 10) ((48 + n % 10) ∷ t)
      ∙ ap (λ s. decimal_fuel f (n / 10) ++ s) (c_string-head (48 + n % 10) t (ground arith))
      ∙ sym (append_assoc (decimal_fuel f (n / 10)) ((48 + n % 10) ∷ []) (c_string t)))
]

-- The string in a buffer that begins with a written text and a null byte is the text.
pub c_string-format :
    (d : List Directive) (values rest : List ℕ)
    → no_null d ≡ true
    → c_string (format d values ++ (0 ∷ rest)) ≡ format d values
unfolding format no_null c_string
c_string-format [] values rest h = refl
c_string-format (chr c ∷ d) values rest h =
    c_string-head c (format d values ++ (0 ∷ rest)) (ground arith)
    ∙ ap (λ s. c ∷ s) (c_string-format d values rest (ground arith))
c_string-format (ulong ∷ d) [] rest h = refl
c_string-format (ulong ∷ d) (v ∷ values) rest h = rw append_assoc (
    c_string-decimal_fuel 20 v (format d values ++ (0 ∷ rest))
    ∙ ap (λ s. decimal v ++ s) (c_string-format d values rest h))

-- What a reader finds in a buffer after `snprintf`, if the format cannot overflow it.
pub c_string-snprintf_into :
    (buffer : List ℕ) (d : List Directive) (values rest : List ℕ)
    → width d < length buffer
    → no_null d ≡ true
    → c_string (snprintf_into buffer d values ++ rest) ≡ format d values
unfolding snprintf_into
c_string-snprintf_into buffer d values rest fits h =
    rw (snprintf-format (length buffer) d values fits, append_assoc)
      (c_string-format d values (drop (length (format d values) + 1) buffer ++ rest) h)
