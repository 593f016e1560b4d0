-- ===== src/Text/Buffer.antt =====
-- A buffer of the kernel to which several calls of `snprintf` append: a list of bytes, in which the
-- first null byte ends the text.
use sistemas_operativos.Prelude.{
  ℕ, zero, suc, ◌+◌, ◌-◌, ◌^◌, ◌≤◌, ◌<◌, ◌≡◌, refl, sym, ap, ◌∙◌, List, [], ◌∷◌, ◌++◌, Bool, true,
  false, not, ◌&&◌, ◌==◌, ltb, if◌then◌else◌, Option, none, some, take, drop, length, length-append,
  length-take, length-drop, arith, Bool-cases, inl, inr,
}
use mathlib.Core.List.{append_assoc}
use mathlib.Core.Path.{subst}

abbrev pub int_max : ℕ
int_max = 2 ^ 31 - 1

-- `strlen`: a fault if the buffer has no null byte.
unfoldable pub strlen : List ℕ → Option ℕ
strlen [] = none
strlen (c ∷ s) =
    let rest = strlen s in
    if c == 0 then some 0 else elim rest [ none ↦ none | some n ↦ some (suc n) ]

-- What `snprintf` makes of a buffer: the text as far as it fits, and a null byte.
unfoldable pub written : List ℕ → List ℕ → List ℕ
written [] text = []
written (b ∷ buffer) text =
    let fits = take (length buffer) text in fits ++ (0 ∷ drop (length fits) buffer)

-- `snprintf` writes nothing where the size is no positive `int`.
unfoldable pub write : List ℕ → List ℕ → List ℕ
unfolding written
write buffer text = if ltb int_max (length buffer) then buffer else written buffer text

-- `snprintf(output + strlen(output), size - strlen(output), ...)`
unfoldable pub append_text : List ℕ → List ℕ → Option (List ℕ)
unfolding strlen write
append_text buffer text = elim (strlen buffer) [
  | none ↦ none
  | some n ↦ some (take n buffer ++ write (drop n buffer) text)
]

unfoldable pub null_free : List ℕ → Bool
null_free [] = true
null_free (c ∷ s) = not (c == 0) && null_free s

pub null_free-append :
    (s t : List ℕ) → null_free s ≡ true → null_free t ≡ true → null_free (s ++ t) ≡ true
unfolding null_free
null_free-append [] t h k = k
null_free-append (c ∷ s) t h k = ground (arith, null_free-append s t (ground arith) k)

pub null_free-take : (n : ℕ) (s : List ℕ) → null_free s ≡ true → null_free (take n s) ≡ true
unfolding null_free
null_free-take zero s h = refl
null_free-take (suc n) [] h = refl
null_free-take (suc n) (c ∷ s) h = ground (arith, null_free-take n s (ground arith))

pub strlen-append :
    (s rest : List ℕ) → null_free s ≡ true → strlen (s ++ (0 ∷ rest)) ≡ some (length s)
unfolding strlen null_free
strlen-append [] rest h = refl
strlen-append (c ∷ s) rest h = elim (Bool-cases (c == 0)) [
  | inl null ↦ absurd (ground arith)
  | inr other ↦ rw (other, strlen-append s rest (ground arith)) refl
]

pub take-length : (s t : List ℕ) → take (length s) (s ++ t) ≡ s
take-length [] t = refl
take-length (x ∷ s) t = rw (take-length s t) refl

drop-length : (s t : List ℕ) → drop (length s) (s ++ t) ≡ t
drop-length [] t = refl
drop-length (x ∷ s) t = drop-length s t

sub_zero : (n : ℕ) → n ≡ n - 0
sub_zero n = omega arith

sub_suc : (n k : ℕ) → n - k ≡ suc n - suc k
sub_suc n k = omega arith

take-append : (n : ℕ) (s t : List ℕ) → take n (s ++ t) ≡ take n s ++ take (n - length (take n s)) t
take-append zero s t = refl
take-append (suc n) [] t = ap (λ k. take k t) (sub_zero (suc n))
take-append (suc n) (x ∷ s) t =
    ap (λ l. x ∷ l)
      (take-append n s t ∙ ap (λ k. take n s ++ take k t) (sub_suc n (length (take n s))))

-- A buffer of `size` bytes with the text in it, as far as it fits.
abbrev pub Holds : ℕ → List ℕ → List ℕ → Type 0
Holds size text buffer =
    (length buffer ≡ size) × ((rest : List ℕ) × (buffer ≡ take (size - 1) text ++ (0 ∷ rest)))

length-written :
    (b : ℕ) (buffer text : List ℕ) → length (written (b ∷ buffer) text) ≡ suc (length buffer)
unfolding written
length-written b buffer text =
    rw (length-append, length-drop) (omega (arith, length-take (length buffer) text))

-- The first text goes to the front of a buffer, whatever that held.
pub write-Holds :
    (size : ℕ) (text buffer : List ℕ)
    → length buffer ≡ size
    → 0 < size
    → size ≤ int_max
    → Holds size text (write buffer text)
unfolding write written
write-Holds size text [] e some_ fits = absurd (omega arith)
write-Holds size text (b ∷ buffer) e some_ fits = rw small (
  length-written b buffer text ∙ e,
  (
    drop (length (take (length buffer) text)) buffer,
    subst
        (λ n.
          (take (length buffer) text ++ (0 ∷ drop (length (take (length buffer) text)) buffer))
          ≡ (take n text ++ (0 ∷ drop (length (take (length buffer) text)) buffer)))
        (omega arith) refl,
  ),
)
  where
    small : ltb int_max (length (b ∷ buffer)) ≡ false
    small = ground (arith, e)

-- Another text goes behind the one in the buffer.
pub append_text-Holds :
    (size : ℕ) (text more buffer : List ℕ)
    → 0 < size
    → size ≤ int_max
    → null_free text ≡ true
    → Holds size text buffer
    → (b : List ℕ) × (append_text buffer more ≡ some b) × Holds size (text ++ more) b
unfolding append_text write written
append_text-Holds size text more buffer some_ fits clean (e, (rest, f)) = (
  t ++ (u ++ (0 ∷ r)),
  ap (λ b. append_text b more) f ∙ appended,
  (
    rw (length-append, length-append, length-drop)
        (omega (arith, lengths, length-take (length rest) more)),
    (r, sym (append_assoc t u (0 ∷ r)) ∙ ap (λ s. s ++ (0 ∷ r)) both),
  ),
)
  where
    t : List ℕ
    t = take (size - 1) text

    u : List ℕ
    u = take (length rest) more

    r : List ℕ
    r = drop (length u) rest

    lengths : length t + suc (length rest) ≡ size
    lengths = sym (length-append t (0 ∷ rest)) ∙ ap length (sym f) ∙ e

    small : ltb int_max (length (0 ∷ rest)) ≡ false
    small = ground (arith, lengths)

    appended : append_text (t ++ (0 ∷ rest)) more ≡ some (t ++ (u ++ (0 ∷ r)))
    appended =
        rw
          (
            append_text,
            strlen-append t rest (null_free-take (size - 1) text clean),
            take-length t (0 ∷ rest),
            drop-length t (0 ∷ rest),
            write,
            small,
            written,
          )
          refl

    both : (t ++ u) ≡ take (size - 1) (text ++ more)
    both =
        ap (λ n. t ++ take n more) (omega (arith, lengths)) ∙ sym (take-append (size - 1) text more)

pub strlen-Holds :
    (size : ℕ) (text buffer : List ℕ)
    → null_free text ≡ true
    → Holds size text buffer
    → strlen buffer ≡ some (length (take (size - 1) text))
strlen-Holds size text buffer clean (e, (rest, f)) =
    ap strlen f ∙ strlen-append (take (size - 1) text) rest (null_free-take (size - 1) text clean)

pub take-Holds :
    (size : ℕ) (text buffer : List ℕ)
    → Holds size text buffer
    → take (length (take (size - 1) text)) buffer ≡ take (size - 1) text
take-Holds size text buffer (e, (rest, f)) = rw f (take-length (take (size - 1) text) (0 ∷ rest))
