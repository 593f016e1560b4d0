-- ===== src/Text/Scan.antt =====
-- What `snprintf` writes, `sscanf` reads back.
use sistemas_operativos.Prelude.{
  ℕ, ◌^◌, ◌<◌, ◌≡◌, refl, ap, sym, ◌∙◌, List, [], ◌∷◌, ◌++◌, Bool, true, false, not, ◌&&◌, arith,
  Bool-cases, inl, inr,
}
use mathlib.Core.List.{append_assoc, append-nil}
use sistemas_operativos.Text.{
  is_digit, is_space, decimal, number, starts_digit, skip_space, Directive, chr, ulong, format,
  sscanf,
}
use sistemas_operativos.Text.Decimal.{
  number-decimal_fuel, starts_digit-decimal_fuel, skip_space-digit,
}

-- A `%lu` ends at a character that is no digit.
abbrev ends_number : List Directive → Bool
ends_number [] = false
ends_number (ulong ∷ d) = false
ends_number (chr c ∷ d) = not (is_digit c)

abbrev is_empty : List Directive → Bool
is_empty [] = true
is_empty (x ∷ d) = false

-- No number and no white space runs on into what follows it.
unfoldable pub readable : List Directive → Bool
readable [] = true
readable (chr c ∷ d) = not (is_space c && is_empty d) && readable d
readable (ulong ∷ d) = ends_number d && readable d

-- One value of 64 bits for each `%lu`.
unfoldable pub Fit : List Directive → List ℕ → Type 0
Fit [] [] = Unit {0}
Fit [] (v ∷ values) = ⊥
Fit (chr c ∷ d) values = Fit d values
Fit (ulong ∷ d) [] = ⊥
Fit (ulong ∷ d) (v ∷ values) = (v < 2 ^ 64) × Fit d values

skip_space-space : (c : ℕ) (s : List ℕ) → is_space c ≡ true → skip_space (c ∷ s) ≡ skip_space s
unfolding skip_space
skip_space-space c s h = rw h refl

skip_space-other : (c : ℕ) (s : List ℕ) → is_space c ≡ false → skip_space (c ∷ s) ≡ c ∷ s
unfolding skip_space
skip_space-other c s h = rw h refl

skip_space-skip_space : (s : List ℕ) → skip_space (skip_space s) ≡ skip_space s
unfolding skip_space
skip_space-skip_space [] = refl
skip_space-skip_space (c ∷ s) = elim (Bool-cases (is_space c)) [
  | inl h ↦ rw h (skip_space-skip_space s)
  | inr h ↦ rw h (skip_space-other c s h)
]

sscanf-space :
    (c : ℕ) (d : List Directive) (s : List ℕ)
    → is_space c ≡ true
    → sscanf (chr c ∷ d) s ≡ sscanf d (skip_space s)
unfolding sscanf skip_space
sscanf-space c d [] h = rw h refl
sscanf-space c d (x ∷ s) h = rw h refl

sscanf-same :
    (c : ℕ) (d : List Directive) (s : List ℕ)
    → is_space c ≡ false
    → sscanf (chr c ∷ d) (c ∷ s) ≡ sscanf d s
unfolding sscanf
sscanf-same c d s h = rw h (ground arith)

number-stop : (v : ℕ) (t : List ℕ) → starts_digit t ≡ false → number v t ≡ (v, t)
unfolding number
number-stop v [] stop = refl
number-stop v (c ∷ t) stop = rw stop refl

-- A number in front of a text is read back whole, and what follows it goes on.
pub number-decimal :
    (v : ℕ) (t : List ℕ) → v < 2 ^ 64 → starts_digit t ≡ false → number 0 (decimal v ++ t) ≡ (v, t)
number-decimal v t h stop =
    number-decimal_fuel 20 v t (omega arith) (omega arith) ∙ number-stop v t stop

skip_space-decimal :
    (v : ℕ) (t : List ℕ) → v < 2 ^ 64 → skip_space (decimal v ++ t) ≡ decimal v ++ t
skip_space-decimal v t h =
    skip_space-digit (decimal v ++ t) (starts_digit-decimal_fuel 20 v t (omega arith) (omega arith))

sscanf-ulong :
    (v : ℕ) (d : List Directive) (t : List ℕ)
    → v < 2 ^ 64
    → starts_digit t ≡ false
    → sscanf (ulong ∷ d) (decimal v ++ t) ≡ v ∷ sscanf d t
unfolding sscanf
sscanf-ulong v d t h stop =
    rw
      (
        skip_space-decimal v t h,
        starts_digit-decimal_fuel 20 v t (omega arith) (omega arith),
        number-decimal v t h stop,
      )
      refl

starts_digit-format :
    (d : List Directive) (values t : List ℕ)
    → ends_number d ≡ true
    → starts_digit (format d values ++ t) ≡ false
unfolding format
starts_digit-format [] values t h = absurd (ground arith)
starts_digit-format (ulong ∷ d) values t h = absurd (ground arith)
starts_digit-format (chr c ∷ d) values t h = ground arith

sscanf-number :
    (v : ℕ) (d e : List Directive) (values t : List ℕ)
    → v < 2 ^ 64
    → ends_number d ≡ true
    → sscanf (d ++ e) (format d values ++ t) ≡ values ++ sscanf e t
    → sscanf (ulong ∷ (d ++ e)) ((decimal v ++ format d values) ++ t) ≡ v ∷ (values ++ sscanf e t)
sscanf-number v d e values t h stop rest =
    ap (sscanf (ulong ∷ (d ++ e))) (append_assoc (decimal v) (format d values) t)
    ∙ sscanf-ulong v (d ++ e) (format d values ++ t) h (starts_digit-format d values t stop)
    ∙ ap (λ vs. v ∷ vs) rest

-- The values that a format has written are read back by the same directives, and the reading of
-- the text after them goes on with the directives that follow; so too without the white space in
-- front of the text.
mutual
  unfolding readable Fit format

  pub sscanf-format :
      (d e : List Directive) (values t : List ℕ)
      → readable d ≡ true
      → Fit d values
      → sscanf (d ++ e) (format d values ++ t) ≡ values ++ sscanf e t
  sscanf-format [] e [] t good fit = refl
  sscanf-format [] e (v ∷ values) t good fit = absurd fit
  sscanf-format (chr c ∷ d) e values t good fit = elim (Bool-cases (is_space c)) [
    | inl h ↦
        sscanf-space c (d ++ e) (c ∷ (format d values ++ t)) h
        ∙ ap (sscanf (d ++ e)) (skip_space-space c (format d values ++ t) h)
        ∙ sscanf-skip_space-format d e values t (ground arith) (ground arith) fit
    | inr h ↦
        sscanf-same c (d ++ e) (format d values ++ t) h
        ∙ sscanf-format d e values t (ground arith) fit
  ]
  sscanf-format (ulong ∷ d) e [] t good fit = absurd fit
  sscanf-format (ulong ∷ d) e (v ∷ values) t good fit =
      sscanf-number v d e values t fit.0 (ground arith)
        (sscanf-format d e values t (ground arith) fit.1)

  sscanf-skip_space-format :
      (d e : List Directive) (values t : List ℕ)
      → readable d ≡ true
      → is_empty d ≡ false
      → Fit d values
      → sscanf (d ++ e) (skip_space (format d values ++ t)) ≡ values ++ sscanf e t
  sscanf-skip_space-format [] e values t good some fit = absurd (ground arith)
  sscanf-skip_space-format (chr c ∷ d) e values t good some fit = elim (Bool-cases (is_space c)) [
    | inl h ↦
        ap (sscanf (chr c ∷ (d ++ e))) (skip_space-space c (format d values ++ t) h)
        ∙ sscanf-space c (d ++ e) (skip_space (format d values ++ t)) h
        ∙ ap (sscanf (d ++ e)) (skip_space-skip_space (format d values ++ t))
        ∙ sscanf-skip_space-format d e values t (ground arith) (ground arith) fit
    | inr h ↦
        ap (sscanf (chr c ∷ (d ++ e))) (skip_space-other c (format d values ++ t) h)
        ∙ sscanf-same c (d ++ e) (format d values ++ t) h
        ∙ sscanf-format d e values t (ground arith) fit
  ]
  sscanf-skip_space-format (ulong ∷ d) e [] t good some fit = absurd fit
  sscanf-skip_space-format (ulong ∷ d) e (v ∷ values) t good some fit =
      ap (sscanf (ulong ∷ (d ++ e))) (
        ap skip_space (append_assoc (decimal v) (format d values) t)
        ∙ skip_space-decimal v (format d values ++ t) fit.0
        ∙ sym (append_assoc (decimal v) (format d values) t))
      ∙ sscanf-number v d e values t fit.0 (ground arith)
          (sscanf-format d e values t (ground arith) fit.1)

-- All the values are read back by the format that wrote them, whatever text follows.
pub sscanf-format_lem :
    (d : List Directive) (values t : List ℕ)
    → readable d ≡ true
    → Fit d values
    → sscanf d (format d values ++ t) ≡ values
unfolding sscanf
sscanf-format_lem d values t good fit =
    ap (λ e. sscanf e (format d values ++ t)) (sym (append-nil d))
    ∙ sscanf-format d [] values t good fit
    ∙ append-nil values

-- A format in two parts, where the first part takes exactly the first values.
pub format-append :
    (d e : List Directive) (values more : List ℕ)
    → Fit d values
    → format (d ++ e) (values ++ more) ≡ format d values ++ format e more
unfolding format Fit
format-append [] e [] more fit = refl
format-append [] e (v ∷ values) more fit = absurd fit
format-append (chr c ∷ d) e values more fit = ap (λ s. c ∷ s) (format-append d e values more fit)
format-append (ulong ∷ d) e [] more fit = absurd fit
format-append (ulong ∷ d) e (v ∷ values) more fit =
    ap (λ s. decimal v ++ s) (format-append d e values more fit.1)
    ∙ sym (append_assoc (decimal v) (format d values) (format e more))
