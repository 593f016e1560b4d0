-- ===== src/Procesos/Printed.antt =====
-- What the loop over the first five processes prints.
use sistemas_operativos.Prelude.{
  ℕ, zero, suc, ◌+◌, ◌-◌, ◌/◌, ◌≤◌, ◌<◌, ◌≡◌, refl, sym, ap, ◌∙◌, List, [], ◌∷◌, ◌++◌, Bool, true,
  false, ◌==◌, ◌||◌, ◌&&◌, ltb, if◌then◌else◌, some, take, length, Bool-cases, inl, inr, arith,
}
use mathlib.Core.List.{append_assoc, append-nil}
use mathlib.Core.Path.{subst}
use sistemas_operativos.Prelude.Int.{ℤ, pos, negsuc}
use sistemas_operativos.Text.{codes, decimal_fuel, decimal}
use sistemas_operativos.Text.Buffer.{
  write, null_free, null_free-append, Holds, write-Holds, append_text-Holds, int_max,
}
use sistemas_operativos.Procesos.{
  ProcMemInfo, members, entry, print_entries, print_all, opening, closing, print_int,
}
use sistemas_operativos.Procesos.Document.{objects, document}

-- The text of the loop, from the process with index `i` on.
unfoldable printed : ℕ → ℕ → List ProcMemInfo → List ℕ
printed count i [] = []
printed count i (p ∷ ps) =
    let rest = printed count (i + 1) ps in
    if ltb i 5 then entry (i == 4 || i == count - 1) p ++ rest else []

take_nil : (k : ℕ) → take {A = ProcMemInfo} k [] ≡ []
take_nil zero = refl
take_nil (suc k) = refl

-- The last entry has no comma, because it is the fifth or there are no more.
printed-objects :
    (k i : ℕ) (ps : List ProcMemInfo)
    → i + k ≡ 5
    → printed (i + length ps) i ps ≡ objects (take k ps)
unfolding printed
printed-objects zero i [] e = refl
printed-objects zero i (p ∷ ps) e = rw past refl
  where
    past : ltb i 5 ≡ false
    past = ground (arith, e)
printed-objects (suc k) i [] e = refl
printed-objects (suc k) i (p ∷ []) e = rw (below, last, take_nil k) (append-nil (entry true p))
  where
    below : ltb i 5 ≡ true
    below = ground (arith, e)

    last : (i == 4 || i == i + 1 - 1) ≡ true
    last = ground arith
printed-objects (suc zero) i (p ∷ q ∷ ps) e = rw (below, last, past) (append-nil (entry true p))
  where
    below : ltb i 5 ≡ true
    below = ground (arith, e)

    last : (i == 4) ≡ true
    last = ground (arith, e)

    past : ltb (i + 1) 5 ≡ false
    past = ground (arith, e)
printed-objects (suc (suc k)) i (p ∷ q ∷ ps) e =
    rw (below, fifth, final)
      (append_assoc (members p) (codes ",\n") (printed count (i + 1) (q ∷ ps))
        ∙ ap (λ l. members p ++ (codes ",\n" ++ l))
            (ap (λ n. printed n (i + 1) (q ∷ ps)) shifted
              ∙ printed-objects (suc k) (i + 1) (q ∷ ps) (omega (arith, e))))
  where
    count : ℕ
    count = i + length (p ∷ q ∷ ps)

    below : ltb i 5 ≡ true
    below = ground (arith, e)

    fifth : (i == 4) ≡ false
    fifth = ground (arith, e)

    final : (i == count - 1) ≡ false
    final = ground arith

    shifted : count ≡ i + 1 + length (q ∷ ps)
    shifted = omega arith

null_free-decimal_fuel : (f n : ℕ) → null_free (decimal_fuel f n) ≡ true
unfolding null_free decimal_fuel
null_free-decimal_fuel zero n = refl
null_free-decimal_fuel (suc f) n = elim (Bool-cases (ltb n 10)) [
  | inl one ↦ rw one (ground arith)
  | inr more ↦ rw more (
      null_free-append (decimal_fuel f (n / 10)) _ (null_free-decimal_fuel f (n / 10))
        (ground arith))
]

null_free-print_int : (z : ℤ) → null_free (print_int z) ≡ true
unfolding null_free
null_free-print_int (pos n) = null_free-decimal_fuel 20 n
null_free-print_int (negsuc n) = null_free-decimal_fuel 20 (n + 1)

-- The names hold no null byte.
abbrev pub clean : List ProcMemInfo → Bool
clean [] = true
clean (p ∷ ps) = null_free p.comm && clean ps

null_free-members : (p : ProcMemInfo) → null_free p.comm ≡ true → null_free (members p) ≡ true
unfolding null_free members
null_free-members p h = null_free-append (print_int p.pid) _ (null_free-print_int p.pid) (
    null_free-append p.comm _ h (
      null_free-append (decimal p.rss) _ (null_free-decimal_fuel 20 p.rss) (
        null_free-append (decimal p.cpu_time) _ (null_free-decimal_fuel 20 p.cpu_time) (
          null_free-append (decimal p.cpu_percentage) _ (null_free-decimal_fuel 20 p.cpu_percentage)
            refl))))

null_free-entry :
    (last : Bool) (p : ProcMemInfo) → null_free p.comm ≡ true → null_free (entry last p) ≡ true
unfolding null_free
null_free-entry true p h = null_free-append (members p) _ (null_free-members p h) refl
null_free-entry false p h = null_free-append (members p) _ (null_free-members p h) refl

null_free-printed :
    (count i : ℕ) (ps : List ProcMemInfo) → clean ps ≡ true → null_free (printed count i ps) ≡ true
unfolding printed null_free
null_free-printed count i [] h = refl
null_free-printed count i (p ∷ ps) h = elim (Bool-cases (ltb i 5)) [
  | inr past ↦ rw past refl
  | inl below ↦ rw below (
      null_free-append (entry (i == 4 || i == count - 1) p) (printed count (i + 1) ps)
        (null_free-entry (i == 4 || i == count - 1) p (ground (arith, h)))
        (null_free-printed count (i + 1) ps (ground (arith, h))))
]

null_free-opening : null_free opening ≡ true
unfolding null_free
null_free-opening = refl

null_free-closing : null_free closing ≡ true
unfolding null_free
null_free-closing = refl

printed_all : (ps : List ProcMemInfo) → printed (length ps) 0 ps ≡ objects (take 5 ps)
printed_all ps = ap (λ n. printed n 0 ps) (from_zero (length ps)) ∙ printed-objects 5 0 ps refl
  where
    from_zero : (n : ℕ) → n ≡ 0 + n
    from_zero n = omega arith

printed-document :
    (ps : List ProcMemInfo) → ((opening ++ printed (length ps) 0 ps) ++ closing) ≡ document ps
printed-document ps =
    append_assoc opening (printed (length ps) 0 ps) closing
    ∙ ap (λ l. opening ++ (l ++ closing)) (printed_all ps)

pub null_free-document : (ps : List ProcMemInfo) → clean ps ≡ true → null_free (document ps) ≡ true
null_free-document ps h =
    subst (λ t. null_free t ≡ true) (printed-document ps)
      (null_free-append (opening ++ printed (length ps) 0 ps) closing
        (null_free-append opening (printed (length ps) 0 ps) null_free-opening
          (null_free-printed (length ps) 0 ps h))
        null_free-closing)

module _ (size : ℕ) (some_ : 0 < size) (fits : size ≤ int_max) where
  print_entries-Holds :
      (count i : ℕ) (ps : List ProcMemInfo) (text buffer : List ℕ)
      → clean ps ≡ true
      → null_free text ≡ true
      → Holds size text buffer
      → (b : List ℕ) × (print_entries count i ps buffer ≡ some b)
        × Holds size (text ++ printed count i ps) b
  unfolding print_entries printed
  print_entries-Holds count i [] text buffer h free holds =
      (buffer, refl, subst (λ t. Holds size t buffer) (sym (append-nil text)) holds)
  print_entries-Holds count i (p ∷ ps) text buffer h free holds = elim (Bool-cases (ltb i 5)) [
    | inr past ↦
        rw (print_entries, printed, past)
          (buffer, refl, subst (λ t. Holds size t buffer) (sym (append-nil text)) holds)
    | inl below ↦
        let (b, e, now) = append_text-Holds size text this buffer some_ fits free holds in
        let (b', f, after) =
          print_entries-Holds count (i + 1) ps (text ++ this) b (ground (arith, h))
            (null_free-append text this free (null_free-entry last p (ground (arith, h)))) now in
        rw (print_entries, printed, below, e)
          (
            b',
            f,
            subst (λ t. Holds size t b') (append_assoc text this (printed count (i + 1) ps)) after,
          )
  ]
    where
      last : Bool
      last = i == 4 || i == count - 1

      this : List ℕ
      this = entry last p

  -- The buffer of the call holds the document as far as it fits.
  pub print_all-Holds :
      (ps : List ProcMemInfo) (buffer : List ℕ)
      → length buffer ≡ size
      → clean ps ≡ true
      → (b : List ℕ) × (print_all ps buffer ≡ some b) × Holds size (document ps) b
  unfolding print_all
  print_all-Holds ps buffer e h =
      let first = write-Holds size opening buffer e some_ fits in
      let (b, f, entries) =
        print_entries-Holds (length ps) 0 ps opening (write buffer opening) h null_free-opening
          first in
      let (b', g, all) =
        append_text-Holds size (opening ++ printed (length ps) 0 ps) closing b some_ fits
          (null_free-append opening (printed (length ps) 0 ps) null_free-opening
            (null_free-printed (length ps) 0 ps h))
          entries in
      (b', rw (print_all, f) g, subst (λ t. Holds size t b') (printed-document ps) all)
