-- ===== src/Logs/Lines.antt =====
-- Which lines the second loop copies.
use sistemas_operativos.Prelude.{
  ℕ, zero, suc, ◌+◌, ◌-◌, ◌≡◌, ◌≤◌, ◌<◌, ap, sym, ◌∙◌, List, [], ◌∷◌, ◌++◌, length, length-append,
  true, false, leb, arith, Bool-cases, inl, inr, drop,
}
use mathlib.Core.Path.{subst}
use mathlib.Core.List.{append_assoc, append-nil}
use sistemas_operativos.Logs.{copy_lines, max_log_entries}

abbrev pub concat : List (List ℕ) → List ℕ
concat [] = []
concat (line ∷ rest) = line ++ concat rest

-- What is copied stays below the length of the buffer, whatever the lines are and however many
-- were counted.
pub length-copy_lines :
    (buffer_length total processed : ℕ) (output : List ℕ) (lines : List (List ℕ))
    → length output < buffer_length
    → length (copy_lines buffer_length total processed output lines) < buffer_length
unfolding copy_lines
length-copy_lines buffer_length total processed output [] h = h
length-copy_lines buffer_length total processed output (line ∷ rest) h =
    elim (Bool-cases (leb (total - processed) max_log_entries)) [
      | inl last ↦ elim (Bool-cases (leb buffer_length (length output + length line))) [
        | inl full ↦ rw (last, full) h
        | inr fits ↦
            rw (last, fits)
              (length-copy_lines buffer_length total (processed + 1) (output ++ line) rest
                (rw length-append (ground arith)))
      ]
      | inr early ↦ rw early (length-copy_lines buffer_length total (processed + 1) output rest h)
    ]

copy_all :
    (buffer_length total processed : ℕ) (output : List ℕ) (lines : List (List ℕ))
    → total ≤ processed + max_log_entries
    → length output + length (concat lines) < buffer_length
    → copy_lines buffer_length total processed output lines ≡ output ++ concat lines
unfolding copy_lines
copy_all buffer_length total processed output [] few h = sym (append-nil output)
copy_all buffer_length total processed output (line ∷ rest) few h =
    rw (last, fits)
      (copy_all buffer_length total (processed + 1) (output ++ line) rest (omega arith)
          (rw length-append (omega (arith, split)))
        ∙ append_assoc output line (concat rest))
  where
    split : length (line ++ concat rest) ≡ length line + length (concat rest)
    split = length-append line (concat rest)

    last : leb (total - processed) max_log_entries ≡ true
    last = ground arith

    fits : leb buffer_length (length output + length line) ≡ false
    fits = ground (arith, split)

copy_last :
    (buffer_length total processed k : ℕ) (lines : List (List ℕ))
    → total ≡ processed + length lines
    → length lines ≡ k + max_log_entries
    → length (concat (drop k lines)) < buffer_length
    → copy_lines buffer_length total processed [] lines ≡ concat (drop k lines)
unfolding copy_lines
copy_last buffer_length total processed zero lines all len h =
    copy_all buffer_length total processed [] lines (omega arith) (omega (arith, h))
copy_last buffer_length total processed (suc k) [] all len h = absurd (omega arith)
copy_last buffer_length total processed (suc k) (line ∷ rest) all len h =
    rw early (copy_last buffer_length total (processed + 1) k rest (omega arith) (omega arith) h)
  where
    early : leb (total - processed) max_log_entries ≡ false
    early = ground arith

-- If both passes see the same lines and the last five of them are shorter than the buffer, they
-- are copied, one after the other, and nothing else.
pub copy_lines-drop :
    (buffer_length : ℕ) (lines : List (List ℕ))
    → length (concat (drop (length lines - max_log_entries) lines)) < buffer_length
    → copy_lines buffer_length (length lines) 0 [] lines
      ≡ concat (drop (length lines - max_log_entries) lines)
copy_lines-drop buffer_length lines h = elim (Bool-cases (leb (length lines) max_log_entries)) [
  | inl few ↦
      copy_all buffer_length (length lines) 0 [] lines (ground arith) (
        omega
          (arith, subst (λ k. length (concat (drop k lines)) < buffer_length) (none_early few) h))
      ∙ ap (λ k. concat (drop k lines)) (sym (none_early few))
  | inr many ↦
      copy_last buffer_length (length lines) 0 (length lines - max_log_entries) lines (omega arith)
        (ground arith) h
]
  where
    none_early : leb (length lines) max_log_entries ≡ true → length lines - max_log_entries ≡ 0
    none_early few = ground arith
