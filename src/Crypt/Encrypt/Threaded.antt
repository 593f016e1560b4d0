-- ===== src/Crypt/Encrypt/Threaded.antt =====
-- The buffer that the threads of my_encrypt.c leave behind, run one after the other, is the file
-- under the cipher.
use sistemas_operativos.Prelude.{
  ℕ, zero, suc, ◌+◌, ◌^◌, ◌≤◌, ◌<◌, ◌≡◌, refl, ap, sym, ◌∙◌, List, arith, length, get_or, list_ext,
  dec_lt,
}
use mathlib.Core.Path.{subst}
use sistemas_operativos.Crypt.Fragment.{DataFragment, fragment_of}
use sistemas_operativos.Crypt.Worker.{
  xor_at, perform_xor_operation, length-perform_xor_operation, get_or-perform_xor_operation,
}
use sistemas_operativos.Crypt.Cipher.{xor_cipher, length-xor_cipher, get_or-xor_cipher}
use sistemas_operativos.Crypt.Threads.Tiling.{Tiled, fragment_of-Tiled}
use sistemas_operativos.Crypt.Encrypt.{run_threads}

module _ (f : ℕ → DataFragment) (thread_count : ℕ) where
  abbrev Owns : ℕ → ℕ → Type 0
  Owns t j = ((f t).start_idx ≤ j) × (j < (f t).end_idx)

  length-run_threads :
      (rounds i : ℕ) (buffer : List ℕ) → length (run_threads f rounds i buffer) ≡ length buffer
  unfolding run_threads
  length-run_threads zero i buffer = refl
  length-run_threads (suc rounds) i buffer =
      length-run_threads rounds (i + 1) (perform_xor_operation (f i) buffer)
      ∙ length-perform_xor_operation (f i) buffer

  module _ (size : ℕ) (tiled : Tiled f thread_count size) where
    perform-byte :
        (i : ℕ) (buffer : List ℕ) (j : ℕ)
        → i < thread_count
        → length buffer ≡ size
        → (Owns i j
            → get_or (perform_xor_operation (f i) buffer) j 0 ≡ xor_at (f i) j (get_or buffer j 0))
          × (¬ Owns i j → get_or (perform_xor_operation (f i) buffer) j 0 ≡ get_or buffer j 0)
    perform-byte i buffer j h e =
        let whole =
          get_or-perform_xor_operation (f i) buffer (tiled.ordered i h)
            (omega (arith, tiled.inside i h)) j in
        (λ own. ground (arith, whole), λ other. ground (arith, whole))

    -- A byte that none of the threads owns stays.
    run_threads-elsewhere :
        (rounds i : ℕ) (buffer : List ℕ) (j : ℕ)
        → length buffer ≡ size
        → i + rounds ≤ thread_count
        → ((u : ℕ) → i ≤ u → u < i + rounds → ¬ Owns u j)
        → get_or (run_threads f rounds i buffer) j 0 ≡ get_or buffer j 0
    unfolding run_threads
    run_threads-elsewhere zero i buffer j e h none_owns = refl
    run_threads-elsewhere (suc rounds) i buffer j e h none_owns =
        run_threads-elsewhere rounds (i + 1) (perform_xor_operation (f i) buffer) j
          (length-perform_xor_operation (f i) buffer ∙ e) (omega arith)
          (λ u from before. none_owns u (omega arith) (omega arith))
        ∙ (perform-byte i buffer j (omega arith) e).1 (none_owns i (omega arith) (omega arith))

    run_threads-owned :
        (rounds i : ℕ) (buffer : List ℕ) (t j : ℕ)
        → length buffer ≡ size
        → i + rounds ≤ thread_count
        → i ≤ t
        → t < i + rounds
        → Owns t j
        → get_or (run_threads f rounds i buffer) j 0 ≡ xor_at (f t) j (get_or buffer j 0)
    unfolding run_threads
    run_threads-owned zero i buffer t j e h from before own = absurd (omega arith)
    run_threads-owned (suc rounds) i buffer t j e h from before own = elim (dec_lt i t) [
      | yes later ↦
          run_threads-owned rounds (i + 1) (perform_xor_operation (f i) buffer) t j e' (omega arith)
            (omega arith) (omega arith) own
          ∙ ap (xor_at (f t) j) (
              (perform-byte i buffer j (omega arith) e).1
                (λ mine. omega (arith, mine, own, tiled.apart i t (omega arith) (omega arith))))
      | no now ↦
          let same : i ≡ t = omega arith in
          run_threads-elsewhere rounds (i + 1) (perform_xor_operation (f i) buffer) j e'
            (omega arith)
            (λ u above under mine.
              omega (arith, mine, own, tiled.apart u t (omega arith) (omega arith)))
          ∙ subst
              (λ k.
                get_or (perform_xor_operation (f i) buffer) j 0
                ≡ xor_at (f k) j (get_or buffer j 0))
              same ((perform-byte i buffer j (omega arith) e).0 (rw same own))
    ]
      where
        e' : length (perform_xor_operation (f i) buffer) ≡ size
        e' = length-perform_xor_operation (f i) buffer ∙ e

module _ (key file : List ℕ) (key_length thread_count : ℕ) where
  -- The threads of `handle_file_encryption` together compute the cipher.
  pub run_threads-xor_cipher :
      length file < 2 ^ 64
      → 0 < thread_count
      → run_threads (fragment_of key key_length (length file) thread_count) thread_count 0 file
        ≡ xor_cipher key key_length file
  unfolding fragment_of xor_at
  run_threads-xor_cipher small pos =
      list_ext 0 (run_threads f thread_count 0 file) (xor_cipher key key_length file)
        (length-run_threads f thread_count thread_count 0 file
          ∙ sym (length-xor_cipher key key_length file))
        λ j h.
          let h' : j < length file =
            omega (arith, length-run_threads f thread_count thread_count 0 file) in
          let (t, ht, from, before) = tiled.owned j h' in
          run_threads-owned f thread_count (length file) tiled thread_count 0 file t j refl
            (omega arith) (omega arith) (omega arith) (from, before)
          ∙ sym (get_or-xor_cipher key key_length j file h')
    where
      f : ℕ → DataFragment
      f = fragment_of key key_length (length file) thread_count

      tiled : Tiled f thread_count (length file)
      tiled = fragment_of-Tiled key key_length (length file) thread_count small pos
