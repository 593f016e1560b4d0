-- ===== src/Crypt/Threads/Result.antt =====
-- What the buffer holds when `handle_file_encryption` has waited for its threads.
use sistemas_operativos.Prelude.{ℕ, ◌^◌, ◌<◌, ◌≡◌, sym, ◌∙◌, List, arith, length, get_or, list_ext}
use mathlib.Core.Path.{subst}
use sistemas_operativos.Crypt.Fragment.{DataFragment, fragment_of}
use sistemas_operativos.Crypt.Worker.{xor_at}
use sistemas_operativos.Crypt.Cipher.{xor_cipher, length-xor_cipher, get_or-xor_cipher}
use sistemas_operativos.Crypt.Threads.{System, joined, Reach}
use sistemas_operativos.Crypt.Threads.Tiling.{Tiled, fragment_of-Tiled}
use sistemas_operativos.Crypt.Threads.Invariant.{Work, Inv, Reach-Inv, Control}

module _ (f : ℕ → DataFragment) (thread_count : ℕ) (file : List ℕ) where
  -- Every byte has been through its thread.
  joined-byte :
      {s : System}
      → Tiled f thread_count (length file)
      → Inv f thread_count file s
      → s.main ≡ joined
      → (j : ℕ) → j < length file
      → (t : ℕ) × (get_or s.buffer j 0 ≡ xor_at (f t) j (get_or file j 0))
  joined-byte {s} tiled inv e j h =
      let (t, ht, from, before) = tiled.owned j h in
      let over = subst (λ m. Control thread_count m s.pc) e inv.control t ht in
      let w = subst (Work (f t) file s.buffer) over (inv.work t ht) in (t, w.done j from before)

module _ (key file : List ℕ) (key_length thread_count : ℕ) where
  -- However the threads are interleaved, once all of them have been waited for the buffer is the
  -- file under the cipher.
  pub joined-xor_cipher :
      {s : System}
      → length file < 2 ^ 64
      → 0 < thread_count
      → Reach (fragment_of key key_length (length file) thread_count) thread_count file s
      → s.main ≡ joined
      → s.buffer ≡ xor_cipher key key_length file
  unfolding fragment_of xor_at
  joined-xor_cipher {s} small pos r e =
      list_ext 0 s.buffer (xor_cipher key key_length file)
        (inv.size ∙ sym (length-xor_cipher key key_length file))
        λ j h.
          let h' : j < length file = omega (arith, inv.size) in
          (joined-byte f thread_count file tiled inv e j h').1
          ∙ sym (get_or-xor_cipher key key_length j file h')
    where
      f : ℕ → DataFragment
      f = fragment_of key key_length (length file) thread_count

      tiled : Tiled f thread_count (length file)
      tiled = fragment_of-Tiled key key_length (length file) thread_count small pos

      inv : Inv f thread_count file s
      inv = Reach-Inv f thread_count file tiled r
