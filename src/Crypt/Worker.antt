-- ===== src/Crypt/Worker.antt =====
-- `perform_xor_operation` of my_encrypt.c: the body of one thread, run alone.
use sistemas_operativos.Prelude.{
  ℕ, zero, suc, ◌+◌, ◌-◌, ◌%◌, ◌≤◌, ◌≡◌, refl, ◌∙◌, List, bit_xor, arith, ltb, leb, ◌&&◌,
  if◌then◌else◌, get_or, set, length, length-set, get_or-set_self, get_or-set_ne,
}
use sistemas_operativos.Crypt.Fragment.{DataFragment}

-- `buffer[i] ^ encryption_key[i % key_length]`
unfoldable pub xor_at : DataFragment → ℕ → ℕ → ℕ
xor_at f i byte = bit_xor byte (get_or f.encryption_key (i % f.key_length) 0)

-- The rounds of the `for` that are left, from index `i`.
unfoldable pub xor_loop : DataFragment → ℕ → ℕ → List ℕ → List ℕ
xor_loop f zero i buffer = buffer
xor_loop f (suc rounds) i buffer =
    xor_loop f rounds (i + 1) (set buffer i (xor_at f i (get_or buffer i 0)))

-- The shared buffer after the whole loop.
unfoldable pub perform_xor_operation : DataFragment → List ℕ → List ℕ
unfolding xor_loop
perform_xor_operation f buffer = xor_loop f (f.end_idx - f.start_idx) f.start_idx buffer

-- One thread changes the bytes of its own fragment and no other.
module _ (f : DataFragment) where
  abbrev expected : ℕ → ℕ → ℕ → List ℕ → ℕ
  expected lo hi j buffer =
      if leb lo j && ltb j hi then xor_at f j (get_or buffer j 0) else get_or buffer j 0

  length-xor_loop :
      (rounds i : ℕ) (buffer : List ℕ) → length (xor_loop f rounds i buffer) ≡ length buffer
  unfolding xor_loop
  length-xor_loop zero i buffer = refl
  length-xor_loop (suc rounds) i buffer =
      length-xor_loop rounds (i + 1) _ ∙ length-set buffer i (xor_at f i (get_or buffer i 0))

  get_or-xor_loop :
      (rounds i : ℕ) (buffer : List ℕ)
      → i + rounds ≤ length buffer
      → (j : ℕ) → get_or (xor_loop f rounds i buffer) j 0 ≡ expected i (i + rounds) j buffer
  unfolding xor_loop
  get_or-xor_loop zero i buffer h j = ground arith
  get_or-xor_loop (suc rounds) i buffer h j = ground (
    arith,
    get_or-xor_loop rounds (i + 1) (set buffer i (xor_at f i (get_or buffer i 0)))
        (omega (arith, length-set buffer i (xor_at f i (get_or buffer i 0)))) j,
    get_or-set_self buffer i (xor_at f i (get_or buffer i 0)) 0 (omega arith),
    get_or-set_ne buffer i j (xor_at f i (get_or buffer i 0)) 0,
  )

  pub length-perform_xor_operation :
      (buffer : List ℕ) → length (perform_xor_operation f buffer) ≡ length buffer
  unfolding perform_xor_operation
  length-perform_xor_operation = length-xor_loop (f.end_idx - f.start_idx) f.start_idx

  -- If the fragment lies in the buffer, the bytes of the fragment go through the exclusive or, and
  -- all the others stay.
  pub get_or-perform_xor_operation :
      (buffer : List ℕ)
      → f.start_idx ≤ f.end_idx
      → f.end_idx ≤ length buffer
      → (j : ℕ)
      → get_or (perform_xor_operation f buffer) j 0 ≡ (
          if leb f.start_idx j && ltb j f.end_idx
          then xor_at f j (get_or buffer j 0)
          else get_or buffer j 0)
  unfolding perform_xor_operation
  get_or-perform_xor_operation buffer ordered inside j =
      ground (arith, get_or-xor_loop (f.end_idx - f.start_idx) f.start_idx buffer (omega arith) j)
