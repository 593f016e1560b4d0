-- ===== src/Crypt/Cipher.antt =====
-- What the encryption promises: each byte of the file, exclusive-ored with the key repeated over
-- its length. A description of its own, which names no thread and no fragment.
use sistemas_operativos.Prelude.{
  ℕ, zero, suc, ◌+◌, ◌%◌, ◌<◌, ◌≡◌, refl, ap, List, [], ◌∷◌, bit_xor, arith, get_or, length,
}
use sistemas_operativos.Prelude.Bits.{bit_xor-cancel}
use mathlib.Core.Path.{ap₂}
use native.Mathlib.Nat.{add-zero, zero-add}

module _ (key : List ℕ) (key_length : ℕ) where
  abbrev pub key_byte : ℕ → ℕ
  key_byte i = get_or key (i % key_length) 0

  abbrev cipher_from : ℕ → List ℕ → List ℕ
  cipher_from i [] = []
  cipher_from i (b ∷ bytes) = bit_xor b (key_byte i) ∷ cipher_from (suc i) bytes

  pub xor_cipher : List ℕ → List ℕ
  xor_cipher = cipher_from 0

  length-cipher_from : (i : ℕ) (bytes : List ℕ) → length (cipher_from i bytes) ≡ length bytes
  length-cipher_from i [] = refl
  length-cipher_from i (b ∷ bytes) = ap suc (length-cipher_from (suc i) bytes)

  get_or-cipher_from :
      (i j : ℕ) (bytes : List ℕ)
      → j < length bytes
      → get_or (cipher_from i bytes) j 0 ≡ bit_xor (get_or bytes j 0) (key_byte (i + j))
  get_or-cipher_from i j [] h = elim h [ ]
  get_or-cipher_from i zero (b ∷ bytes) h = rw add-zero
  get_or-cipher_from i (suc j) (b ∷ bytes) h =
      rw (get_or-cipher_from (suc i) j bytes (omega arith), shift)
    where
      shift : suc i + j ≡ i + suc j
      shift = omega arith

  pub length-xor_cipher : (bytes : List ℕ) → length (xor_cipher bytes) ≡ length bytes
  unfolding xor_cipher
  length-xor_cipher = length-cipher_from 0

  pub get_or-xor_cipher :
      (j : ℕ) (bytes : List ℕ)
      → j < length bytes
      → get_or (xor_cipher bytes) j 0 ≡ bit_xor (get_or bytes j 0) (key_byte j)
  unfolding xor_cipher
  get_or-xor_cipher j bytes h = rw (get_or-cipher_from 0 j bytes h, zero-add)

  cipher_from-cancel : (i : ℕ) (bytes : List ℕ) → cipher_from i (cipher_from i bytes) ≡ bytes
  cipher_from-cancel i [] = refl
  cipher_from-cancel i (b ∷ bytes) =
      ap₂ ◌∷◌ (bit_xor-cancel b (key_byte i)) (cipher_from-cancel (suc i) bytes)

  -- The cipher undoes itself.
  pub xor_cipher-cancel : (bytes : List ℕ) → xor_cipher (xor_cipher bytes) ≡ bytes
  unfolding xor_cipher
  xor_cipher-cancel = cipher_from-cancel 0
