-- ===== src/Crypt/Decrypt/RoundTrip.antt =====
-- A file that is encrypted and then decrypted with the same key is the file again, whatever the
-- numbers of threads.
use sistemas_operativos.Prelude.{
  ℕ, ◌^◌, ◌≤◌, ◌<◌, ◌≡◌, ◌≢◌, ◌∙◌, Option, none, some, List, length, ap, arith,
}
use sistemas_operativos.Prelude.Int.{ℤ, pos}
use sistemas_operativos.Kernel.{Kernel}
use sistemas_operativos.Kernel.Quiet.{Quiet, max_rw_count}
use sistemas_operativos.Kernel.Machine.{Machine, M, ◌>>=◌}
use sistemas_operativos.Crypt.Cipher.{xor_cipher, xor_cipher-cancel, length-xor_cipher}
use sistemas_operativos.Crypt.Encrypt.{handle_file_encryption}
use sistemas_operativos.Crypt.Encrypt.Cleanup.{Ends, Ends-weaken}
use sistemas_operativos.Crypt.Encrypt.Served.{Encrypted}
use sistemas_operativos.Crypt.Encrypt.Success.{handle_file_encryption-Encrypted}
use sistemas_operativos.Crypt.Decrypt.{decrypt_file_process}
use sistemas_operativos.Crypt.Decrypt.Equivalence.{decrypt_file_process-handle_file_encryption}

module _ (K : Kernel) (plain coded decoded key : K.FilePath) where
  open K use {World}

  -- `ecrypt_app` and then `dencrypt_app`, on the same key file.
  unfoldable pub encrypt_then_decrypt : ℕ → ℕ → M World ℤ
  encrypt_then_decrypt m n = do
    handle_file_encryption K plain coded key (pos m) >>= λ _.
        decrypt_file_process K coded decoded key (pos n)

module _ (K : Kernel) (quiet : Quiet K) (plain coded decoded key : K.FilePath) where
  open K use {World}
  open quiet use {content}

  Ends-bind :
      (P Q : ℤ → Machine World → Type 0) (g : M World ℤ) (o : Option (ℤ × Machine World))
      → Ends P o
      → ((r : ℤ) (t : Machine World) → P r t → Ends Q (g t))
      → Ends Q (elim o [ none ↦ none | some (r, t) ↦ g t ])
  Ends-bind P Q g none e k = e
  Ends-bind P Q g (some (r, t)) e k = k r t e

  module _ (s : Machine World) (m n : ℕ) where
    abbrev key_bytes : List ℕ
    key_bytes = content s.world key

    abbrev plain_bytes : List ℕ
    plain_bytes = content s.world plain

    abbrev Restored : ℤ → Machine World → Type 0
    Restored r t = (content t.world decoded ≡ plain_bytes) × (t.held ≡ s.held)

    -- The second call, from what the first one leaves.
    decrypt-Restored :
        (r : ℤ) (t : Machine World)
        → n < 2 ^ 31
        → 0 < n
        → key ≢ decoded
        → coded ≢ decoded
        → 0 < length key_bytes
        → length key_bytes ≤ max_rw_count
        → 0 < length plain_bytes
        → length plain_bytes ≤ max_rw_count
        → content t.world key ≡ key_bytes
        → content t.world coded ≡ xor_cipher key_bytes (length key_bytes) plain_bytes
        → t.held ≡ s.held
        → Ends Restored (decrypt_file_process K coded decoded key (pos n) t)
    decrypt-Restored r t sn pn kd cd sk fk sf ff ek ec eh =
        let size = ap length ec ∙ length-xor_cipher key_bytes (length key_bytes) plain_bytes in
        rw (decrypt_file_process-handle_file_encryption K coded decoded key (pos n) t) (
          Ends-weaken
            {P = Encrypted K quiet (content t.world key) (content t.world coded) decoded t.held
              (content t.world)}
            {Q = Restored}
            (λ r' t' e. (
              e.encrypted
                  ∙ ap (λ k. xor_cipher k (length k) (content t.world coded)) ek
                  ∙ ap (xor_cipher key_bytes (length key_bytes)) ec
                  ∙ xor_cipher-cancel key_bytes (length key_bytes) plain_bytes,
              e.released ∙ eh,
            ))
            (handle_file_encryption K coded decoded key (pos n) t)
            (handle_file_encryption-Encrypted K quiet coded decoded key n t sn pn cd kd (rw ek sk)
              (rw ek fk) (omega arith) (omega arith)))

    -- If the kernel serves every request, neither the coded nor the decoded file is the key file,
    -- the coded file is neither of the other two, the key and the plain file are not empty and have
    -- at most MAX_RW_COUNT bytes, and both numbers of threads are positive ints: after the encryption
    -- and the decryption the decoded file holds the bytes of the plain one.
    pub encrypt_then_decrypt-roundtrip :
        m < 2 ^ 31
        → 0 < m
        → n < 2 ^ 31
        → 0 < n
        → plain ≢ coded
        → key ≢ coded
        → key ≢ decoded
        → coded ≢ decoded
        → 0 < length key_bytes
        → length key_bytes ≤ max_rw_count
        → 0 < length plain_bytes
        → length plain_bytes ≤ max_rw_count
        → Ends Restored (encrypt_then_decrypt K plain coded decoded key m n s)
    unfolding encrypt_then_decrypt
    encrypt_then_decrypt-roundtrip sm pm sn pn pc kc kd cd sk fk sf ff =
        Ends-bind (Encrypted K quiet key_bytes plain_bytes coded s.held (content s.world)) Restored
          (decrypt_file_process K coded decoded key (pos n))
          (handle_file_encryption K plain coded key (pos m) s)
          (handle_file_encryption-Encrypted K quiet plain coded key m s sm pm pc kc sk fk sf ff)
          λ r t e.
            decrypt-Restored r t sn pn kd cd sk fk sf ff (e.others key kc) e.encrypted e.released
