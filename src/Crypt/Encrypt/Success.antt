-- ===== src/Crypt/Encrypt/Success.antt =====
-- `handle_file_encryption` of my_encrypt.c where nothing fails: the output file holds the input file
-- under the cipher, and every other file is as it was.
use sistemas_operativos.Prelude.{ℕ, ◌^◌, ◌≤◌, ◌<◌, ◌≡◌, ◌≢◌, refl, ap, ◌∙◌, [], length}
use sistemas_operativos.Prelude.Int.{pos}
use mathlib.Core.Path.{subst}
use sistemas_operativos.Kernel.{Kernel, read_only, write_create_truncate}
use sistemas_operativos.Kernel.Quiet.{Quiet, max_rw_count}
use sistemas_operativos.Kernel.Machine.{Machine}
use sistemas_operativos.Crypt.Cipher.{xor_cipher}
use sistemas_operativos.Crypt.Encrypt.{Files, handle_file_encryption}
use sistemas_operativos.Crypt.Encrypt.Cleanup.{Ends, Ends-weaken}
use sistemas_operativos.Crypt.Encrypt.Served.{happly, Encrypted, InModes, read_key-Encrypted}

module _ (K : Kernel) (quiet : Quiet K) where
  open K use {World, FilePath}
  open quiet use {content, path_of}

  -- If the kernel serves every request, the output file is neither the input nor the key file, the
  -- key and the input are not empty and have at most MAX_RW_COUNT bytes, and the number of threads
  -- is a positive int: the call returns the length of the input, holds what it held, and the output
  -- file is the input under the cipher. No other file changes.
  pub handle_file_encryption-Encrypted :
      (input output key : FilePath) (n : ℕ) (s : Machine World)
      → n < 2 ^ 31
      → 0 < n
      → input ≢ output
      → key ≢ output
      → 0 < length (content s.world key)
      → length (content s.world key) ≤ max_rw_count
      → 0 < length (content s.world input)
      → length (content s.world input) ≤ max_rw_count
      → Ends
          (Encrypted K quiet
            (content s.world key)
            (content s.world input)
            output
            s.held
            (content s.world))
          (handle_file_encryption K input output key (pos n) s)
  unfolding handle_file_encryption
  handle_file_encryption-Encrypted input output key n s small pos_n io ko sk fk sf ff =
      rw (quiet.open_read, quiet.open_write, quiet.open_read)
        (Ends-weaken
          {P = Encrypted K quiet (content s.world key) (content s.world input)
            (path_of files.output) s.held (content w₃)}
          {Q = Encrypted K quiet (content s.world key) (content s.world input) output s.held
            (content s.world)}
          (λ r t e. record {
            count = e.count;
            released = e.released;
            encrypted =
                subst
                  (λ p.
                    content t.world p
                    ≡ xor_cipher (content s.world key) (length (content s.world key))
                        (content s.world input))
                  (quiet.path_of-open_file output write_create_truncate w₁) e.encrypted;
            others = λ q ne.
                e.others q (rw (quiet.path_of-open_file output write_create_truncate w₁) ne)
                ∙ kept q ne;
          })
          _
          (read_key-Encrypted K quiet files modes s.held (content s.world key)
            (content s.world input) n small pos_n (content w₃) truncated w₃
            (ap (content w₃) (quiet.path_of-open_file key read_only w₂) ∙ kept key ko)
            (ap (content w₃) (quiet.path_of-open_file input read_only s.world) ∙ kept input io) sk
            fk sf ff refl))
    where
      w₁ : World
      w₁ = (K.filp_open input read_only s.world).1

      w₂ : World
      w₂ = (K.filp_open output write_create_truncate w₁).1

      w₃ : World
      w₃ = (K.filp_open key read_only w₂).1

      files : Files K
      files = record {
        input = quiet.open_file input read_only s.world;
        output = quiet.open_file output write_create_truncate w₁;
        key = quiet.open_file key read_only w₂;
      }

      modes : InModes K quiet files
      modes = record {
        input_mode = quiet.mode_of-open_file input read_only s.world;
        output_mode = quiet.mode_of-open_file output write_create_truncate w₁;
        key_mode = quiet.mode_of-open_file key read_only w₂;
      }

      truncated : content w₃ (path_of files.output) ≡ []
      truncated =
          ap (content w₃) (quiet.path_of-open_file output write_create_truncate w₁)
          ∙ happly K quiet (quiet.content-open_read key w₂) output
          ∙ quiet.content-truncate output w₁

      kept : (q : FilePath) → q ≢ output → content w₃ q ≡ content s.world q
      kept q ne =
          happly K quiet (quiet.content-open_read key w₂) q
          ∙ quiet.content-open_write output q w₁ ne
          ∙ happly K quiet (quiet.content-open_read input s.world) q
