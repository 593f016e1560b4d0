-- ===== src/Crypt/Encrypt/Outcome.antt =====
-- `handle_file_encryption` of my_encrypt.c from the opening of its files: what it gives back, what
-- it leaves open, and what it writes.
use sistemas_operativos.Prelude.{ℕ, ◌^◌, ◌<◌, ◌≡◌, ◌⊎◌, some}
use sistemas_operativos.Prelude.Int.{ℤ, pos}
use sistemas_operativos.Kernel.{Kernel, Result, ok, err, read_only, write_create_truncate}
use sistemas_operativos.Kernel.Errno.{minus_enomem, to_int}
use sistemas_operativos.Kernel.Machine.{Machine, output_file, key_file}
use sistemas_operativos.Crypt.Encrypt.{hold_file, handle_file_encryption}
use sistemas_operativos.Crypt.Encrypt.Cleanup.{EndsUnless, Abandoned, read_key-held}

module _ (K : Kernel) (input_filepath output_filepath key_filepath : K.FilePath) where
  open K use {World, File}

  -- The three calls of `filp_open`, in the order of the source.
  abbrev pub opened_input : World → Result File × World
  opened_input w = K.filp_open input_filepath read_only w

  abbrev pub opened_output : World → Result File × World
  opened_output w = K.filp_open output_filepath write_create_truncate (opened_input w).1

  abbrev pub opened_key : World → Result File × World
  opened_key w = K.filp_open key_filepath read_only (opened_output w).1

  -- If the three files open and the number of threads is a positive int, the call ends and, unless
  -- it returns -ENOMEM, holds what it held before; or it faults, and then a thread after the first,
  -- of those asked for, could not be started in some world.
  pub handle_file_encryption-Clean :
      (n : ℕ) (s : Machine World) {input output key : File}
      → n < 2 ^ 31
      → 0 < n
      → (opened_input s.world).0 ≡ ok input
      → (opened_output s.world).0 ≡ ok output
      → (opened_key s.world).0 ≡ ok key
      → EndsUnless
          (Abandoned K n)
          (λ r s'. (r ≡ minus_enomem) ⊎ (s'.held ≡ s.held))
          (handle_file_encryption K input_filepath output_filepath key_filepath (pos n) s)
  unfolding handle_file_encryption
  handle_file_encryption-Clean n s {input} {output} {key} small pos_n ei eo ek =
      rw (ei, eo, ek)
        (read_key-held K (record { input = input; output = output; key = key }) s.held n
          (opened_key s.world).1 small pos_n)

  -- If the input file does not open, its error is returned, and the other two files stay open.
  pub handle_file_encryption-leak :
      (thread_count : ℤ) (s : Machine World) {e : ℤ}
      → (opened_input s.world).0 ≡ err e
      → handle_file_encryption K input_filepath output_filepath key_filepath thread_count s
        ≡ some (
          to_int e,
          record {
            world = (opened_key s.world).1;
            held =
                hold_file key_file
                  (opened_key s.world).0
                  (hold_file output_file (opened_output s.world).0 s.held);
          },
        )
  unfolding handle_file_encryption
  handle_file_encryption-leak thread_count s ei = rw ei
