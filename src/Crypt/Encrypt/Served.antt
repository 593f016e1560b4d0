-- ===== src/Crypt/Encrypt/Served.antt =====
-- `handle_file_encryption` of my_encrypt.c from its last step back to the first, where nothing fails
-- and the three files are open.
use sistemas_operativos.Prelude.{
  ℕ, zero, suc, ◌+◌, ◌%◌, ◌^◌, ◌≤◌, ◌<◌, ◌≡◌, ◌≢◌, refl, ap, ◌∙◌, some, List, [], ◌∷◌, ◌++◌, drop,
  arith, length, ◌==◌, false,
}
use sistemas_operativos.Prelude.Int.{ℤ, pos, ltb_ℤ}
use mathlib.Core.Path.{subst}
use mathlib.Core.List.{append-nil}
use native.Mathlib.Nat.{mod-eq_of_lt}
use sistemas_operativos.Kernel.{Kernel, read_only, write_create_truncate}
use sistemas_operativos.Kernel.Quiet.{Quiet, max_rw_count}
use sistemas_operativos.Kernel.Errno.{to_int}
use sistemas_operativos.Kernel.Machine.{Machine, Resource, ◌>>=◌, encryption_key}
use sistemas_operativos.Crypt.Fragment.{size_t}
use sistemas_operativos.Crypt.Cipher.{xor_cipher, length-xor_cipher}
use sistemas_operativos.Crypt.Encrypt.{
  created, Files, create_threads, wait_and_write, encrypt_and_write, allocate_lists,
  fill_file_buffer, read_input, fill_encryption_key, read_key,
}
use sistemas_operativos.Crypt.Encrypt.Cleanup.{Ends, with_files, with_buffers, with_lists}
use sistemas_operativos.Crypt.Encrypt.Threaded.{run_threads-xor_cipher}

module _ (K : Kernel) (quiet : Quiet K) where
  open K use {World, FilePath}
  open quiet use {content, path_of, mode_of}

  pub happly : {f g : FilePath → List ℕ} → f ≡ g → (p : FilePath) → f p ≡ g p
  happly e p = ap (λ k. k p) e

  -- Every thread is started.
  create_threads-all :
      (rounds i : ℕ) (s : Machine World)
      → (w : World) × (create_threads K rounds i s ≡ some (created, record s { world = w }))
        × (content w ≡ content s.world)
  unfolding create_threads
  create_threads-all zero i s = (s.world, refl, refl)
  create_threads-all (suc rounds) i s =
      let (w, q, same) =
        create_threads-all rounds (i + 1) (record s { world = (K.kthread_run i s.world).1 }) in
      (w, rw (quiet.run, q) refl, same ∙ quiet.content-run i s.world)

  -- The result of a run that succeeds.
  pub record Encrypted (key file : List ℕ) (output : FilePath) (h : List Resource)
      (before : FilePath → List ℕ) (r : ℤ) (s : Machine World) : Type 0 where
    pub count : r ≡ pos (length file)
    pub released : s.held ≡ h
    pub encrypted : content s.world output ≡ xor_cipher key (length key) file
    pub others : (q : FilePath) → q ≢ output → content s.world q ≡ before q

  to_int-pos : (n : ℕ) → n ≤ max_rw_count → to_int (pos n) ≡ pos n
  to_int-pos n h = ground (arith, mod-eq_of_lt {n = n} {m = 2 ^ 32})

  -- What is written to an empty file is the file.
  append_empty : (b rest : List ℕ) → rest ≡ [] → b ++ drop (length b) rest ≡ b
  append_empty b rest e =
      ap (λ r. b ++ drop (length b) r) e ∙ ap (λ r. b ++ r) (gone (length b)) ∙ append-nil b
    where
      gone : (n : ℕ) → drop {A = ℕ} n [] ≡ []
      gone zero = refl
      gone (suc n) = refl

  -- The three files are open in the modes of the source.
  pub record InModes (files : Files K) : Type 0 where
    pub input_mode : mode_of files.input ≡ read_only
    pub output_mode : mode_of files.output ≡ write_create_truncate
    pub key_mode : mode_of files.key ≡ read_only

  module _ (files : Files K) (modes : InModes files) (h : List Resource) (key file : List ℕ)
      (n : ℕ) where
    abbrev output_path : FilePath
    output_path = path_of files.output

    wrote :
        (w : World)
        → length file ≤ max_rw_count
        → content w output_path ≡ []
        → let c = xor_cipher key (length key) file in
          ((K.kernel_write files.output c (length file) w).0 ≡ pos (length file))
          × (content (K.kernel_write files.output c (length file) w).1 output_path ≡ c)
    wrote w fits empty =
        let c = xor_cipher key (length key) file in
        let same = length-xor_cipher key (length key) file in
        let written = quiet.write files.output c w modes.output_mode (omega (arith, same)) in
        subst
          (λ m.
            ((K.kernel_write files.output c m w).0 ≡ pos m)
            × (content (K.kernel_write files.output c m w).1 output_path ≡ c))
          same (written.0, written.1 ∙ append_empty c _ empty)

    content-close_all :
        (w : World)
        → content (K.filp_close files.input (K.filp_close files.output (K.filp_close files.key w)))
          ≡ content w
    content-close_all w =
        quiet.content-close files.input _
        ∙ quiet.content-close files.output _
        ∙ quiet.content-close files.key w

    module _ (small : n < 2 ^ 31) (pos_n : 0 < n) (before : FilePath → List ℕ)
        (empty : before output_path ≡ []) where
      encrypt_and_write-Encrypted :
          (w : World)
          → length file ≤ max_rw_count
          → content w ≡ before
          → Ends (Encrypted key file output_path h before) (
              encrypt_and_write K files key
                (length key)
                (length file)
                file
                (pos n)
                (record { world = w; held = with_lists K files h }))
      unfolding encrypt_and_write wait_and_write
      encrypt_and_write-Encrypted w fits b =
          let (w', q, same) =
            create_threads-all n 0 (record { world = w; held = with_lists K files h }) in
          let (count, bytes) = wrote w' fits (happly (same ∙ b) output_path ∙ empty) in
          rw
            (
              q,
              ◌>>=◌,
              wait_and_write,
              mod-eq_of_lt {n = n} {m = 2 ^ 64} (omega arith),
              run_threads-xor_cipher key file (length key) n (omega arith) pos_n,
            )
            (record {
              count = ap to_int count ∙ to_int-pos (length file) fits;
              released = refl;
              encrypted = happly (content-close_all _) output_path ∙ bytes;
              others = λ p ne.
                  happly (content-close_all _) p
                  ∙ quiet.content-write files.output _ (length file) p w' ne
                  ∙ happly (same ∙ b) p;
            })

      -- The lists are allocated, and the rest is done.
      allocate_lists-Encrypted :
          (w : World)
          → length file ≤ max_rw_count
          → content w ≡ before
          → Ends (Encrypted key file output_path h before) (
              allocate_lists K files key
                (length key)
                (length file)
                file
                (pos n)
                (record { world = w; held = with_buffers K files h }))
      unfolding allocate_lists
      allocate_lists-Encrypted w fits b =
          let some_thread : (n % 2 ^ 64 == 0) ≡ false = ground arith in
          rw (quiet.alloc, quiet.alloc, quiet.alloc, some_thread)
            (encrypt_and_write-Encrypted _ fits
              (quiet.content-alloc _ _ ∙ quiet.content-alloc _ _ ∙ quiet.content-alloc _ w ∙ b))

      -- A file is read whole.
      size_lem :
          (f : K.File) (bytes : List ℕ) (w : World)
          → content w (path_of f) ≡ bytes
          → length bytes ≤ max_rw_count
          → size_t (K.i_size_read f w) ≡ length bytes
      size_lem f bytes w e fits =
          rw (quiet.size, e) (mod-eq_of_lt {n = length bytes} {m = 2 ^ 64} (omega arith))

      read_lem :
          (f : K.File) (bytes block : List ℕ) (w : World)
          → mode_of f ≡ read_only
          → content w (path_of f) ≡ bytes
          → length bytes ≤ max_rw_count
          → (K.kernel_read f block (length bytes) w).0 ≡ (pos (length bytes), bytes)
      read_lem f bytes block w mode e fits =
          subst (λ b. (K.kernel_read f block (length b) w).0 ≡ (pos (length b), b)) e
            (quiet.read f block w mode (rw e fits))

      read_input-Encrypted :
          (w : World)
          → content w (path_of files.input) ≡ file
          → 0 < length file
          → length file ≤ max_rw_count
          → content w ≡ before
          → Ends (Encrypted key file output_path h before) (
              read_input K files key
                (length key)
                (pos n)
                (record { world = w; held = encryption_key ∷ with_files K files h }))
      unfolding read_input fill_file_buffer
      read_input-Encrypted w e some_byte fits b =
          let not_empty : (length file == 0) ≡ false = ground arith in
          let sound : ltb_ℤ (to_int (pos (length file))) (pos 0) ≡ false =
            rw (to_int-pos (length file) fits) (ground arith) in
          rw
            (
              size_lem files.input file w e fits,
              not_empty,
              quiet.alloc,
              read_lem files.input file _ _ modes.input_mode
                  (happly (quiet.content-alloc _ w) _ ∙ e) fits,
              sound,
            )
            (allocate_lists-Encrypted _ fits
              (quiet.content-read _ _ _ _ ∙ quiet.content-alloc _ w ∙ b))

      pub read_key-Encrypted :
          (w : World)
          → content w (path_of files.key) ≡ key
          → content w (path_of files.input) ≡ file
          → 0 < length key
          → length key ≤ max_rw_count
          → 0 < length file
          → length file ≤ max_rw_count
          → content w ≡ before
          → Ends
              (Encrypted key file output_path h before)
              (read_key K files (pos n) (record { world = w; held = with_files K files h }))
      unfolding read_key fill_encryption_key
      read_key-Encrypted w ek e some_key key_fits some_byte fits b =
          let not_empty : (length key == 0) ≡ false = ground arith in
          let sound : ltb_ℤ (to_int (pos (length key))) (pos 0) ≡ false =
            rw (to_int-pos (length key) key_fits) (ground arith) in
          let same =
            quiet.content-read files.key (quiet.block (length key) w) (length key)
              (K.kmalloc (length key) w).1
            ∙ quiet.content-alloc (length key) w in
          rw
            (
              size_lem files.key key w ek key_fits,
              not_empty,
              quiet.alloc,
              read_lem files.key key _ _ modes.key_mode (happly (quiet.content-alloc _ w) _ ∙ ek)
                  key_fits,
              sound,
            )
            (read_input-Encrypted _ (happly same _ ∙ e) some_byte fits (same ∙ b))
