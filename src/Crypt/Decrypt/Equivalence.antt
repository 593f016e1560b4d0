-- ===== src/Crypt/Decrypt/Equivalence.antt =====
-- my_decrypt.c does what my_encrypt.c does, on every input and every answer of the kernel.
use sistemas_operativos.Prelude.{
  ℕ, zero, suc, ◌+◌, ◌-◌, ◌≡◌, refl, ◌∙◌, Option, none, some, List, ap, Option-cases, inl, inr,
  Bool-cases, ◌==◌,
}
use mathlib.Core.Path.{fun_ext}
use sistemas_operativos.Prelude.Int.{ℤ, pos, pos_part, ltb_ℤ}
use sistemas_operativos.Kernel.{Kernel, Result, ok, err}
use sistemas_operativos.Kernel.Errno.{size_of_int, to_int}
use sistemas_operativos.Kernel.Machine.{Machine, ◌>>=◌, call}
use sistemas_operativos.Crypt.Fragment.{DataFragment, fragment_of, size_t}
use sistemas_operativos.Crypt.Worker.{xor_at, xor_loop, perform_xor_operation}
use sistemas_operativos.Crypt.Encrypt.{
  Creation, created, failed, Files, free_all_resources, run_threads, create_threads, wait_and_write,
  encrypt_and_write, check_lists, allocate_lists, fill_file_buffer, read_input, fill_encryption_key,
  read_key, check_files, handle_file_encryption, check_paths, my_encrypt,
}
use sistemas_operativos.Crypt.Decrypt.{
  DataChunk, chunk_of, decrypt_at, decrypt_loop, xor_decrypt_worker, run_workers, create_workers,
  close_outfile, close_keyfile, free_key, free_data, join_and_write, decrypt_and_write,
  check_chunks, allocate_chunks, fill_data, read_data, fill_key, read_keyfile, check_opened,
  decrypt_file_process, check_copies, my_decrypt,
}

abbrev fragment : DataChunk → DataFragment
fragment c = record {
  data_size = c.size;
  encryption_key = c.key;
  key_length = c.key_size;
  start_idx = c.begin;
  end_idx = c.end;
}

decrypt_loop-xor_loop :
    (c : DataChunk) (rounds i : ℕ) (buffer : List ℕ)
    → decrypt_loop c rounds i buffer ≡ xor_loop (fragment c) rounds i buffer
unfolding decrypt_loop xor_loop decrypt_at xor_at
decrypt_loop-xor_loop c zero i buffer = refl
decrypt_loop-xor_loop c (suc rounds) i buffer = decrypt_loop-xor_loop c rounds (i + 1) _

-- The two workers change the shared buffer alike.
pub xor_decrypt_worker-perform_xor_operation :
    (c : DataChunk) (buffer : List ℕ)
    → xor_decrypt_worker c buffer ≡ perform_xor_operation (fragment c) buffer
unfolding xor_decrypt_worker perform_xor_operation
xor_decrypt_worker-perform_xor_operation c buffer =
    decrypt_loop-xor_loop c (c.end - c.begin) c.begin buffer

run_workers-run_threads :
    (key : List ℕ) (key_size size n rounds i : ℕ) (buffer : List ℕ)
    → run_workers (chunk_of key key_size size n) rounds i buffer
      ≡ run_threads (fragment_of key key_size size n) rounds i buffer
unfolding run_workers run_threads
run_workers-run_threads key key_size size n zero i buffer = refl
run_workers-run_threads key key_size size n (suc rounds) i buffer =
    run_workers-run_threads key key_size size n rounds (i + 1) _
    ∙ ap (run_threads (fragment_of key key_size size n) rounds (i + 1)) same
  where
    same :
        xor_decrypt_worker (chunk_of key key_size size n i) buffer
        ≡ perform_xor_operation (fragment_of key key_size size n i) buffer
    same = unfold chunk_of fragment_of in xor_decrypt_worker-perform_xor_operation _ buffer

module _ (K : Kernel) where
  open K use {World}

  create_workers-create_threads_at :
      (rounds i : ℕ) (s : Machine World) → create_workers K rounds i s ≡ create_threads K rounds i s
  unfolding create_workers create_threads
  create_workers-create_threads_at zero i s = refl
  create_workers-create_threads_at (suc rounds) i s =
      elim (Option-cases (K.kthread_run i s.world).0) [
        | inl e ↦
            rw (e, ◌>>=◌)
              (create_workers-create_threads_at rounds (i + 1)
                (record s { world = (K.kthread_run i s.world).1 }))
        | inr (failure, e) ↦ rw (e, ◌>>=◌)
      ]

  create_workers-create_threads :
      (rounds i : ℕ) → create_workers K rounds i ≡ create_threads K rounds i
  create_workers-create_threads rounds i = fun_ext λ s. create_workers-create_threads_at rounds i s

  module _ (files : Files K) (key : List ℕ) (key_size size : ℕ) (n : ℤ) (s : Machine World) where
    join_and_write-wait_and_write :
        (buffer : List ℕ) (c : Creation) (t : Machine World)
        → join_and_write K files
            (chunk_of key key_size size (size_of_int n))
            (pos_part n)
            size
            buffer
            c
            t
          ≡ wait_and_write K files
              (fragment_of key key_size size (size_of_int n))
              (pos_part n)
              size
              buffer
              c
              t
    unfolding join_and_write wait_and_write
    join_and_write-wait_and_write buffer (failed zero e) t = refl
    join_and_write-wait_and_write buffer (failed (suc others) e) t = refl
    join_and_write-wait_and_write buffer created t =
        ap
          (λ (b : List ℕ).
            (call (K.kernel_write files.output b size) >>= λ written.
            free_all_resources K files (to_int written))
              t)
          (run_workers-run_threads key key_size size (size_of_int n) (pos_part n) 0 buffer)

    decrypt_and_write-encrypt_and_write :
        (buffer : List ℕ)
        → decrypt_and_write K files key key_size size buffer n s
          ≡ encrypt_and_write K files key key_size size buffer n s
    unfolding decrypt_and_write encrypt_and_write
    decrypt_and_write-encrypt_and_write buffer =
        rw create_workers-create_threads (elim (Option-cases (create_threads K (pos_part n) 0 s)) [
          | inl e ↦ rw (e, ◌>>=◌)
          | inr ((c, s'), e) ↦ rw (e, ◌>>=◌) (join_and_write-wait_and_write buffer c s')
        ])

    check_chunks-check_lists :
        (buffer : List ℕ) (a b c : Option (List ℕ))
        → check_chunks K files key key_size size buffer n a b c s
          ≡ check_lists K files key key_size size buffer n a b c s
    unfolding check_chunks check_lists
    check_chunks-check_lists buffer (some a) (some b) (some c) =
        elim (Bool-cases (size_of_int n == 0)) [
          | inl e ↦ rw e
          | inr e ↦ rw e (decrypt_and_write-encrypt_and_write buffer)
        ]
    check_chunks-check_lists buffer none b c = refl
    check_chunks-check_lists buffer (some a) none c = refl
    check_chunks-check_lists buffer (some a) (some b) none = refl

  fill_data-fill_file_buffer :
      (files : Files K) (key : List ℕ) (key_size size : ℕ) (n : ℤ) (block : Option (List ℕ))
      (s : Machine World)
      → fill_data K files key key_size size n block s
        ≡ fill_file_buffer K files key key_size size n block s
  unfolding fill_data fill_file_buffer allocate_chunks allocate_lists free_data
  fill_data-fill_file_buffer files key key_size size n none s = refl
  fill_data-fill_file_buffer files key key_size size n (some fresh) s =
      elim (Bool-cases
        (ltb_ℤ (to_int (K.kernel_read files.input fresh size s.world).0.0) (pos 0))) [
          | inl bad ↦ rw bad
          | inr good ↦ rw good (check_chunks-check_lists files key key_size size n _ _ _ _ _)
        ]

  read_data-read_input :
      (files : Files K) (key : List ℕ) (key_size : ℕ) (n : ℤ) (s : Machine World)
      → read_data K files key key_size n s ≡ read_input K files key key_size n s
  unfolding read_data read_input free_key
  read_data-read_input files key key_size n s =
      elim (Bool-cases (size_t (K.i_size_read files.input s.world) == 0)) [
        | inl empty ↦ rw empty
        | inr full ↦ rw full (fill_data-fill_file_buffer files key key_size _ n _ _)
      ]

  fill_key-fill_encryption_key :
      (files : Files K) (key_size : ℕ) (n : ℤ) (block : Option (List ℕ)) (s : Machine World)
      → fill_key K files key_size n block s ≡ fill_encryption_key K files key_size n block s
  unfolding fill_key fill_encryption_key close_keyfile free_key
  fill_key-fill_encryption_key files key_size n none s = refl
  fill_key-fill_encryption_key files key_size n (some fresh) s =
      elim (Bool-cases
        (ltb_ℤ (to_int (K.kernel_read files.key fresh key_size s.world).0.0) (pos 0))) [
          | inl bad ↦ rw bad
          | inr good ↦ rw good (read_data-read_input files _ key_size n _)
        ]

  read_keyfile-read_key :
      (files : Files K) (n : ℤ) (s : Machine World)
      → read_keyfile K files n s ≡ read_key K files n s
  unfolding read_keyfile read_key close_keyfile
  read_keyfile-read_key files n s =
      elim (Bool-cases (size_t (K.i_size_read files.key s.world) == 0)) [
        | inl empty ↦ rw empty
        | inr full ↦ rw full (fill_key-fill_encryption_key files _ n _ _)
      ]

  check_opened-check_files :
      (input output key : Result K.File) (n : ℤ) (s : Machine World)
      → check_opened K input output key n s ≡ check_files K input output key n s
  unfolding check_opened check_files close_outfile
  check_opened-check_files (err e) output key n s = refl
  check_opened-check_files (ok i) (err e) key n s = refl
  check_opened-check_files (ok i) (ok o) (err e) n s = refl
  check_opened-check_files (ok i) (ok o) (ok k) n s = read_keyfile-read_key _ n s

  -- On every input, in every world and for every number of threads, the two handlers return the
  -- same result and leave the same world and the same resources held.
  pub decrypt_file_process-handle_file_encryption :
      (input output key : K.FilePath) (n : ℤ) (s : Machine World)
      → decrypt_file_process K input output key n s ≡ handle_file_encryption K input output key n s
  unfolding decrypt_file_process handle_file_encryption
  decrypt_file_process-handle_file_encryption input output key n s =
      check_opened-check_files _ _ _ n _

  check_copies-check_paths :
      (input output key : Result K.FilePath) (n : ℤ)
      → check_copies K input output key n ≡ check_paths K input output key n
  unfolding check_copies check_paths
  check_copies-check_paths (ok i) (ok o) (ok k) n =
      fun_ext λ s. decrypt_file_process-handle_file_encryption i o k n s
  check_copies-check_paths (err e) o k n = refl
  check_copies-check_paths (ok i) (err e) k n = refl
  check_copies-check_paths (ok i) (ok o) (err e) n = refl

  -- The two system calls are one function.
  pub my_decrypt-my_encrypt :
      (input output key : K.UserPtr) (n : ℤ) (s : Machine World)
      → my_decrypt K input output key n s ≡ my_encrypt K input output key n s
  unfolding my_decrypt my_encrypt
  my_decrypt-my_encrypt input output key n s = rw check_copies-check_paths
