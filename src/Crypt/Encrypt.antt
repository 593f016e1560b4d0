-- ===== src/Crypt/Encrypt.antt =====
-- `handle_file_encryption` and the system call `my_encrypt` of
-- Practica2/linux-6.6.44/kernel/my_encrypt.c. Each label of the source's `goto` chain is a
-- function, which falls through to the next by a call. The calls of `printk` are left out.
pub mod Threaded
pub mod Cleanup
pub mod Outcome
pub mod Served
pub mod Success
pub mod Fault
use sistemas_operativos.Prelude.{
  ℕ, zero, suc, ◌+◌, ◌*◌, ◌/◌, ◌%◌, ◌^◌, Option, none, some, List, ◌∷◌, ◌==◌, ◌||◌, ltb,
  if◌then◌else◌, true, false, Bool,
}
use sistemas_operativos.Prelude.Int.{ℤ, pos, negsuc, pos_part, ltb_ℤ}
use sistemas_operativos.Kernel.{Kernel, Result, ok, err, OpenMode, read_only, write_create_truncate}
use sistemas_operativos.Kernel.Errno.{minus_einval, minus_enomem, minus_efault, to_int, size_of_int}
use sistemas_operativos.Kernel.Machine.{
  Resource, input_file, output_file, key_file, encryption_key, file_buffer, thread_list, task_list,
  fragment_list, k_input_filepath, k_output_filepath, k_key_filepath, Machine, M, ◌>>=◌, ◌>>◌, pure,
  oops, call, look, acquire, release,
}
use sistemas_operativos.Crypt.Fragment.{DataFragment, fragment_of, size_t}
use sistemas_operativos.Crypt.Worker.{perform_xor_operation}

-- The shared buffer after the threads from number `i` on, each run to its end in turn.
unfoldable pub run_threads : (ℕ → DataFragment) → ℕ → ℕ → List ℕ → List ℕ
run_threads f zero i buffer = buffer
run_threads f (suc rounds) i buffer =
    run_threads f rounds (i + 1) (perform_xor_operation (f i) buffer)

-- A block or a file is held if the call gave one.
abbrev pub hold : Resource → Option (List ℕ) → List Resource → List Resource
hold r none held = held
hold r (some block) held = r ∷ held

abbrev pub hold_file : {F : Type 0} → Resource → Result F → List Resource → List Resource
hold_file r (err e) held = held
hold_file r (ok file) held = r ∷ held

abbrev pub keep : {W : Type 0} → Resource → Option (List ℕ) → M W (Unit {0})
keep r block s = some (tt, record s { held = hold r block s.held })

abbrev pub keep_file : {W F : Type 0} → Resource → Result F → M W (Unit {0})
keep_file r file s = some (tt, record s { held = hold_file r file s.held })

-- How the loop of `kthread_run` ends: all threads are started, or one is not, with the number of
-- those that run already and the error.
pub data Creation : Type 0 where
  created : Creation
  failed : (started : ℕ) → ℤ → Creation

module _ (K : Kernel) where
  open K use {World, File, FilePath, UserPtr}

  pub record Files : Type 0 where
    pub input : File
    pub output : File
    pub key : File

  abbrev pub close : Resource → File → M World (Unit {0})
  close r file = do release r; call (λ w. (tt, K.filp_close file w))

  unfoldable pub close_input_file : File → ℤ → M World ℤ
  close_input_file input ret_val = do close input_file input; pure ret_val

  unfoldable pub close_output_file : File → File → ℤ → M World ℤ
  unfolding close_input_file
  close_output_file input output ret_val = do
    close output_file output
    close_input_file input ret_val

  unfoldable pub close_key_file : Files → ℤ → M World ℤ
  unfolding close_output_file
  close_key_file files ret_val = do
    close key_file files.key
    close_output_file files.input files.output ret_val

  unfoldable pub free_encryption_key : Files → ℤ → M World ℤ
  unfolding close_key_file
  free_encryption_key files ret_val = do release encryption_key; close_key_file files ret_val

  unfoldable pub free_file_buffer : Files → ℤ → M World ℤ
  unfolding free_encryption_key
  free_file_buffer files ret_val = do release file_buffer; free_encryption_key files ret_val

  unfoldable pub free_all_resources : Files → ℤ → M World ℤ
  unfolding free_file_buffer
  free_all_resources files ret_val = do
    release thread_list
    release task_list
    release fragment_list
    free_file_buffer files ret_val

  -- The loop of `kthread_run`, from thread `i` on.
  unfoldable pub create_threads : ℕ → ℕ → M World Creation
  create_threads zero i = pure created
  create_threads (suc rounds) i = call (K.kthread_run i) >>= λ e. elim e [
    | some failure ↦ pure (failed i failure)
    | none ↦ create_threads rounds (i + 1)
  ]

  -- From the end of that loop on. The waiting makes the buffer the one that all the threads leave
  -- behind, in whatever order they ran. The `goto` of a failed start does not wait: with threads that
  -- run, it frees the blocks under them.
  unfoldable pub wait_and_write : Files → (ℕ → DataFragment) → ℕ → ℕ → List ℕ → Creation → M World ℤ
  unfolding free_all_resources run_threads
  wait_and_write files fragments n file_size buffer (failed zero e) =
      free_all_resources files (to_int e)
  wait_and_write files fragments n file_size buffer (failed (suc others) e) = oops
  wait_and_write files fragments n file_size buffer created =
      call (K.kernel_write files.output (run_threads fragments n 0 buffer) file_size) >>= λ written.
      free_all_resources files (to_int written)

  -- From the loop that starts the threads to the end.
  unfoldable pub encrypt_and_write : Files → List ℕ → ℕ → ℕ → List ℕ → ℤ → M World ℤ
  unfolding create_threads wait_and_write
  encrypt_and_write files key key_length file_size buffer thread_count =
      let n = pos_part thread_count in
      let fragments = fragment_of key key_length file_size (size_of_int thread_count) in
      create_threads n 0 >>= wait_and_write files fragments n file_size buffer

  -- The test on the three lists; `file_size / thread_count` faults at zero.
  unfoldable pub check_lists :
      Files
      → List ℕ
      → ℕ
      → ℕ
      → List ℕ
      → ℤ
      → Option (List ℕ)
      → Option (List ℕ)
      → Option (List ℕ)
      → M World ℤ
  unfolding encrypt_and_write free_file_buffer
  check_lists files key key_length file_size buffer thread_count (some _) (some _) (some _) =
      if size_of_int thread_count == 0
      then oops
      else encrypt_and_write files key key_length file_size buffer thread_count
  check_lists files key key_length file_size buffer thread_count _ _ _ =
      free_file_buffer files minus_enomem

  unfoldable pub allocate_lists : Files → List ℕ → ℕ → ℕ → List ℕ → ℤ → M World ℤ
  unfolding check_lists
  allocate_lists files key key_length file_size buffer thread_count =
      let n = size_of_int thread_count in
      do
        threads ← call (K.kmalloc (size_t (8 * n)))
        keep thread_list threads
        tasks ← call (K.kmalloc (size_t ((48 + K.sizeof_completion) * n)))
        keep task_list tasks
        fragments ← call (K.kmalloc (size_t (48 * n)))
        keep fragment_list fragments
        check_lists files key key_length file_size buffer thread_count threads tasks fragments

  -- The input file is read into the new block.
  unfoldable pub fill_file_buffer : Files → List ℕ → ℕ → ℕ → ℤ → Option (List ℕ) → M World ℤ
  unfolding allocate_lists free_encryption_key
  fill_file_buffer files key key_length file_size thread_count none =
      free_encryption_key files minus_enomem
  fill_file_buffer files key key_length file_size thread_count (some fresh) = do
    acquire file_buffer
    (got, buffer) ← call (K.kernel_read files.input fresh file_size)
    if ltb_ℤ (to_int got) (pos 0)
        then free_file_buffer files (to_int got)
        else allocate_lists files key key_length file_size buffer thread_count

  unfoldable pub read_input : Files → List ℕ → ℕ → ℤ → M World ℤ
  unfolding fill_file_buffer
  read_input files key key_length thread_count = do
    file_size ← look (λ w. size_t (K.i_size_read files.input w))
    if file_size == 0
        then free_encryption_key files minus_einval
        else (call (K.kmalloc file_size)
            >>= fill_file_buffer files key key_length file_size thread_count)

  -- The key is read into the new block.
  unfoldable pub fill_encryption_key : Files → ℕ → ℤ → Option (List ℕ) → M World ℤ
  unfolding read_input close_key_file
  fill_encryption_key files key_length thread_count none = close_key_file files minus_enomem
  fill_encryption_key files key_length thread_count (some fresh) = do
    acquire encryption_key
    (got, key) ← call (K.kernel_read files.key fresh key_length)
    if ltb_ℤ (to_int got) (pos 0)
        then free_encryption_key files (to_int got)
        else read_input files key key_length thread_count

  unfoldable pub read_key : Files → ℤ → M World ℤ
  unfolding fill_encryption_key
  read_key files thread_count = do
    key_length ← look (λ w. size_t (K.i_size_read files.key w))
    if key_length == 0
        then close_key_file files minus_einval
        else (call (K.kmalloc key_length) >>= fill_encryption_key files key_length thread_count)

  -- The tests on the three results of `filp_open`.
  unfoldable pub check_files : Result File → Result File → Result File → ℤ → M World ℤ
  unfolding read_key close_input_file close_output_file
  check_files (err e) output key thread_count = pure (to_int e)
  check_files (ok input) (err e) key thread_count = close_input_file input (to_int e)
  check_files (ok input) (ok output) (err e) thread_count =
      close_output_file input output (to_int e)
  check_files (ok input) (ok output) (ok key) thread_count =
      read_key (record { input = input; output = output; key = key }) thread_count

  unfoldable pub handle_file_encryption : FilePath → FilePath → FilePath → ℤ → M World ℤ
  unfolding check_files
  handle_file_encryption input_filepath output_filepath key_filepath thread_count = do
    input ← call (K.filp_open input_filepath read_only)
    keep_file input_file input
    output ← call (K.filp_open output_filepath write_create_truncate)
    keep_file output_file output
    key ← call (K.filp_open key_filepath read_only)
    keep_file key_file key
    check_files input output key thread_count

  -- `kfree` of a path: of an `ERR_PTR` it is a fault.
  abbrev pub free_path : Resource → Result FilePath → M World (Unit {0})
  free_path r (ok path) = release r
  free_path r (err e) = oops

  abbrev pub free_memory : Result FilePath → Result FilePath → Result FilePath → ℤ → M World ℤ
  free_memory input output key ret_val = do
    free_path k_input_filepath input
    free_path k_output_filepath output
    free_path k_key_filepath key
    pure ret_val

  -- The test on the three copies.
  unfoldable pub check_paths : Result FilePath → Result FilePath → Result FilePath → ℤ → M World ℤ
  unfolding handle_file_encryption
  check_paths (ok input) (ok output) (ok key) thread_count =
      handle_file_encryption input output key thread_count
  check_paths input output key thread_count = pure minus_efault

  -- PATH_MAX is 4096.
  unfoldable pub my_encrypt : UserPtr → UserPtr → UserPtr → ℤ → M World ℤ
  unfolding check_paths
  my_encrypt input_filepath output_filepath key_filepath thread_count = do
    input ← call (K.strndup_user input_filepath 4096)
    keep_file k_input_filepath input
    output ← call (K.strndup_user output_filepath 4096)
    keep_file k_output_filepath output
    key ← call (K.strndup_user key_filepath 4096)
    keep_file k_key_filepath key
    ret_val ← check_paths input output key thread_count
    free_memory input output key ret_val
