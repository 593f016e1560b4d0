-- ===== src/Crypt/Decrypt.antt =====
-- Practica2/linux-6.6.44/kernel/my_decrypt.c: the worker, the handler `decrypt_file_process` and the
-- system call `my_decrypt`. The variables of my_decrypt.c that hold resources play the parts of
-- those of my_encrypt.c, whose names `Resource` has (`args_list` is `task_list`, `chunks` is
-- `fragment_list`). The calls of `printk` are left out.
pub mod Equivalence
pub mod RoundTrip
use sistemas_operativos.Prelude.{
  ℕ, zero, suc, ◌+◌, ◌-◌, ◌*◌, ◌/◌, ◌%◌, Option, none, some, List, ◌∷◌, bit_xor, get_or, set, ◌==◌,
  if◌then◌else◌,
}
use sistemas_operativos.Prelude.Int.{ℤ, pos, pos_part, ltb_ℤ}
use sistemas_operativos.Kernel.{Kernel, Result, ok, err, read_only, write_create_truncate}
use sistemas_operativos.Kernel.Errno.{minus_einval, minus_enomem, minus_efault, to_int, size_of_int}
use sistemas_operativos.Kernel.Machine.{
  input_file, output_file, key_file, encryption_key, file_buffer, thread_list, task_list,
  fragment_list, k_input_filepath, k_output_filepath, k_key_filepath, M, ◌>>=◌, ◌>>◌, pure, oops,
  call, look, acquire, release,
}
use sistemas_operativos.Crypt.Fragment.{size_t}
use sistemas_operativos.Crypt.Encrypt.{
  Creation, created, failed, Files, keep, keep_file, close, free_path,
}

-- `DataChunk`; `data` is the shared buffer, and no field here.
pub record DataChunk : Type 0 where
  pub size : ℕ
  pub key : List ℕ
  pub key_size : ℕ
  pub begin : ℕ  -- `start`
  pub end : ℕ

-- The body of the loop that fills `chunks[i]`.
unfoldable pub chunk_of : (key : List ℕ) (key_size input_size num_threads i : ℕ) → DataChunk
chunk_of key key_size input_size num_threads i =
    let chunk_size = input_size / num_threads in
    let remainder = input_size % num_threads in
    record {
      size = input_size;
      key = key;
      key_size = key_size;
      begin = size_t (i * chunk_size);
      end =
          if i == num_threads - 1
          then size_t ((i + 1) * chunk_size + remainder)
          else size_t ((i + 1) * chunk_size);
    }

-- `data[i] ^ key[i % key_size]`
unfoldable pub decrypt_at : DataChunk → ℕ → ℕ → ℕ
decrypt_at c i byte = bit_xor byte (get_or c.key (i % c.key_size) 0)

unfoldable pub decrypt_loop : DataChunk → ℕ → ℕ → List ℕ → List ℕ
decrypt_loop c zero i buffer = buffer
decrypt_loop c (suc rounds) i buffer =
    decrypt_loop c rounds (i + 1) (set buffer i (decrypt_at c i (get_or buffer i 0)))

-- The shared buffer after the whole loop of one thread.
unfoldable pub xor_decrypt_worker : DataChunk → List ℕ → List ℕ
xor_decrypt_worker c buffer = decrypt_loop c (c.end - c.begin) c.begin buffer

-- The shared buffer after the workers from number `i` on, each run to its end in turn.
unfoldable pub run_workers : (ℕ → DataChunk) → ℕ → ℕ → List ℕ → List ℕ
run_workers c zero i buffer = buffer
run_workers c (suc rounds) i buffer = run_workers c rounds (i + 1) (xor_decrypt_worker (c i) buffer)

module _ (K : Kernel) where
  open K use {World, File, FilePath, UserPtr}

  unfoldable pub close_infile : File → ℤ → M World ℤ
  close_infile infile ret = do close K input_file infile; pure ret

  unfoldable pub close_outfile : File → File → ℤ → M World ℤ
  unfolding close_infile
  close_outfile infile outfile ret = do close K output_file outfile; close_infile infile ret

  unfoldable pub close_keyfile : Files K → ℤ → M World ℤ
  unfolding close_outfile
  close_keyfile files ret = do
    close K key_file files.key
    close_outfile files.input files.output ret

  unfoldable pub free_key : Files K → ℤ → M World ℤ
  unfolding close_keyfile
  free_key files ret = do release encryption_key; close_keyfile files ret

  unfoldable pub free_data : Files K → ℤ → M World ℤ
  unfolding free_key
  free_data files ret = do release file_buffer; free_key files ret

  unfoldable pub free_all : Files K → ℤ → M World ℤ
  unfolding free_data
  free_all files ret = do
    release thread_list
    release task_list
    release fragment_list
    free_data files ret

  -- The loop of `kthread_run`, from thread `i` on.
  unfoldable pub create_workers : ℕ → ℕ → M World Creation
  create_workers zero i = pure created
  create_workers (suc rounds) i = call (K.kthread_run i) >>= λ e. elim e [
    | some failure ↦ pure (failed i failure)
    | none ↦ create_workers rounds (i + 1)
  ]

  -- From the end of that loop on. A failed start frees the blocks under the threads that run.
  unfoldable pub join_and_write : Files K → (ℕ → DataChunk) → ℕ → ℕ → List ℕ → Creation → M World ℤ
  unfolding free_all
  join_and_write files chunks n input_size buffer (failed zero e) = free_all files (to_int e)
  join_and_write files chunks n input_size buffer (failed (suc others) e) = oops
  join_and_write files chunks n input_size buffer created =
      call (K.kernel_write files.output (run_workers chunks n 0 buffer) input_size) >>= λ written.
      free_all files (to_int written)

  -- From the loop that starts the threads to the end.
  unfoldable pub decrypt_and_write : Files K → List ℕ → ℕ → ℕ → List ℕ → ℤ → M World ℤ
  unfolding join_and_write
  decrypt_and_write files key key_size input_size buffer num_threads =
      let n = pos_part num_threads in
      let chunks = chunk_of key key_size input_size (size_of_int num_threads) in
      create_workers n 0 >>= join_and_write files chunks n input_size buffer

  -- The test on the three lists; `input_size / num_threads` faults at zero.
  unfoldable pub check_chunks :
      Files K
      → List ℕ
      → ℕ
      → ℕ
      → List ℕ
      → ℤ
      → Option (List ℕ)
      → Option (List ℕ)
      → Option (List ℕ)
      → M World ℤ
  unfolding free_data
  check_chunks files key key_size input_size buffer num_threads (some _) (some _) (some _) =
      if size_of_int num_threads == 0
      then oops
      else decrypt_and_write files key key_size input_size buffer num_threads
  check_chunks files key key_size input_size buffer num_threads _ _ _ = free_data files minus_enomem

  unfoldable pub allocate_chunks : Files K → List ℕ → ℕ → ℕ → List ℕ → ℤ → M World ℤ
  allocate_chunks files key key_size input_size buffer num_threads =
      let n = size_of_int num_threads in
      do
        threads ← call (K.kmalloc (size_t (8 * n)))
        keep thread_list threads
        args ← call (K.kmalloc (size_t ((48 + K.sizeof_completion) * n)))
        keep task_list args
        chunks ← call (K.kmalloc (size_t (48 * n)))
        keep fragment_list chunks
        check_chunks files key key_size input_size buffer num_threads threads args chunks

  -- The input file is read into the new block.
  unfoldable pub fill_data : Files K → List ℕ → ℕ → ℕ → ℤ → Option (List ℕ) → M World ℤ
  unfolding free_key
  fill_data files key key_size input_size num_threads none = free_key files minus_enomem
  fill_data files key key_size input_size num_threads (some fresh) = do
    acquire file_buffer
    (got, buffer) ← call (K.kernel_read files.input fresh input_size)
    if ltb_ℤ (to_int got) (pos 0)
        then free_data files (to_int got)
        else allocate_chunks files key key_size input_size buffer num_threads

  unfoldable pub read_data : Files K → List ℕ → ℕ → ℤ → M World ℤ
  read_data files key key_size num_threads = do
    input_size ← look (λ w. size_t (K.i_size_read files.input w))
    if input_size == 0
        then free_key files minus_einval
        else (call (K.kmalloc input_size) >>= fill_data files key key_size input_size num_threads)

  -- The key is read into the new block.
  unfoldable pub fill_key : Files K → ℕ → ℤ → Option (List ℕ) → M World ℤ
  fill_key files key_size num_threads none = close_keyfile files minus_enomem
  fill_key files key_size num_threads (some fresh) = do
    acquire encryption_key
    (got, key) ← call (K.kernel_read files.key fresh key_size)
    if ltb_ℤ (to_int got) (pos 0)
        then free_key files (to_int got)
        else read_data files key key_size num_threads

  unfoldable pub read_keyfile : Files K → ℤ → M World ℤ
  read_keyfile files num_threads = do
    key_size ← look (λ w. size_t (K.i_size_read files.key w))
    if key_size == 0
        then close_keyfile files minus_einval
        else (call (K.kmalloc key_size) >>= fill_key files key_size num_threads)

  -- The tests on the three results of `filp_open`.
  unfoldable pub check_opened : Result File → Result File → Result File → ℤ → M World ℤ
  check_opened (err e) outfile keyfile num_threads = pure (to_int e)
  check_opened (ok infile) (err e) keyfile num_threads = close_infile infile (to_int e)
  check_opened (ok infile) (ok outfile) (err e) num_threads =
      close_outfile infile outfile (to_int e)
  check_opened (ok infile) (ok outfile) (ok keyfile) num_threads =
      read_keyfile (record { input = infile; output = outfile; key = keyfile }) num_threads

  unfoldable pub decrypt_file_process : FilePath → FilePath → FilePath → ℤ → M World ℤ
  decrypt_file_process input_file_path output_file_path key_file_path num_threads = do
    infile ← call (K.filp_open input_file_path read_only)
    keep_file input_file infile
    outfile ← call (K.filp_open output_file_path write_create_truncate)
    keep_file output_file outfile
    keyfile ← call (K.filp_open key_file_path read_only)
    keep_file key_file keyfile
    check_opened infile outfile keyfile num_threads

  -- The test on the three copies.
  unfoldable pub check_copies : Result FilePath → Result FilePath → Result FilePath → ℤ → M World ℤ
  check_copies (ok input) (ok output) (ok key) num_threads =
      decrypt_file_process input output key num_threads
  check_copies input output key num_threads = pure minus_efault

  -- PATH_MAX is 4096.
  unfoldable pub my_decrypt : UserPtr → UserPtr → UserPtr → ℤ → M World ℤ
  my_decrypt input_path output_path key_path num_threads = do
    input ← call (K.strndup_user input_path 4096)
    keep_file k_input_filepath input
    output ← call (K.strndup_user output_path 4096)
    keep_file k_output_filepath output
    key ← call (K.strndup_user key_path 4096)
    keep_file k_key_filepath key
    ret ← check_copies input output key num_threads
    free_path K k_input_filepath input
    free_path K k_output_filepath output
    free_path K k_key_filepath key
    pure ret
