-- ===== src/Logs.antt =====
-- The system call retrieve_last_five_logs of Practica1/linux-6.6.44/kernel/sys.c. A pass over the
-- log is the list of the lines that kmsg_dump_get_line gives from the start to the end; between
-- the two passes the log may change.
pub mod Lines
pub mod Outcome
use sistemas_operativos.Prelude.{
  ℕ, zero, suc, ◌+◌, ◌-◌, ◌≡◌, List, [], ◌∷◌, ◌++◌, length, Bool, true, false, leb, ltb, ◌==◌,
  if◌then◌else◌,
}
use sistemas_operativos.Prelude.Int.{ℤ, pos}
use sistemas_operativos.Kernel.Errno.{minus_einval, minus_enomem, minus_efault}
use sistemas_operativos.Kernel.Machine.{
  M, ◌>>=◌, ◌>>◌, pure, call, acquire, release, output_buffer, kernel_log_buffer,
}

pub record LogKernel : Type 1 where
  pub World : Type 0
  pub UserPtr : Type 0
  -- Whether the block is given.
  pub kzalloc : ℕ → World → Bool × World
  pub kmalloc : ℕ → World → Bool × World
  pub kmsg_lines : World → List (List ℕ) × World
  -- The number of bytes that could not be copied.
  pub copy_to_user : UserPtr → List ℕ → World → ℕ × World

abbrev pub max_log_entries : ℕ
max_log_entries = 5

abbrev pub kernel_log_buffer_size : ℕ
kernel_log_buffer_size = 1024

-- The second loop: `output` is what has been written to the output buffer, so its length is
-- `output_offset`.
unfoldable pub copy_lines :
    (buffer_length total_log_lines lines_processed : ℕ) → List ℕ → List (List ℕ) → List ℕ
copy_lines buffer_length total processed output [] = output
copy_lines buffer_length total processed output (line ∷ rest) =
    let copied = copy_lines buffer_length total (processed + 1) (output ++ line) rest in
    let skipped = copy_lines buffer_length total (processed + 1) output rest in
    if leb (total - processed) max_log_entries
    then if leb buffer_length (length output + length line) then output else copied
    else skipped

module _ (K : LogKernel) where
  open K use {World, UserPtr}

  unfoldable pub free_buffers : ℤ → M World ℤ
  free_buffers result = release output_buffer >> release kernel_log_buffer >> pure result

  -- From the first pass on, with both buffers.
  unfoldable pub copy_log : UserPtr → ℕ → M World ℤ
  unfolding free_buffers copy_lines
  copy_log user_log_buffer buffer_length = do
    counted ← call K.kmsg_lines
    lines ← call K.kmsg_lines
    let output = copy_lines buffer_length (length counted) 0 [] lines
    left ← call (K.copy_to_user user_log_buffer output)
    if left == 0 then free_buffers (pos (length output)) else free_buffers minus_efault

  unfoldable pub with_output_buffer : UserPtr → ℕ → M World ℤ
  unfolding copy_log
  with_output_buffer user_log_buffer buffer_length = do
    given ← call (K.kmalloc kernel_log_buffer_size)
    if given
        then (acquire kernel_log_buffer >> copy_log user_log_buffer buffer_length)
        else (release output_buffer >> pure minus_enomem)

  unfoldable pub allocate_output : UserPtr → ℕ → M World ℤ
  unfolding with_output_buffer
  allocate_output user_log_buffer buffer_length = do
    given ← call (K.kzalloc buffer_length)
    if given
        then (acquire output_buffer >> with_output_buffer user_log_buffer buffer_length)
        else pure minus_enomem

  unfoldable pub retrieve_last_five_logs : UserPtr → ℕ → M World ℤ
  unfolding allocate_output
  retrieve_last_five_logs user_log_buffer buffer_length =
      if ltb buffer_length kernel_log_buffer_size
      then pure minus_einval
      else allocate_output user_log_buffer buffer_length
