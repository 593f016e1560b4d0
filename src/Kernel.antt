-- ===== src/Kernel.antt =====
-- What the system calls use of the kernel and do not implement: files, allocation, threads, memory
-- counters and copies from and to user space. It enters as a record of operations over a world.
-- Beside the world a call keeps the list of what it holds, so that a leak and a bad release show.
pub mod Machine
pub mod Keeps
pub mod Errno
pub mod Quiet
use sistemas_operativos.Prelude.{ℕ, Option, List}
use sistemas_operativos.Prelude.Int.{ℤ}

pub data Result {ℓ} (A : Type ℓ) : Type ℓ where
  ok : A → Result A
  err : ℤ → Result A  -- `ERR_PTR`, with the value that `PTR_ERR` gives back

pub data OpenMode : Type 0 where
  read_only : OpenMode  -- O_RDONLY
  write_create_truncate : OpenMode  -- O_WRONLY | O_CREAT | O_TRUNC, 0644

pub record Kernel : Type 1 where
  pub World : Type 0
  pub File : Type 0
  pub FilePath : Type 0
  pub UserPtr : Type 0
  pub sizeof_completion : ℕ
  pub filp_open : FilePath → OpenMode → World → Result File × World
  pub filp_close : File → World → World
  pub i_size_read : File → World → ℕ
  -- The bytes that the new block happens to hold, or `none` for a null pointer.
  pub kmalloc : ℕ → World → Option (List ℕ) × World
  -- The file, the buffer, the count: the result, and the buffer afterwards.
  pub kernel_read : File → List ℕ → ℕ → World → (ℤ × List ℕ) × World
  pub kernel_write : File → List ℕ → ℕ → World → ℤ × World
  -- The number of the thread: `none` if it was started, the error otherwise.
  pub kthread_run : ℕ → World → Option ℤ × World
  pub strndup_user : UserPtr → ℕ → World → Result FilePath × World
