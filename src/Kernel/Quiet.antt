-- ===== src/Kernel/Quiet.antt =====
-- What is assumed of the kernel where a call is followed to its success: files open, allocations
-- are served, threads start, and reads and writes of at most MAX_RW_COUNT bytes are complete. The
-- source reads and writes at offset 0, so a write replaces the beginning of the file and leaves the
-- rest of it; only a file that is open for writing can be written, and one for reading read.
use sistemas_operativos.Prelude.{
  ℕ, ◌-◌, ◌^◌, ◌≤◌, ◌≡◌, ◌≢◌, none, some, List, [], ◌++◌, length, drop,
}
use sistemas_operativos.Prelude.Int.{pos}
use sistemas_operativos.Kernel.{Kernel, OpenMode, ok, read_only, write_create_truncate}

-- INT_MAX & PAGE_MASK
abbrev pub max_rw_count : ℕ
max_rw_count = 2 ^ 31 - 4096

pub record Quiet (K : Kernel) : Type 0 where
  pub content : K.World → K.FilePath → List ℕ
  pub open_file : K.FilePath → OpenMode → K.World → K.File
  pub mode_of : K.File → OpenMode
  pub path_of : K.File → K.FilePath
  pub block : ℕ → K.World → List ℕ
  pub open_read :
      (p : K.FilePath) (w : K.World) → (K.filp_open p read_only w).0 ≡ ok (open_file p read_only w)
  pub open_write :
      (p : K.FilePath) (w : K.World)
      → (K.filp_open p write_create_truncate w).0 ≡ ok (open_file p write_create_truncate w)
  pub path_of-open_file :
      (p : K.FilePath) (mode : OpenMode) (w : K.World) → path_of (open_file p mode w) ≡ p
  pub mode_of-open_file :
      (p : K.FilePath) (mode : OpenMode) (w : K.World) → mode_of (open_file p mode w) ≡ mode
  pub content-open_read :
      (p : K.FilePath) (w : K.World) → content (K.filp_open p read_only w).1 ≡ content w
  -- O_TRUNC
  pub content-truncate :
      (p : K.FilePath) (w : K.World) → content (K.filp_open p write_create_truncate w).1 p ≡ []
  pub content-open_write :
      (p q : K.FilePath) (w : K.World)
      → q ≢ p
      → content (K.filp_open p write_create_truncate w).1 q ≡ content w q
  pub content-close : (f : K.File) (w : K.World) → content (K.filp_close f w) ≡ content w
  pub size : (f : K.File) (w : K.World) → K.i_size_read f w ≡ length (content w (path_of f))
  pub alloc : (n : ℕ) (w : K.World) → (K.kmalloc n w).0 ≡ some (block n w)
  pub content-alloc : (n : ℕ) (w : K.World) → content (K.kmalloc n w).1 ≡ content w
  pub read :
      (f : K.File) (b : List ℕ) (w : K.World)
      → mode_of f ≡ read_only
      → length (content w (path_of f)) ≤ max_rw_count
      → (K.kernel_read f b (length (content w (path_of f))) w).0
        ≡ (pos (length (content w (path_of f))), content w (path_of f))
  pub content-read :
      (f : K.File) (b : List ℕ) (n : ℕ) (w : K.World)
      → content (K.kernel_read f b n w).1 ≡ content w
  pub write :
      (f : K.File) (b : List ℕ) (w : K.World)
      → mode_of f ≡ write_create_truncate
      → length b ≤ max_rw_count
      → ((K.kernel_write f b (length b) w).0 ≡ pos (length b))
        × (content (K.kernel_write f b (length b) w).1 (path_of f)
            ≡ b ++ drop (length b) (content w (path_of f)))
  pub content-write :
      (f : K.File) (b : List ℕ) (n : ℕ) (q : K.FilePath) (w : K.World)
      → q ≢ path_of f
      → content (K.kernel_write f b n w).1 q ≡ content w q
  pub run : (i : ℕ) (w : K.World) → (K.kthread_run i w).0 ≡ none
  pub content-run : (i : ℕ) (w : K.World) → content (K.kthread_run i w).1 ≡ content w
