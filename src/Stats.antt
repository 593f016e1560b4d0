-- ===== src/Stats.antt =====
-- The system calls of Proyecto/linux-6.6.44/kernel/my_sys.c that report on the memory: each reads
-- counters of the kernel, writes a text into a buffer of its own and copies the buffer to the user.
pub mod Reply
pub mod Texts
pub mod Arithmetic
use sistemas_operativos.Prelude.{
  ℕ, ◌+◌, ◌-◌, ◌*◌, ◌/◌, ◌%◌, ◌^◌, List, [], ◌∷◌, ◌==◌, if◌then◌else◌,
}
use sistemas_operativos.Prelude.Int.{ℤ, pos}
use sistemas_operativos.Kernel.Errno.{minus_efault}
use sistemas_operativos.Kernel.Machine.{M, ◌>>=◌, pure, oops, call, look}
use sistemas_operativos.Text.{Directive, pieces, snprintf_into}

-- `struct sysinfo`, as far as it is used.
pub record SysInfo : Type 0 where
  pub totalram : ℕ
  pub freeram : ℕ
  pub bufferram : ℕ
  pub totalswap : ℕ
  pub freeswap : ℕ
  pub mem_unit : ℕ

-- The counters that are asked for.
pub data NodeStatItem : Type 0 where
  nr_file_pages nr_free_pages nr_file_mapped : NodeStatItem
  nr_active_anon nr_active_file nr_inactive_anon nr_inactive_file : NodeStatItem

-- What the calls use of the kernel.
pub record Counters : Type 1 where
  pub World : Type 0
  pub UserPtr : Type 0
  pub si_meminfo : World → SysInfo × World
  pub si_swapinfo : World → SysInfo × World
  pub global_node_page_state : NodeStatItem → World → ℕ × World
  -- The bytes that a local array of this size happens to hold.
  pub stack : ℕ → World → List ℕ
  -- The number of bytes that could not be copied.
  pub copy_to_user : UserPtr → List ℕ → World → ℕ × World

-- `unsigned long` of 64 bits.
abbrev pub ulong_add : ℕ → ℕ → ℕ
ulong_add a b = (a + b) % 2 ^ 64

abbrev pub ulong_sub : ℕ → ℕ → ℕ
ulong_sub a b = (a + (2 ^ 64 - b % 2 ^ 64)) % 2 ^ 64

abbrev pub ulong_mul : ℕ → ℕ → ℕ
ulong_mul a b = a * b % 2 ^ 64

abbrev pub page_size : ℕ
page_size = 4096

-- `<< (PAGE_SHIFT - 10)`
abbrev pub in_kilobytes : ℕ → ℕ
in_kilobytes pages = ulong_mul pages 4

unfoldable pub ram_format : List Directive
ram_format = pieces (
    "\"ram_stats\": {\n  \"total\": " ∷ ",\n  \"used\": " ∷ ",\n  \"free\": " ∷ ",\n  \"cache\": "
    ∷ ",\n  \"buffers\": " ∷ ",\n  \"percentage_used\": " ∷ "\n}\n" ∷ [])

unfoldable pub swap_format : List Directive
swap_format =
    pieces
      ("\"swap_info\": {\n  \"total\": " ∷ ",\n  \"used\": " ∷ ",\n  \"free\": " ∷ "\n}\n" ∷ [])

unfoldable pub faults_format : List Directive
faults_format =
    pieces
      ("\"page_faults_info\": {\n  \"minor_faults\": " ∷ ",\n  \"major_faults\": " ∷ "\n}\n" ∷ [])

unfoldable pub pages_format : List Directive
pages_format =
    pieces ("\"memory_pages_info\": {\n  \"active\": " ∷ ",\n  \"inactive\": " ∷ "\n}\n" ∷ [])

unfoldable pub cached_mem : SysInfo → ℕ → ℕ
cached_mem inf file_pages = ulong_mul (ulong_sub file_pages inf.bufferram) page_size

unfoldable pub used_mem : SysInfo → ℕ → ℕ
used_mem inf cached =
    let unused = ulong_sub (ulong_sub inf.totalram inf.freeram) inf.bufferram in
    ulong_mul (ulong_sub unused (cached / inf.mem_unit)) inf.mem_unit

unfoldable pub total_mem : SysInfo → ℕ
total_mem inf = ulong_mul inf.totalram inf.mem_unit

unfoldable pub percentage_used : SysInfo → ℕ → ℕ
percentage_used inf used = ulong_mul used 100 / total_mem inf

module _ (K : Counters) where
  open K use {World, UserPtr}

  -- `snprintf` into the local buffer and `copy_to_user` of the whole buffer.
  unfoldable pub reply : ℕ → List Directive → List ℕ → UserPtr → M World ℤ
  unfolding snprintf_into
  reply size d values user_buffer = do
    buffer ← look (K.stack size)
    left ← call (K.copy_to_user user_buffer (snprintf_into buffer d values))
    if left == 0 then pure (pos 0) else pure minus_efault

  -- A division by a unit or by a total of zero faults.
  unfoldable pub get_ram_stats : UserPtr → M World ℤ
  unfolding reply ram_format cached_mem used_mem total_mem percentage_used
  get_ram_stats user_buffer = do
    inf ← call K.si_meminfo
    file_pages ← call (K.global_node_page_state nr_file_pages)
    let cached = cached_mem inf file_pages
    let used = used_mem inf cached
    let values =
        total_mem inf
        ∷ used
        ∷ ulong_mul inf.freeram inf.mem_unit
        ∷ cached
        ∷ ulong_mul inf.bufferram inf.mem_unit
        ∷ percentage_used inf used
        ∷ []
    if inf.mem_unit == 0
        then oops
        else if total_mem inf == 0
        then oops
        else reply 256 ram_format values user_buffer

  unfoldable pub get_swap_info : UserPtr → M World ℤ
  unfolding reply swap_format
  get_swap_info user_buffer = do
    sys_info ← call K.si_swapinfo
    let swap_used = ulong_sub sys_info.totalswap sys_info.freeswap
    let values =
        in_kilobytes sys_info.totalswap
        ∷ in_kilobytes swap_used
        ∷ in_kilobytes sys_info.freeswap
        ∷ []
    reply 128 swap_format values user_buffer

  unfoldable pub get_page_faults_info : UserPtr → M World ℤ
  unfolding reply faults_format
  get_page_faults_info user_buffer = do
    file_pages ← call (K.global_node_page_state nr_file_pages)
    free_pages ← call (K.global_node_page_state nr_free_pages)
    major_page_faults ← call (K.global_node_page_state nr_file_mapped)
    let minor_page_faults = ulong_sub file_pages free_pages
    reply 128 faults_format (minor_page_faults ∷ major_page_faults ∷ []) user_buffer

  unfoldable pub get_memory_pages_info : UserPtr → M World ℤ
  unfolding reply pages_format
  get_memory_pages_info user_buffer = do
    active_anon ← call (K.global_node_page_state nr_active_anon)
    active_file ← call (K.global_node_page_state nr_active_file)
    inactive_anon ← call (K.global_node_page_state nr_inactive_anon)
    inactive_file ← call (K.global_node_page_state nr_inactive_file)
    let active_memory_pages = ulong_add active_anon active_file
    let inactive_memory_pages = ulong_add inactive_anon inactive_file
    reply 128 pages_format (active_memory_pages ∷ inactive_memory_pages ∷ []) user_buffer
