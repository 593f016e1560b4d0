-- ===== src/RamModule.antt =====
-- The kernel module of Proyecto/Api/pruebas/ram_stats_module.c, which prints the figures on the
-- memory to the log when it is loaded.
pub mod Figures
use sistemas_operativos.Prelude.{ℕ, ◌/◌, List, [], ◌∷◌, ◌++◌, ◌==◌, if◌then◌else◌}
use sistemas_operativos.Prelude.Int.{ℤ, pos}
use sistemas_operativos.Kernel.Machine.{M, ◌>>=◌, pure, oops, call, look}
use sistemas_operativos.Text.{Directive, pieces, codes, snprintf_into, c_string}
use sistemas_operativos.Stats.{
  Counters, SysInfo, nr_file_pages, ulong_sub, ulong_mul, page_size, total_mem,
}

unfoldable pub module_format : List Directive
module_format = pieces (
    "RAM stats:\n  Total: " ∷ " KB\n  Used: " ∷ " KB\n  Free: " ∷ " KB\n  Cache: "
    ∷ " KB\n  Buffers: " ∷ " KB\n  Percentage Used: " ∷ "%\n" ∷ [])

unfoldable pub module_free : SysInfo → ℕ
module_free inf = ulong_mul inf.freeram inf.mem_unit

unfoldable pub module_buffers : SysInfo → ℕ
module_buffers inf = ulong_mul inf.bufferram inf.mem_unit

unfoldable pub module_cache : ℕ → ℕ
module_cache file_pages = ulong_mul file_pages page_size

unfoldable pub module_used : SysInfo → ℕ → ℕ
unfolding total_mem module_free module_buffers module_cache
module_used inf file_pages =
    ulong_sub (ulong_sub (ulong_sub (total_mem inf) (module_free inf)) (module_cache file_pages))
      (module_buffers inf)

module _ (K : Counters) (printk : List ℕ → K.World → K.World) where
  open K use {World}

  -- A division by a total of zero faults.
  unfoldable pub ram_stats_init : M World ℤ
  unfolding module_format module_used module_free module_buffers module_cache total_mem
      snprintf_into c_string
  ram_stats_init = do
    inf ← call K.si_meminfo
    file_pages ← call (K.global_node_page_state nr_file_pages)
    let total = total_mem inf
    let used = module_used inf file_pages
    let values =
        total / 1024
        ∷ used / 1024
        ∷ module_free inf / 1024
        ∷ module_cache file_pages / 1024
        ∷ module_buffers inf / 1024
        ∷ ulong_mul used 100 / total
        ∷ []
    buffer ← look (K.stack 256)
    if total == 0
        then oops
        else (call (λ w.
              (tt, printk (c_string (snprintf_into buffer module_format values) ++ codes "\n") w))
            >>= λ _. pure (pos 0))
