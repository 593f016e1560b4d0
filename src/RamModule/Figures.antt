-- ===== src/RamModule/Figures.antt =====
-- The module and the system call get_ram_stats side by side.
use sistemas_operativos.Prelude.{ℕ, ◌≡◌, arith}
use sistemas_operativos.Stats.{SysInfo, ulong_add, cached_mem, used_mem, total_mem}
use sistemas_operativos.Stats.Arithmetic.{Consistent, used_mem-Consistent}
use sistemas_operativos.RamModule.{module_free, module_buffers, module_cache, module_used}

-- For consistent counters the module's figure on the used memory is, modulo 2 ^ 64, that of
-- get_ram_stats less the buffers.
pub ulong_add-module_used :
    (inf : SysInfo) (file_pages : ℕ)
    → Consistent inf file_pages
    → ulong_add (module_used inf file_pages) (module_buffers inf)
      ≡ used_mem inf (cached_mem inf file_pages)
unfolding module_used module_free module_buffers module_cache total_mem
ulong_add-module_used inf file_pages c =
    rw (used_mem-Consistent inf file_pages c, c.in_pages)
      (omega (arith, c.buffers, c.pages, c.fits))
