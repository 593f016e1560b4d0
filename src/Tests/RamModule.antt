-- ===== src/Tests/RamModule.antt =====
-- The module on the counters of the server's kernel, with a log for a world.
use sistemas_operativos.Prelude.{◌≡◌, refl, [], ◌++◌, some, arith}
use sistemas_operativos.Prelude.Int.{pos}
use sistemas_operativos.Text.{codes, decimal_fuel, c_string, pieces}
use sistemas_operativos.Stats.{ulong_add, used_mem, cached_mem}
use sistemas_operativos.Stats.Arithmetic.{Consistent}
use sistemas_operativos.RamModule.{module_used, module_buffers, ram_stats_init}
use sistemas_operativos.RamModule.Figures.{ulong_add-module_used}
use sistemas_operativos.Tests.Server.{memory, counters, at_start}

-- 400 pages in use, where get_ram_stats reports 450.
logged :
    ram_stats_init counters (λ text w. text) at_start
    ≡ some (
      pos 0,
      record {
        world =
            codes
              "RAM stats:\n  Total: 4000 KB\n  Used: 1600 KB\n  Free: 1200 KB\n  Cache: 1000 KB\n"
            ++ codes "  Buffers: 200 KB\n  Percentage Used: 40%\n\n";
        held = [];
      },
    )
unfolding ram_stats_init decimal_fuel c_string pieces
logged = refl

memory-Consistent : Consistent memory 250
memory-Consistent = record {
  in_pages = refl;
  buffers = omega arith;
  pages = omega arith;
  fits = omega arith;
}

ulong_add-module_used_example :
    ulong_add (module_used memory 250) (module_buffers memory)
    ≡ used_mem memory (cached_mem memory 250)
ulong_add-module_used_example = ulong_add-module_used memory 250 memory-Consistent
