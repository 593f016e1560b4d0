-- ===== src/Stats/Texts.antt =====
-- What each of the four calls leaves in the user's buffer.
use sistemas_operativos.Prelude.{ℕ, ◌≡◌, ◌≢◌, ◌==◌, ◌<◌, refl, List, [], ◌∷◌, true, false, arith}
use sistemas_operativos.Kernel.Machine.{Machine}
use sistemas_operativos.Text.{format, pieces}
use sistemas_operativos.Text.Width.{width, no_null}
use sistemas_operativos.Stats.{
  Counters, SysInfo, nr_file_pages, nr_free_pages, nr_file_mapped, nr_active_anon, nr_active_file,
  nr_inactive_anon, nr_inactive_file, ulong_add, ulong_sub, ulong_mul, in_kilobytes, ram_format,
  swap_format, faults_format, pages_format, cached_mem, used_mem, total_mem, percentage_used,
  get_ram_stats, get_swap_info, get_page_faults_info, get_memory_pages_info,
}
use sistemas_operativos.Stats.Reply.{UserBuffer, Served, Sends, reply-Sends}

ram_width : width ram_format < 256
unfolding ram_format pieces width
ram_width = omega arith

swap_width : width swap_format < 128
unfolding swap_format pieces width
swap_width = omega arith

faults_width : width faults_format < 128
unfolding faults_format pieces width
faults_width = omega arith

pages_width : width pages_format < 128
unfolding pages_format pieces width
pages_width = omega arith

no_null-ram : no_null ram_format ≡ true
unfolding ram_format pieces no_null
no_null-ram = refl

no_null-swap : no_null swap_format ≡ true
unfolding swap_format pieces no_null
no_null-swap = refl

no_null-faults : no_null faults_format ≡ true
unfolding faults_format pieces no_null
no_null-faults = refl

no_null-pages : no_null pages_format ≡ true
unfolding pages_format pieces no_null
no_null-pages = refl

module _ (K : Counters) (U : UserBuffer K) (q : Served K U) where
  -- The six figures on the memory.
  abbrev pub ram_values : SysInfo → ℕ → List ℕ
  ram_values inf file_pages =
      let cached = cached_mem inf file_pages in
      let used = used_mem inf cached in
      total_mem inf
      ∷ used
      ∷ ulong_mul inf.freeram inf.mem_unit
      ∷ cached
      ∷ ulong_mul inf.bufferram inf.mem_unit
      ∷ percentage_used inf used
      ∷ []

  -- If the copy to the user succeeds and neither the unit nor the size of the memory is zero,
  -- `get_ram_stats` returns 0 and the whole text on the six figures is the string in the buffer.
  pub get_ram_stats-Sends :
      (s : Machine K.World) (inf : SysInfo) (file_pages : ℕ)
      → (K.si_meminfo s.world).0 ≡ inf
      → (K.global_node_page_state nr_file_pages (K.si_meminfo s.world).1).0 ≡ file_pages
      → inf.mem_unit ≢ 0
      → total_mem inf ≢ 0
      → Sends K U (format ram_format (ram_values inf file_pages)) (get_ram_stats K U.buffer s)
  unfolding get_ram_stats
  get_ram_stats-Sends s inf file_pages e f unit total =
      rw (e, f, unit_test, total_test)
        (reply-Sends K U q 256 ram_format (ram_values inf file_pages) _ ram_width no_null-ram)
    where
      unit_test : (inf.mem_unit == 0) ≡ false
      unit_test = ground arith

      total_test : (total_mem inf == 0) ≡ false
      total_test = ground arith

  -- If the copy to the user succeeds, `get_swap_info` returns 0 and the string in the buffer is
  -- the whole text on the swap: its size, the part in use and the free part, in kilobytes.
  pub get_swap_info-Sends :
      (s : Machine K.World) (sys_info : SysInfo)
      → (K.si_swapinfo s.world).0 ≡ sys_info
      → Sends K U
          (format swap_format (
            in_kilobytes sys_info.totalswap
            ∷ in_kilobytes (ulong_sub sys_info.totalswap sys_info.freeswap)
            ∷ in_kilobytes sys_info.freeswap
            ∷ []))
          (get_swap_info K U.buffer s)
  unfolding get_swap_info
  get_swap_info-Sends s sys_info e =
      rw e (reply-Sends K U q 128 swap_format _ _ swap_width no_null-swap)

  -- If the copy to the user succeeds, `get_page_faults_info` returns 0 and the string in the
  -- buffer is the whole text on the two counts, the first of which is a difference of counters.
  pub get_page_faults_info-Sends :
      (s : Machine K.World) (file_pages free_pages mapped : ℕ) (w_1 w_2 w_3 : K.World)
      → K.global_node_page_state nr_file_pages s.world ≡ (file_pages, w_1)
      → K.global_node_page_state nr_free_pages w_1 ≡ (free_pages, w_2)
      → K.global_node_page_state nr_file_mapped w_2 ≡ (mapped, w_3)
      → Sends K U
          (format faults_format (ulong_sub file_pages free_pages ∷ mapped ∷ []))
          (get_page_faults_info K U.buffer s)
  unfolding get_page_faults_info
  get_page_faults_info-Sends s file_pages free_pages mapped w_1 w_2 w_3 e f g =
      rw (e, f, g) (reply-Sends K U q 128 faults_format _ _ faults_width no_null-faults)

  -- If the copy to the user succeeds, `get_memory_pages_info` returns 0 and the string in the
  -- buffer is the whole text on the active and the inactive pages, each a sum of two counters.
  pub get_memory_pages_info-Sends :
      (s : Machine K.World) (active_anon active_file inactive_anon inactive_file : ℕ)
      (w_1 w_2 w_3 w_4 : K.World)
      → K.global_node_page_state nr_active_anon s.world ≡ (active_anon, w_1)
      → K.global_node_page_state nr_active_file w_1 ≡ (active_file, w_2)
      → K.global_node_page_state nr_inactive_anon w_2 ≡ (inactive_anon, w_3)
      → K.global_node_page_state nr_inactive_file w_3 ≡ (inactive_file, w_4)
      → Sends K U
          (format pages_format
            (ulong_add active_anon active_file ∷ ulong_add inactive_anon inactive_file ∷ []))
          (get_memory_pages_info K U.buffer s)
  unfolding get_memory_pages_info
  get_memory_pages_info-Sends s active_anon active_file inactive_anon inactive_file w_1 w_2 w_3 w_4
        e f g h =
      rw (e, f, g, h) (reply-Sends K U q 128 pages_format _ _ pages_width no_null-pages)
