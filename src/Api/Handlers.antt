-- ===== src/Api/Handlers.antt =====
-- What the server answers with the figures of the kernel, from the request to the JSON.
use sistemas_operativos.Prelude.{
  ℕ, ◌^◌, ◌<◌, ◌≡◌, ◌≢◌, refl, sym, List, [], ◌∷◌, Option, none, some, arith,
}
use sistemas_operativos.Prelude.Int.{ℤ}
use sistemas_operativos.Kernel.Machine.{M, Machine, ◌>>=◌}
use sistemas_operativos.Text.{codes, format}
use sistemas_operativos.Stats.{
  Counters, SysInfo, nr_file_pages, ulong_sub, ulong_mul, in_kilobytes, ram_format, swap_format,
  cached_mem, used_mem, total_mem, percentage_used,
}
use sistemas_operativos.Stats.Reply.{UserBuffer, Served, Sends}
use sistemas_operativos.Stats.Texts.{get_ram_stats-Sends, get_swap_info-Sends}
use sistemas_operativos.Stats.Arithmetic.{total_mem-lt, used_mem-lt, cached_mem-lt}
use sistemas_operativos.Api.{
  syscall, get_system_info, valuestring_of, handle, ram_answer, swap_answer, handle_ram_stats,
  handle_swap_info, sys_get_ram_stats, sys_get_swap_info,
}
use sistemas_operativos.Api.Json.{CJson, Documented}
use sistemas_operativos.Api.Formats.{sscanf-ram_format, sscanf-swap_format}

-- A handler that ends with this JSON.
abbrev pub Answers : {W A : Type 0} → A → Option (Option A × Machine W) → Type 0
Answers json none = ⊥
Answers json (some (r, s)) = r ≡ some json

module _ (K : Counters) (U : UserBuffer K) (J : CJson) (other : ℕ → K.UserPtr → ℕ → M K.World ℤ)
    (stale : ℕ → ℕ) (q : Served K U) (doc : Documented J) where
  -- The state in which the system call starts, with an empty buffer.
  abbrev pub cleared : Machine K.World → Machine K.World
  cleared s = record s { world = U.memset 912 s.world }

  -- Where the system call leaves a text in the buffer, a handler answers with what it makes of the
  -- text.
  pub handle-Answers :
      (number : ℕ) (answer : List ℕ → J.Json) (text : List ℕ) (s : Machine K.World)
      → Sends K U text (syscall K U J other stale number 912 (cleared s))
      → Answers (answer text) (handle K U J other stale number answer s)
  unfolding handle get_system_info valuestring_of
  handle-Answers number answer text s sends =
      go (syscall K U J other stale number 912 (cleared s)) refl sends
    where
      go :
          (o : Option (ℤ × Machine K.World))
          → syscall K U J other stale number 912 (cleared s) ≡ o
          → Sends K U text o
          → Answers (answer text) (handle K U J other stale number answer s)
      go none e sent = absurd sent
      go (some (r, s')) e sent =
          rw
            (
              handle,
              get_system_info,
              ◌>>=◌,
              e,
              sent.0,
              sent.1,
              valuestring_of,
              doc.item (codes "data") text,
              doc.string text,
            )
            refl

  -- The object that a list of named numbers makes, inside an object with one member.
  abbrev pub numbers : J.Json → List (List ℕ × ℕ) → J.Json
  numbers json [] = json
  numbers json ((name, n) ∷ rest) = numbers (J.add_number_to_object json name (J.number_of n)) rest

  abbrev pub object_of : List ℕ → List (List ℕ × ℕ) → J.Json
  object_of name members =
      J.add_item_to_object J.create_object name (numbers J.create_object members)

  swap_answer-format :
      (total used free : ℕ)
      → total < 2 ^ 64
      → used < 2 ^ 64
      → free < 2 ^ 64
      → swap_answer K U J other stale (format swap_format (total ∷ used ∷ free ∷ []))
        ≡ object_of
            (codes "swap_info")
            ((codes "total", total) ∷ (codes "used", used) ∷ (codes "free", free) ∷ [])
  unfolding swap_answer
  swap_answer-format total used free a b c =
      rw (swap_answer, sscanf-swap_format total used free a b c) refl

  ram_answer-format :
      (total used free cache buffers percentage : ℕ)
      → total < 2 ^ 64
      → used < 2 ^ 64
      → free < 2 ^ 64
      → cache < 2 ^ 64
      → ram_answer K U J other stale
          (format ram_format (total ∷ used ∷ free ∷ cache ∷ buffers ∷ percentage ∷ []))
        ≡ object_of (codes "ram_stats") (
            (codes "total", total)
            ∷ (codes "used", used)
            ∷ (codes "free", free)
            ∷ (codes "cache", cache)
            ∷ (codes "percentage_used", stale 4)
            ∷ [])
  unfolding ram_answer
  ram_answer-format total used free cache buffers percentage a b c d =
      rw (ram_answer, sscanf-ram_format total used free cache buffers percentage a b c d) refl

  -- If the kernel's copy to the server succeeds, `handle_swap_info` answers with an object whose
  -- numbers are those of the kernel: the size of the swap, the difference of size and free part,
  -- and the free part, in kilobytes, modulo 2 ^ 64.
  pub handle_swap_info-Answers :
      (s : Machine K.World) (sys_info : SysInfo)
      → (K.si_swapinfo (U.memset 912 s.world)).0 ≡ sys_info
      → Answers
          (object_of (codes "swap_info") (
            (codes "total", in_kilobytes sys_info.totalswap)
            ∷ (codes "used", in_kilobytes (ulong_sub sys_info.totalswap sys_info.freeswap))
            ∷ (codes "free", in_kilobytes sys_info.freeswap)
            ∷ []))
          (handle_swap_info K U J other stale s)
  unfolding handle_swap_info
  handle_swap_info-Answers s sys_info e =
      rw
        (sym (
          swap_answer-format (in_kilobytes sys_info.totalswap)
            (in_kilobytes (ulong_sub sys_info.totalswap sys_info.freeswap))
            (in_kilobytes sys_info.freeswap) (omega arith) (omega arith) (omega arith)))
        (handle-Answers sys_get_swap_info (swap_answer K U J other stale) _ s
          (get_swap_info-Sends K U q (cleared s) sys_info e))

  -- If the kernel's copy to the server succeeds and neither the unit nor the size of the memory is
  -- zero, `handle_ram_stats` answers with the size, the used, the free and the cached memory of the
  -- kernel; but its `percentage_used` is what the variable held before: the percentage that the
  -- kernel computes is never read.
  pub handle_ram_stats-Answers :
      (s : Machine K.World) (inf : SysInfo) (file_pages : ℕ)
      → (K.si_meminfo (U.memset 912 s.world)).0 ≡ inf
      → (K.global_node_page_state nr_file_pages (K.si_meminfo (U.memset 912 s.world)).1).0
        ≡ file_pages
      → inf.mem_unit ≢ 0
      → total_mem inf ≢ 0
      → Answers
          (object_of (codes "ram_stats") (
            (codes "total", total_mem inf)
            ∷ (codes "used", used_mem inf (cached_mem inf file_pages))
            ∷ (codes "free", ulong_mul inf.freeram inf.mem_unit)
            ∷ (codes "cache", cached_mem inf file_pages)
            ∷ (codes "percentage_used", stale 4)
            ∷ []))
          (handle_ram_stats K U J other stale s)
  unfolding handle_ram_stats
  handle_ram_stats-Answers s inf file_pages e f unit total =
      rw
        (sym (
          ram_answer-format (total_mem inf) (used_mem inf (cached_mem inf file_pages))
            (ulong_mul inf.freeram inf.mem_unit) (cached_mem inf file_pages)
            (ulong_mul inf.bufferram inf.mem_unit)
            (percentage_used inf (used_mem inf (cached_mem inf file_pages))) (total_mem-lt inf)
            (used_mem-lt inf (cached_mem inf file_pages)) (omega arith)
            (cached_mem-lt inf file_pages)))
        (handle-Answers sys_get_ram_stats (ram_answer K U J other stale) _ s
          (get_ram_stats-Sends K U q (cleared s) inf file_pages e f unit total))
