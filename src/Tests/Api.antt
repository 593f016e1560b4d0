-- ===== src/Tests/Api.antt =====
-- The server with a kernel of fixed counters, and the theorems on the figures there.
use sistemas_operativos.Prelude.{ℕ, ◌≡◌, ◌≢◌, ◌+◌, ◌*◌, ◌/◌, ◌≤◌, refl, List, [], ◌∷◌, some, arith}
use sistemas_operativos.Prelude.Int.{negsuc}
use sistemas_operativos.Kernel.Machine.{Machine}
use sistemas_operativos.Text.{pieces, codes, decimal, decimal_fuel}
use sistemas_operativos.Stats.{
  page_size, cached_mem, used_mem, total_mem, percentage_used, get_swap_info, reply,
}
use sistemas_operativos.Stats.Arithmetic.{Consistent, used_mem-sum, percentage_used-le}
use sistemas_operativos.Api.{
  handle_swap_info, syscall, handle_ram_stats, handle_page_faults_info, handle_memory_pages_info,
  request_handler,
}
use sistemas_operativos.Api.Handlers.{
  Answers, object_of, handle_swap_info-Answers, handle_ram_stats-Answers,
}
use sistemas_operativos.Api.Pages.{
  handle_page_faults_info-Answers, handle_memory_pages_info-Answers,
}
use sistemas_operativos.Api.Errors.{swap, request_handler-Fails}
use sistemas_operativos.Tests.Server.{
  memory, counters, deaf_counters, server, deaf_server, server-Served, trees, trees-Documented,
  no_other, garbage, at_start, zeros,
}

decimal-0 : decimal 0 ≡ codes "0"
unfolding decimal_fuel
decimal-0 = refl

decimal-100 : decimal 100 ≡ codes "100"
unfolding decimal_fuel
decimal-100 = refl

memory-Consistent : Consistent memory 250
memory-Consistent = record {
  in_pages = refl;
  buffers = omega arith;
  pages = omega arith;
  fits = omega arith;
}

used_mem-sum_example :
    used_mem memory (cached_mem memory 250)
      + 300 * page_size
      + 50 * page_size
      + cached_mem memory 250
    ≡ total_mem memory
used_mem-sum_example = used_mem-sum memory 250 memory-Consistent

percentage_used-le_example :
    (percentage_used memory (used_mem memory (cached_mem memory 250))
      ≡ used_mem memory (cached_mem memory 250) * 100 / total_mem memory)
    × (percentage_used memory (used_mem memory (cached_mem memory 250)) ≤ 100)
percentage_used-le_example =
    percentage_used-le memory 250 (used_mem memory (cached_mem memory 250)) memory-Consistent
      (omega arith) (omega arith) refl

total_mem-memory : total_mem memory ≢ 0
unfolding total_mem
total_mem-memory = omega arith

handle_swap_info-Answers_example :
    Answers
      (object_of counters server trees no_other garbage server-Served trees-Documented
        (codes "swap_info")
        ((codes "total", 800) ∷ (codes "used", 480) ∷ (codes "free", 320) ∷ []))
      (handle_swap_info counters server trees no_other garbage at_start)
handle_swap_info-Answers_example =
    handle_swap_info-Answers counters server trees no_other garbage server-Served trees-Documented
      at_start memory refl

handle_ram_stats-Answers_example :
    Answers
      (object_of counters server trees no_other garbage server-Served trees-Documented
        (codes "ram_stats")
        ((codes "total", total_mem memory)
          ∷ (codes "used", used_mem memory (cached_mem memory 250))
          ∷ (codes "free", 1228800)
          ∷ (codes "cache", cached_mem memory 250)
          ∷ (codes "percentage_used", 7)
          ∷ []))
      (handle_ram_stats counters server trees no_other garbage at_start)
handle_ram_stats-Answers_example =
    handle_ram_stats-Answers counters server trees no_other garbage server-Served trees-Documented
      at_start memory 250 refl refl (omega arith) total_mem-memory

handle_page_faults_info-Answers_example :
    Answers
      (object_of counters server trees no_other garbage server-Served trees-Documented
        (codes "page_faults_info")
        ((codes "minor_faults", 210) ∷ (codes "major_faults", 30) ∷ []))
      (handle_page_faults_info counters server trees no_other garbage at_start)
handle_page_faults_info-Answers_example =
    handle_page_faults_info-Answers counters server trees no_other garbage server-Served
      trees-Documented at_start 250 40 30 (zeros 912) (zeros 912) (zeros 912) refl refl refl
      (omega arith)

handle_memory_pages_info-Answers_example :
    Answers
      (object_of counters server trees no_other garbage server-Served trees-Documented
        (codes "memory_pages_info")
        ((codes "active", 23) ∷ (codes "inactive", 27) ∷ []))
      (handle_memory_pages_info counters server trees no_other garbage at_start)
handle_memory_pages_info-Answers_example =
    handle_memory_pages_info-Answers counters server trees no_other garbage server-Served
      trees-Documented at_start 11 12 13 14 (zeros 912) (zeros 912) (zeros 912) (zeros 912) refl
      refl refl refl

abbrev after_failure : Machine (List ℕ)
after_failure = record { world = zeros 912; held = [] }

swap_fails :
    syscall deaf_counters deaf_server trees no_other garbage 470 912
      (record { world = zeros 912; held = [] })
    ≡ some (negsuc 13, after_failure)
unfolding syscall get_swap_info reply pieces decimal_fuel
swap_fails = refl

request_handler-Fails_example :
    request_handler deaf_counters deaf_server trees no_other garbage
      (codes "/swap_info")
      (codes "GET")
      at_start
    ≡ some (
      record {
        status = 500;
        headers = (codes "Access-Control-Allow-Origin", codes "*") ∷ [];
        body = [];
      },
      after_failure,
    )
request_handler-Fails_example =
    request_handler-Fails deaf_counters deaf_server trees no_other garbage at_start after_failure 13
      (codes "/swap_info") (codes "GET") 470 refl swap swap_fails
