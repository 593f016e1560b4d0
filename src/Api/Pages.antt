-- ===== src/Api/Pages.antt =====
-- What the server answers with the counts of pages.
use sistemas_operativos.Prelude.{ℕ, ◌^◌, ◌<◌, ◌≡◌, refl, sym, [], ◌∷◌, arith}
use sistemas_operativos.Prelude.Int.{ℤ}
use sistemas_operativos.Kernel.Machine.{M, Machine}
use sistemas_operativos.Text.{codes, format}
use sistemas_operativos.Stats.{
  Counters, nr_file_pages, nr_free_pages, nr_file_mapped, nr_active_anon, nr_active_file,
  nr_inactive_anon, nr_inactive_file, ulong_add, ulong_sub, faults_format, pages_format,
}
use sistemas_operativos.Stats.Reply.{UserBuffer, Served}
use sistemas_operativos.Stats.Texts.{get_page_faults_info-Sends, get_memory_pages_info-Sends}
use sistemas_operativos.Api.{
  faults_answer, pages_answer, handle_page_faults_info, handle_memory_pages_info,
  sys_get_page_faults_info, sys_get_memory_pages_info,
}
use sistemas_operativos.Api.Json.{CJson, Documented}
use sistemas_operativos.Api.Formats.{sscanf-faults_format, sscanf-pages_format}
use sistemas_operativos.Api.Handlers.{Answers, cleared, object_of, handle-Answers}

module _ (K : Counters) (U : UserBuffer K) (J : CJson) (other : ℕ → K.UserPtr → ℕ → M K.World ℤ)
    (stale : ℕ → ℕ) (q : Served K U) (doc : Documented J) where
  faults_answer-format :
      (minor major : ℕ)
      → minor < 2 ^ 64
      → major < 2 ^ 64
      → faults_answer K U J other stale (format faults_format (minor ∷ major ∷ []))
        ≡ object_of K U J other stale q doc
            (codes "page_faults_info")
            ((codes "minor_faults", minor) ∷ (codes "major_faults", major) ∷ [])
  unfolding faults_answer
  faults_answer-format minor major a b =
      rw (faults_answer, sscanf-faults_format minor major a b) refl

  pages_answer-format :
      (active inactive : ℕ)
      → active < 2 ^ 64
      → inactive < 2 ^ 64
      → pages_answer K U J other stale (format pages_format (active ∷ inactive ∷ []))
        ≡ object_of K U J other stale q doc
            (codes "memory_pages_info")
            ((codes "active", active) ∷ (codes "inactive", inactive) ∷ [])
  unfolding pages_answer
  pages_answer-format active inactive a b =
      rw (pages_answer, sscanf-pages_format active inactive a b) refl

  -- If the kernel's copy to the server succeeds and the counter of mapped pages has 64 bits,
  -- `handle_page_faults_info` answers with an object that has the difference of the kernel's two
  -- counters, modulo 2 ^ 64, and the third counter.
  pub handle_page_faults_info-Answers :
      (s : Machine K.World) (file_pages free_pages mapped : ℕ) (w_1 w_2 w_3 : K.World)
      → K.global_node_page_state nr_file_pages (U.memset 912 s.world) ≡ (file_pages, w_1)
      → K.global_node_page_state nr_free_pages w_1 ≡ (free_pages, w_2)
      → K.global_node_page_state nr_file_mapped w_2 ≡ (mapped, w_3)
      → mapped < 2 ^ 64
      → Answers
          (object_of K U J other stale q doc (codes "page_faults_info") (
            (codes "minor_faults", ulong_sub file_pages free_pages)
            ∷ (codes "major_faults", mapped)
            ∷ []))
          (handle_page_faults_info K U J other stale s)
  unfolding handle_page_faults_info
  handle_page_faults_info-Answers s file_pages free_pages mapped w_1 w_2 w_3 e f g h =
      rw (sym (faults_answer-format (ulong_sub file_pages free_pages) mapped (omega arith) h)) (
        handle-Answers K U J other stale q doc sys_get_page_faults_info
          (faults_answer K U J other stale) _ s
          (get_page_faults_info-Sends K U q (cleared K U J other stale q doc s) file_pages
            free_pages mapped w_1 w_2 w_3 e f g))

  -- If the kernel's copy to the server succeeds, `handle_memory_pages_info` answers with an object
  -- that has the two sums of the kernel's counters, modulo 2 ^ 64.
  pub handle_memory_pages_info-Answers :
      (s : Machine K.World) (active_anon active_file inactive_anon inactive_file : ℕ)
      (w_1 w_2 w_3 w_4 : K.World)
      → K.global_node_page_state nr_active_anon (U.memset 912 s.world) ≡ (active_anon, w_1)
      → K.global_node_page_state nr_active_file w_1 ≡ (active_file, w_2)
      → K.global_node_page_state nr_inactive_anon w_2 ≡ (inactive_anon, w_3)
      → K.global_node_page_state nr_inactive_file w_3 ≡ (inactive_file, w_4)
      → Answers
          (object_of K U J other stale q doc (codes "memory_pages_info") (
            (codes "active", ulong_add active_anon active_file)
            ∷ (codes "inactive", ulong_add inactive_anon inactive_file)
            ∷ []))
          (handle_memory_pages_info K U J other stale s)
  unfolding handle_memory_pages_info
  handle_memory_pages_info-Answers s active_anon active_file inactive_anon inactive_file w_1 w_2 w_3
        w_4 e f g h =
      rw
        (sym (
          pages_answer-format (ulong_add active_anon active_file)
            (ulong_add inactive_anon inactive_file) (omega arith) (omega arith)))
        (handle-Answers K U J other stale q doc sys_get_memory_pages_info
          (pages_answer K U J other stale) _ s
          (get_memory_pages_info-Sends K U q (cleared K U J other stale q doc s) active_anon
            active_file inactive_anon inactive_file w_1 w_2 w_3 w_4 e f g h))
