-- ===== src/Api/Errors.antt =====
-- What the server answers where a system call fails.
use sistemas_operativos.Prelude.{ℕ, ◌≡◌, refl, List, [], ◌∷◌, none, some, false}
use sistemas_operativos.Prelude.Int.{ℤ, negsuc}
use sistemas_operativos.Kernel.Machine.{M, Machine, ◌>>=◌}
use sistemas_operativos.Text.{codes, streq}
use sistemas_operativos.Stats.{Counters}
use sistemas_operativos.Stats.Reply.{UserBuffer}
use sistemas_operativos.Api.{
  syscall, get_system_info, handle, handle_procesos_info, handle_ram_stats, handle_swap_info,
  handle_page_faults_info, handle_memory_pages_info, route, respond, request_handler, ram_answer,
  swap_answer, faults_answer, pages_answer, sys_get_ram_stats, sys_get_swap_info,
  sys_get_page_faults_info, sys_get_memory_pages_info, sys_procesos_info,
}
use sistemas_operativos.Api.Json.{CJson}

-- The addresses, each with the number of its system call.
pub data Endpoint : List ℕ → ℕ → Type 0 where
  ram : Endpoint (codes "/ram_stats") sys_get_ram_stats
  swap : Endpoint (codes "/swap_info") sys_get_swap_info
  page_faults : Endpoint (codes "/page_faults_info") sys_get_page_faults_info
  memory_pages : Endpoint (codes "/memory_pages_info") sys_get_memory_pages_info
  procesos : Endpoint (codes "/procesos_info") sys_procesos_info

module _ (K : Counters) (U : UserBuffer K) (J : CJson) (other : ℕ → K.UserPtr → ℕ → M K.World ℤ)
    (stale : ℕ → ℕ) (s s' : Machine K.World) (e : ℕ) where
  -- The system call of this number returns an error.
  abbrev pub Fails : ℕ → Type 0
  Fails number =
      syscall K U J other stale number 912 (record s { world = U.memset 912 s.world })
      ≡ some (negsuc e, s')

  get_system_info-none :
      (number : ℕ) → Fails number → get_system_info K U J other stale number s ≡ some (none, s')
  unfolding get_system_info
  get_system_info-none number fails = rw (get_system_info, ◌>>=◌, fails) refl

  handle-none :
      (number : ℕ) (answer : List ℕ → J.Json)
      → Fails number
      → handle K U J other stale number answer s ≡ some (none, s')
  unfolding handle
  handle-none number answer fails = rw (handle, ◌>>=◌, get_system_info-none number fails) refl

  handle_procesos_info-none :
      Fails sys_procesos_info → handle_procesos_info K U J other stale s ≡ some (none, s')
  unfolding handle_procesos_info
  handle_procesos_info-none fails =
      rw (handle_procesos_info, ◌>>=◌, get_system_info-none sys_procesos_info fails) refl

  route-none :
      (url : List ℕ) (number : ℕ)
      → Endpoint url number
      → Fails number
      → route K U J other stale url s ≡ some (none, s')
  unfolding route handle_ram_stats handle_swap_info handle_page_faults_info handle_memory_pages_info
  route-none _ _ ram fails = handle-none sys_get_ram_stats (ram_answer K U J other stale) fails
  route-none _ _ swap fails = handle-none sys_get_swap_info (swap_answer K U J other stale) fails
  route-none _ _ page_faults fails =
      handle-none sys_get_page_faults_info (faults_answer K U J other stale) fails
  route-none _ _ memory_pages fails =
      handle-none sys_get_memory_pages_info (pages_answer K U J other stale) fails
  route-none _ _ procesos fails = handle_procesos_info-none fails

  -- If the system call of an address returns an error, a request for the address that is not
  -- OPTIONS is answered with status 500 and an empty body, in the state that the call left behind.
  pub request_handler-Fails :
      (url method : List ℕ) (number : ℕ)
      → streq method (codes "OPTIONS") ≡ false
      → Endpoint url number
      → Fails number
      → request_handler K U J other stale url method s
        ≡ some (
          record {
            status = 500;
            headers = (codes "Access-Control-Allow-Origin", codes "*") ∷ [];
            body = [];
          },
          s',
        )
  unfolding request_handler respond
  request_handler-Fails url method number other_method known fails =
      rw (request_handler, other_method, ◌>>=◌, route-none url number known fails) refl
