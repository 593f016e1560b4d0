-- ===== src/Api.antt =====
-- Proyecto/Api/Backend/api_syscalls.c: the server that turns the texts of the system calls into
-- JSON. The kernel is the one of the system calls, cJSON is a parameter, and a response is the
-- value that libmicrohttpd is given to send.
pub mod Json
pub mod Formats
pub mod Handlers
pub mod Pages
pub mod Processes
pub mod Errors
use Prim.Native.String.{String}
use sistemas_operativos.Prelude.{
  ℕ, List, [], ◌∷◌, Option, none, some, Bool, true, false, ◌==◌, if◌then◌else◌, get_or,
}
use sistemas_operativos.Prelude.Int.{ℤ, pos, negsuc}
use sistemas_operativos.Kernel.Machine.{M, ◌>>=◌, pure, oops, call, look}
use sistemas_operativos.Text.{Directive, pieces, codes, sscanf, c_string, streq}
use sistemas_operativos.Stats.{
  Counters, get_ram_stats, get_swap_info, get_page_faults_info, get_memory_pages_info,
}
use sistemas_operativos.Stats.Reply.{UserBuffer}
use sistemas_operativos.Api.Json.{CJson}

abbrev pub sys_get_ram_stats : ℕ
sys_get_ram_stats = 469

abbrev pub sys_get_swap_info : ℕ
sys_get_swap_info = 470

abbrev pub sys_get_page_faults_info : ℕ
sys_get_page_faults_info = 471

abbrev pub sys_get_memory_pages_info : ℕ
sys_get_memory_pages_info = 472

abbrev pub sys_procesos_info : ℕ
sys_procesos_info = 473

unfoldable pub ram_scan : List Directive
ram_scan = pieces (
    "\"ram_stats\": {\n  \"total\": " ∷ ",\n  \"used\": " ∷ ",\n  \"free\": " ∷ ",\n  \"cache\": "
    ∷ ",\n  \"percentage_used\": " ∷ "\n}" ∷ [])

unfoldable pub swap_scan : List Directive
swap_scan =
    pieces ("\"swap_info\": {\n  \"total\": " ∷ ",\n  \"used\": " ∷ ",\n  \"free\": " ∷ "\n}" ∷ [])

unfoldable pub faults_scan : List Directive
faults_scan =
    pieces
      ("\"page_faults_info\": {\n  \"minor_faults\": " ∷ ",\n  \"major_faults\": " ∷ "\n}" ∷ [])

unfoldable pub pages_scan : List Directive
pages_scan =
    pieces ("\"memory_pages_info\": {\n  \"active\": " ∷ ",\n  \"inactive\": " ∷ "\n}" ∷ [])

pub record Response : Type 0 where
  pub status : ℕ
  pub headers : List (List ℕ × List ℕ)
  pub body : List ℕ

abbrev is_zero : ℤ → Bool
is_zero (pos n) = n == 0
is_zero (negsuc n) = false

abbrev header : String → String → List ℕ × List ℕ
header name value = (codes name, codes value)

-- `other` are the system calls of the other numbers, by number, buffer and size. A variable that
-- `sscanf` does not assign has what the stack held, `stale`, by its place among the variables.
module _ (K : Counters) (U : UserBuffer K) (J : CJson) (other : ℕ → K.UserPtr → ℕ → M K.World ℤ)
    (stale : ℕ → ℕ) where
  open K use {World}
  open J use {Json, create_object, add_number_to_object}

  unfoldable pub syscall : ℕ → ℕ → M World ℤ
  unfolding get_ram_stats get_swap_info get_page_faults_info get_memory_pages_info
  syscall number size =
      if number == sys_get_ram_stats
      then get_ram_stats K U.buffer
      else if number == sys_get_swap_info
      then get_swap_info K U.buffer
      else if number == sys_get_page_faults_info
      then get_page_faults_info K U.buffer
      else if number == sys_get_memory_pages_info
      then get_memory_pages_info K U.buffer
      else other number U.buffer size

  unfoldable pub get_system_info : ℕ → M World (Option Json)
  unfolding syscall c_string
  get_system_info syscall_num = do
    _ ← call (λ w. (tt, U.memset 912 w))
    result ← syscall syscall_num 912
    data_string ← look (λ w. c_string (U.content w))
    if is_zero result
        then pure (some (J.add_string_to_object create_object (codes "data") (some data_string)))
        else pure none

  -- What a handler does with the pointer that `cJSON_GetObjectItem(…)->valuestring` gives; the
  -- member of a null pointer faults.
  unfoldable pub valuestring_of : Json → List ℕ → M World (Option (List ℕ))
  valuestring_of json name = elim (J.get_object_item json name) [
    | none ↦ oops
    | some item ↦ pure (J.valuestring item)
  ]

  unfoldable pub valuedouble_of : Json → List ℕ → M World J.Number
  valuedouble_of json name = elim (J.get_object_item json name) [
    | none ↦ oops
    | some item ↦ pure (J.valuedouble item)
  ]

  -- The answer of one of the four calls on the memory, put into a new object; a null pointer, where
  -- there was no answer.
  unfoldable pub handle : ℕ → (List ℕ → Json) → M World (Option Json)
  unfolding get_system_info valuestring_of
  handle syscall_num answer = get_system_info syscall_num >>= λ info. elim info [
    | none ↦ pure none
    | some json ↦ valuestring_of json (codes "data") >>= λ text. elim text [
      | none ↦ oops
      | some s ↦ pure (some (answer s))
    ]
  ]

  -- The variable in this place, after `sscanf`.
  abbrev pub scanned : List ℕ → ℕ → J.Number
  scanned values i = J.number_of (get_or values i (stale i))

  unfoldable pub ram_answer : List ℕ → Json
  unfolding sscanf ram_scan
  ram_answer text =
      let values = sscanf ram_scan text in
      let with_total = add_number_to_object create_object (codes "total") (scanned values 0) in
      let with_used = add_number_to_object with_total (codes "used") (scanned values 1) in
      let with_free = add_number_to_object with_used (codes "free") (scanned values 2) in
      let with_cache = add_number_to_object with_free (codes "cache") (scanned values 3) in
      let with_percentage_used =
        add_number_to_object with_cache (codes "percentage_used") (scanned values 4) in
      J.add_item_to_object create_object (codes "ram_stats") with_percentage_used

  unfoldable pub handle_ram_stats : M World (Option Json)
  unfolding handle ram_answer
  handle_ram_stats = handle sys_get_ram_stats ram_answer

  unfoldable pub swap_answer : List ℕ → Json
  unfolding sscanf swap_scan
  swap_answer text =
      let values = sscanf swap_scan text in
      let with_total = add_number_to_object create_object (codes "total") (scanned values 0) in
      let with_used = add_number_to_object with_total (codes "used") (scanned values 1) in
      let with_free = add_number_to_object with_used (codes "free") (scanned values 2) in
      J.add_item_to_object create_object (codes "swap_info") with_free

  unfoldable pub handle_swap_info : M World (Option Json)
  unfolding handle swap_answer
  handle_swap_info = handle sys_get_swap_info swap_answer

  unfoldable pub faults_answer : List ℕ → Json
  unfolding sscanf faults_scan
  faults_answer text =
      let values = sscanf faults_scan text in
      let with_minor_faults =
        add_number_to_object create_object (codes "minor_faults") (scanned values 0) in
      let with_major_faults =
        add_number_to_object with_minor_faults (codes "major_faults") (scanned values 1) in
      J.add_item_to_object create_object (codes "page_faults_info") with_major_faults

  unfoldable pub handle_page_faults_info : M World (Option Json)
  unfolding handle faults_answer
  handle_page_faults_info = handle sys_get_page_faults_info faults_answer

  unfoldable pub pages_answer : List ℕ → Json
  unfolding sscanf pages_scan
  pages_answer text =
      let values = sscanf pages_scan text in
      let with_active = add_number_to_object create_object (codes "active") (scanned values 0) in
      let with_inactive = add_number_to_object with_active (codes "inactive") (scanned values 1) in
      J.add_item_to_object create_object (codes "memory_pages_info") with_inactive

  unfoldable pub handle_memory_pages_info : M World (Option Json)
  unfolding handle pages_answer
  handle_memory_pages_info = handle sys_get_memory_pages_info pages_answer

  unfoldable pub new_process : Json → M World Json
  unfolding valuestring_of valuedouble_of
  new_process process = do
    pid ← valuedouble_of process (codes "pid")
    name ← valuestring_of process (codes "name")
    rss ← valuedouble_of process (codes "rss")
    cpu_time ← valuedouble_of process (codes "cpu_time")
    let with_pid = add_number_to_object create_object (codes "pid") pid
    let with_name = J.add_string_to_object with_pid (codes "name") name
    let with_rss = add_number_to_object with_name (codes "rss") rss
    pure (add_number_to_object with_rss (codes "cpu_time") cpu_time)

  unfoldable pub new_processes : List Json → Json → M World Json
  unfolding new_process
  new_processes [] new_process_array = pure new_process_array
  new_processes (process ∷ rest) new_process_array = do
    added ← new_process process
    new_processes rest (J.add_item_to_array new_process_array added)

  unfoldable pub processes_answer : Option Json → M World (Option Json)
  unfolding new_processes
  processes_answer none = pure none
  processes_answer (some process_array) =
      if J.is_array process_array
      then (new_processes (J.elements process_array) J.create_array >>= λ array.
          pure (
            some
              (J.add_item_to_object create_object (codes "Procesos_que_mas_memoria_usan") array)))
      else pure none

  unfoldable pub parsed_answer : Option (List ℕ) → M World (Option Json)
  unfolding processes_answer
  parsed_answer none = pure none
  parsed_answer (some text) = elim (J.parse text) [
    | none ↦ pure none
    | some parsed ↦
        processes_answer (J.get_object_item parsed (codes "Procesos_que_mas_memoria_usan"))
  ]

  unfoldable pub handle_procesos_info : M World (Option Json)
  unfolding get_system_info parsed_answer valuestring_of
  handle_procesos_info = get_system_info sys_procesos_info >>= λ info. elim info [
    | none ↦ pure none
    | some json ↦ valuestring_of json (codes "data") >>= parsed_answer
  ]

  unfoldable pub route : List ℕ → M World (Option Json)
  unfolding handle_ram_stats handle_swap_info handle_page_faults_info handle_memory_pages_info
      handle_procesos_info
  route url =
      if streq url (codes "/ram_stats")
      then handle_ram_stats
      else if streq url (codes "/swap_info")
      then handle_swap_info
      else if streq url (codes "/page_faults_info")
      then handle_page_faults_info
      else if streq url (codes "/memory_pages_info")
      then handle_memory_pages_info
      else if streq url (codes "/procesos_info")
      then handle_procesos_info
      else pure (
          some (
            J.add_string_to_object create_object (codes "error") (some (codes "Invalid endpoint"))))

  unfoldable pub respond : Option Json → Response
  respond (some json_response) = record {
    status = 200;
    headers =
        header "Content-Type" "application/json"
        ∷ header "Access-Control-Allow-Origin" "*"
        ∷ header "Access-Control-Allow-Methods" "GET, OPTIONS"
        ∷ header "Access-Control-Allow-Headers" "Content-Type"
        ∷ [];
    body = J.print json_response;
  }
  respond none = record {
    status = 500;
    headers = header "Access-Control-Allow-Origin" "*" ∷ [];
    body = [];
  }

  -- The response that is queued for a request.
  unfoldable pub request_handler : List ℕ → List ℕ → M World Response
  unfolding route respond
  request_handler url method =
      if streq method (codes "OPTIONS")
      then pure (record {
        status = 200;
        headers =
            header "Access-Control-Allow-Origin" "*"
            ∷ header "Access-Control-Allow-Methods" "GET, OPTIONS"
            ∷ header "Access-Control-Allow-Headers" "Content-Type"
            ∷ [];
        body = [];
      })
      else (route url >>= λ json_response. pure (respond json_response))
