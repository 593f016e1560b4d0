-- ===== src/Procesos.antt =====
-- The system call procesos_info of Proyecto/linux-6.6.44/kernel/my_sys.c: it collects the processes
-- that have memory of their own and writes the first five of them as JSON.
pub mod Document
pub mod Printed
pub mod Outcome
pub mod Fault
pub mod Json
pub mod Valid
use sistemas_operativos.Prelude.{
  ℕ, suc, ◌+◌, ◌-◌, ◌*◌, ◌/◌, ◌%◌, ◌^◌, List, [], ◌∷◌, ◌++◌, Bool, true, false, ◌||◌, ◌==◌, ltb,
  if◌then◌else◌, Option, none, some, take, length,
}
use sistemas_operativos.Prelude.Int.{ℤ, pos, negsuc}
use sistemas_operativos.Kernel.Errno.{minus_enomem, minus_efault}
use sistemas_operativos.Kernel.Machine.{
  M, ◌>>=◌, ◌>>◌, pure, oops, call, look, acquire, release, procs, output,
}
use sistemas_operativos.Text.{codes, decimal, c_string}
use sistemas_operativos.Text.Buffer.{strlen, write, append_text}
use sistemas_operativos.Stats.{ulong_add, ulong_mul, page_size}

-- `struct task_struct`, as far as it is used: `mm` is the value of `get_mm_rss`, if the pointer is
-- not null, and `comm` the bytes of the name.
pub record Task : Type 0 where
  pub pid : ℤ
  pub mm : Option ℕ
  pub utime : ℕ
  pub stime : ℕ
  pub comm : List ℕ

-- `struct proc_mem_info`; `comm` is the string in the array.
pub record ProcMemInfo : Type 0 where
  pub pid : ℤ
  pub rss : ℕ
  pub cpu_time : ℕ
  pub comm : List ℕ
  pub cpu_percentage : ℕ

-- What the call uses of the kernel.
pub record ProcKernel : Type 1 where
  pub World : Type 0
  pub UserPtr : Type 0
  pub ktime_get_ns : World → ℕ × World
  -- Whether the block is given.
  pub kmalloc_array : ℕ → World → Bool × World
  pub kmalloc : ℕ → World → Bool × World
  -- The bytes that a block of this size happens to hold.
  pub heap : ℕ → World → List ℕ
  -- The processes, in the order of `for_each_process`.
  pub processes : World → List Task
  -- The number of bytes that could not be copied.
  pub copy_to_user : UserPtr → List ℕ → World → ℕ × World

abbrev pub max_procs : ℕ
max_procs = 1024

abbrev pub task_comm_len : ℕ
task_comm_len = 16

-- The entry of one process, where the system has been up for `seconds`.
abbrev pub info_of : ℕ → Task → ℕ → ProcMemInfo
info_of seconds task rss =
    let task_total_time = ulong_add task.utime task.stime in
    record {
      pid = task.pid;
      rss = ulong_mul rss page_size;
      cpu_time = task_total_time;
      comm = c_string (take task_comm_len task.comm);
      cpu_percentage = ulong_mul task_total_time 100 / seconds;
    }

-- The loop over the processes; a division by zero faults.
unfoldable pub collect : ℕ → List Task → List ProcMemInfo → Option (List ProcMemInfo)
collect seconds [] found = some found
collect seconds (task ∷ tasks) found =
    let skipped = collect seconds tasks found in
    elim task.mm [
      | none ↦ skipped
      | some rss ↦
          let taken = collect seconds tasks (found ++ (info_of seconds task rss ∷ [])) in
          if ltb (length found) max_procs then if seconds == 0 then none else taken else skipped
    ]

-- `%d`
abbrev pub print_int : ℤ → List ℕ
print_int (pos n) = decimal n
print_int (negsuc n) = 45 ∷ decimal (n + 1)

-- The members of the object of one process.
unfoldable pub members : ProcMemInfo → List ℕ
members p =
    codes "    { \"pid\": "
    ++ (print_int p.pid
        ++ (codes ", \"name\": \""
            ++ (p.comm
                ++ (codes "\", \"rss\": "
                    ++ (decimal p.rss
                        ++ (codes ", \"cpu_time\": "
                            ++ (decimal p.cpu_time
                                ++ (codes ", \"cpu_percentage\": "
                                    ++ (decimal p.cpu_percentage ++ codes " }")))))))))

abbrev pub entry : Bool → ProcMemInfo → List ℕ
entry last p = members p ++ ((if last then [] else codes ",") ++ codes "\n")

-- The loop over the first five, from the one with index `i` on.
unfoldable pub print_entries : ℕ → ℕ → List ProcMemInfo → List ℕ → Option (List ℕ)
unfolding append_text members
print_entries count i [] buffer = some buffer
print_entries count i (p ∷ ps) buffer =
    if ltb i 5
    then elim (append_text buffer (entry (i == 4 || i == count - 1) p)) [
      | none ↦ none
      | some b ↦ print_entries count (i + 1) ps b
    ]
    else some buffer

abbrev pub opening : List ℕ
opening = codes "{\n  \"Procesos_que_mas_memoria_usan\": [\n"

abbrev pub closing : List ℕ
closing = codes "  ]\n}\n"

-- All that is written to the buffer.
unfoldable pub print_all : List ProcMemInfo → List ℕ → Option (List ℕ)
unfolding write append_text print_entries
print_all ps buffer = elim (print_entries (length ps) 0 ps (write buffer opening)) [
  | none ↦ none
  | some b ↦ append_text b closing
]

-- A `size_t` that goes through an `int`.
abbrev pub through_int : ℕ → ℕ
through_int size = let n = size % 2 ^ 32 in if ltb n (2 ^ 31) then n else n + (2 ^ 64 - 2 ^ 32)

abbrev is_zero : ℤ → Bool
is_zero (pos n) = n == 0
is_zero (negsuc n) = false

module _ (K : ProcKernel) where
  open K use {World, UserPtr}

  -- The result, and the array.
  unfoldable pub obtener_info_procesos : M World (ℤ × List ProcMemInfo)
  unfolding collect
  obtener_info_procesos = do
    total_time_ns ← call K.ktime_get_ns
    given ← call (K.kmalloc_array max_procs)
    tasks ← look K.processes
    if given
        then (acquire procs >> elim (collect (total_time_ns / 1000000000) tasks []) [
          | none ↦ oops
          | some found ↦ pure (pos 0, found)
        ])
        else pure (minus_enomem, [])

  unfoldable pub free_both : ℤ → M World ℤ
  free_both result = release procs >> release output >> pure result

  unfoldable pub copy_output : UserPtr → List ℕ → M World ℤ
  unfolding strlen free_both
  copy_output buffer text = elim (strlen text) [
    | none ↦ oops
    | some n ↦ call (K.copy_to_user buffer (take n text)) >>= λ left.
        if left == 0 then free_both (pos 0) else free_both minus_efault
  ]

  unfoldable pub write_output : UserPtr → ℕ → List ProcMemInfo → M World ℤ
  unfolding print_all copy_output
  write_output buffer output_size ps = look (λ w. print_all ps (K.heap output_size w)) >>= λ text.
      elim text [ none ↦ oops | some t ↦ copy_output buffer t ]

  unfoldable pub allocate_output : UserPtr → ℕ → List ProcMemInfo → M World ℤ
  unfolding write_output
  allocate_output buffer output_size ps = call (K.kmalloc output_size) >>= λ given.
      if given
      then (acquire output >> write_output buffer output_size ps)
      else (release procs >> pure minus_enomem)

  unfoldable pub procesos_info : UserPtr → ℕ → M World ℤ
  unfolding obtener_info_procesos allocate_output
  procesos_info buffer size = obtener_info_procesos >>= λ r.
      if is_zero r.0 then allocate_output buffer (through_int size) r.1 else pure r.0
