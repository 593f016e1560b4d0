-- ===== src/Tests/Procesos.antt =====
-- The system call on the processes, with two user processes and a kernel thread between them.
use sistemas_operativos.Api.Processes.{ProcOps, Steady, proc_calls, get_system_info-Answers}
use sistemas_operativos.Api.Handlers.{Answers}
use sistemas_operativos.Api.{get_system_info, sys_procesos_info}
use sistemas_operativos.Tests.Server.{
  counters, server, server-Served, trees, garbage, at_start, zeros,
}
use sistemas_operativos.Prelude.{
  ℕ, ◌≡◌, refl, List, [], ◌∷◌, true, none, some, length-replicate, replicate, take, arith, zero,
  suc, ap,
}
use sistemas_operativos.Prelude.Int.{pos}
use sistemas_operativos.Kernel.Machine.{Machine}
use sistemas_operativos.Text.{codes, decimal_fuel, c_string}
use sistemas_operativos.Procesos.{ProcKernel, Task, info_of, procesos_info}
use sistemas_operativos.Procesos.Json.{JsonText, report}
use sistemas_operativos.Procesos.Outcome.{answer, procesos_info-answer}
use sistemas_operativos.Procesos.Fault.{procesos_info-fault}

abbrev init : Task
init = record {
  pid = pos 1;
  mm = some 3;
  utime = 40;
  stime = 10;
  comm = 105 ∷ 110 ∷ 105 ∷ 116 ∷ 0 ∷ [];
}

abbrev kthread : Task
kthread = record { pid = pos 2; mm = none; utime = 7; stime = 7; comm = 107 ∷ 0 ∷ [] }

abbrev shell : Task
shell = record { pid = pos 77; mm = some 1; utime = 2; stime = 1; comm = 115 ∷ 104 ∷ 0 ∷ 9 ∷ [] }

-- The world is the buffer of the user; the system has been up for `ns` nanoseconds.
abbrev proc_kernel : ℕ → ProcKernel
proc_kernel ns = record {
  World = List ℕ;
  UserPtr = Unit {0};
  ktime_get_ns = λ w. (ns, w);
  kmalloc_array = λ n w. (true, w);
  kmalloc = λ n w. (true, w);
  heap = λ n w. replicate n 7;
  processes = λ w. init ∷ kthread ∷ shell ∷ [];
  copy_to_user = λ p bytes w. (0, bytes);
}

abbrev before : Machine (List ℕ)
before = record { world = []; held = [] }

two_processes :
    procesos_info (proc_kernel 10000000000) tt 256 before
    ≡ some (
      pos 0,
      record {
        world =
            codes
              "{\n  \"Procesos_que_mas_memoria_usan\": [\n    { \"pid\": 1, \"name\": \"init\", \"rss\": 12288, \"cpu_time\": 50, \"cpu_percentage\": 500 },\n    { \"pid\": 77, \"name\": \"sh\", \"rss\": 4096, \"cpu_time\": 3, \"cpu_percentage\": 30 }\n  ]\n}\n";
        held = [];
      },
    )
unfolding procesos_info decimal_fuel c_string
two_processes = refl

procesos_info-answer_example :
    (text : List ℕ) × JsonText (report 10 (init ∷ kthread ∷ shell ∷ [])) text
    × (procesos_info (proc_kernel 10000000000) tt 912 before
        ≡ answer (proc_kernel 10000000000) tt 912 text before)
unfolding c_string
procesos_info-answer_example =
    procesos_info-answer (proc_kernel 10000000000) tt 912 (omega arith) (omega arith)
      (λ w. length-replicate {A = ℕ} 912 7) before (λ w. omega arith) (λ w. refl)

procesos_info-fault_example : procesos_info (proc_kernel 5) tt 912 before ≡ none
procesos_info-fault_example =
    procesos_info-fault (proc_kernel 5) tt 912 before (info_of 0 init 3) (info_of 0 shell 1 ∷ [])
      (omega arith) refl refl

-- The server in front of this kernel.
abbrev proc_ops : ProcOps counters
proc_ops = record {
  ktime_get_ns = λ w. (10000000000, w);
  kmalloc_array = λ n w. (true, w);
  kmalloc = λ n w. (true, w);
  heap = λ n w. replicate n 7;
  processes = λ w. init ∷ kthread ∷ shell ∷ [];
}

zeros-replicate : (n : ℕ) → zeros n ≡ replicate n 0
zeros-replicate zero = refl
zeros-replicate (suc n) = ap (λ l. 0 ∷ l) (zeros-replicate n)

proc_ops-Steady : Steady counters server proc_ops
proc_ops-Steady = record {
  up = λ w. omega arith;
  array_given = λ n w. refl;
  given = λ n w. refl;
  heap-length = λ n w. length-replicate {A = ℕ} n 7;
  content-ktime = λ w. refl;
  content-array = λ n w. refl;
  content-kmalloc = λ n w. refl;
  content-memset = λ n w. zeros-replicate n;
}

get_system_info-Answers_example :
    (text : List ℕ) × JsonText (report 10 (init ∷ kthread ∷ shell ∷ [])) text
    × Answers
        (trees.add_string_to_object trees.create_object (codes "data") (some (take 911 text)))
        (get_system_info counters server trees
          (proc_calls counters proc_ops)
          garbage
          sys_procesos_info
          at_start)
unfolding c_string
get_system_info-Answers_example =
    get_system_info-Answers counters server proc_ops server-Served proc_ops-Steady at_start trees
      garbage (λ w. refl)
