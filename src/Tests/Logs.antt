-- ===== src/Tests/Logs.antt =====
-- The system call on the log, with a log of seven lines.
use sistemas_operativos.Prelude.{ℕ, ◌≡◌, refl, List, [], ◌∷◌, true, some}
use sistemas_operativos.Prelude.Int.{pos}
use sistemas_operativos.Kernel.Machine.{Machine}
use sistemas_operativos.Logs.{LogKernel, retrieve_last_five_logs}
use sistemas_operativos.Logs.Outcome.{Ends, retrieve_last_five_logs-Ends}

abbrev pub log_lines : List (List ℕ)
log_lines =
    (1 ∷ []) ∷ (2 ∷ 2 ∷ []) ∷ (3 ∷ []) ∷ (4 ∷ 4 ∷ []) ∷ (5 ∷ []) ∷ (6 ∷ []) ∷ (7 ∷ 7 ∷ 7 ∷ []) ∷ []

-- The world is the buffer of the user.
abbrev pub log_kernel : LogKernel
log_kernel = record {
  World = List ℕ;
  UserPtr = Unit {0};
  kzalloc = λ n w. (true, w);
  kmalloc = λ n w. (true, w);
  kmsg_lines = λ w. (log_lines, w);
  copy_to_user = λ p bytes w. (0, bytes);
}

abbrev pub idle : Machine (List ℕ)
idle = record { world = []; held = [] }

last_five :
    retrieve_last_five_logs log_kernel tt 1024 idle
    ≡ some (pos 8, record { world = 3 ∷ 4 ∷ 4 ∷ 5 ∷ 6 ∷ 7 ∷ 7 ∷ 7 ∷ []; held = [] })
unfolding retrieve_last_five_logs
last_five = refl

retrieve_last_five_logs-Ends_example :
    Ends 1024 idle (retrieve_last_five_logs log_kernel tt 1024 idle)
retrieve_last_five_logs-Ends_example = retrieve_last_five_logs-Ends log_kernel tt 1024 idle
