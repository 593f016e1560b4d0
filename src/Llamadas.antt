-- ===== src/Llamadas.antt =====
-- The program Practica1/llamadas/llamadas_al_sistema.c and the two calls on the clocks of
-- Practica1/linux-6.6.44/kernel/sys.c that it makes beside the one on the log. What the program
-- prints is a list with the arguments of each printf and perror; the printing is the library's.
pub mod Printed
use sistemas_operativos.Prelude.{ℕ, List, [], ◌∷◌, if◌then◌else◌}
use sistemas_operativos.Prelude.Int.{ℤ}
use sistemas_operativos.Kernel.Errno.{to_int}
use sistemas_operativos.Kernel.Machine.{M, ◌>>=◌, pure, call, look}
use sistemas_operativos.App.{is_minus_one, exit_success, exit_failure}
use sistemas_operativos.Creds.{is_negative}
use sistemas_operativos.Logs.{LogKernel, retrieve_last_five_logs}

-- The clocks, what the C library's `syscall` returns for the result of a call, and the memory of
-- the program, where its buffer is.
pub record Clocks (K : LogKernel) : Type 0 where
  pub ktime_get_real_seconds : K.World → ℤ × K.World
  pub ktime_get_boottime_seconds : K.World → ℤ × K.World
  pub returned : ℤ → ℤ
  pub log_buffer : K.UserPtr
  pub memory : K.UserPtr → K.World → List ℕ

pub data Line : Type 0 where
  uptime_line time_line : ℤ → Line
  -- The precision and the text of `%.*s`.
  log_line : ℤ → List ℕ → Line
  perror_uptime perror_time perror_log : Line

abbrev pub log_buffer_size : ℕ
log_buffer_size = 1024

module _ (K : LogKernel) (C : Clocks K) where
  unfoldable pub get_seconds_time : M K.World ℤ
  get_seconds_time = call C.ktime_get_real_seconds

  unfoldable pub uptime : M K.World ℤ
  uptime = call C.ktime_get_boottime_seconds

  unfoldable pub after_log : (system_uptime current_time log_size : ℤ) → M K.World (ℕ × List Line)
  after_log system_uptime current_time log_size =
      if is_negative log_size
      then pure (exit_failure, uptime_line system_uptime ∷ time_line current_time ∷ perror_log ∷ [])
      else (look (C.memory C.log_buffer) >>= λ bytes. pure (
        exit_success,
        uptime_line system_uptime ∷ time_line current_time ∷ log_line (to_int log_size) bytes ∷ [],
      ))

  unfoldable pub after_time : (system_uptime current_time : ℤ) → M K.World (ℕ × List Line)
  unfolding after_log
  after_time system_uptime current_time =
      if is_minus_one current_time
      then pure (exit_failure, uptime_line system_uptime ∷ perror_time ∷ [])
      else (retrieve_last_five_logs K C.log_buffer log_buffer_size >>= λ result.
          after_log system_uptime current_time (C.returned result))

  unfoldable pub after_uptime : (system_uptime : ℤ) → M K.World (ℕ × List Line)
  unfolding after_time get_seconds_time
  after_uptime system_uptime =
      if is_minus_one system_uptime
      then pure (exit_failure, perror_uptime ∷ [])
      else (get_seconds_time >>= λ result. after_time system_uptime (C.returned result))

  unfoldable pub main : M K.World (ℕ × List Line)
  unfolding after_uptime uptime
  main = uptime >>= λ result. after_uptime (C.returned result)
