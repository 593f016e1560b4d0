-- ===== src/Tests/Llamadas.antt =====
-- The program on the clocks and the log, with a log of seven lines.
use sistemas_operativos.Prelude.{ℕ, ◌≡◌, refl, List, [], ◌∷◌, length, take, some, arith}
use sistemas_operativos.Prelude.Int.{ℤ, pos, negsuc}
use sistemas_operativos.Logs.{retrieve_last_five_logs}
use sistemas_operativos.Llamadas.{Clocks, uptime_line, time_line, log_line, main}
use sistemas_operativos.Llamadas.Printed.{Documented, Steady, Prints, main-Prints}
use sistemas_operativos.Tests.Logs.{log_lines, log_kernel, idle}

abbrev libc : ℤ → ℤ
libc (pos n) = pos n
libc (negsuc n) = negsuc 0

abbrev clocks : Clocks log_kernel
clocks = record {
  ktime_get_real_seconds = λ w. (pos 1700000000, w);
  ktime_get_boottime_seconds = λ w. (pos 300, w);
  returned = libc;
  log_buffer = tt;
  memory = λ p w. w;
}

abbrev documented : Documented log_kernel clocks
documented = record {
  real = λ w. (1700000000, refl);
  boottime = λ w. (300, refl);
  returned_pos = λ n. refl;
  returned_einval = refl;
  returned_enomem = refl;
  returned_efault = refl;
}

take-length : (xs : List ℕ) → take (length xs) xs ≡ xs
take-length [] = refl
take-length (x ∷ xs) = rw (take-length xs) refl

abbrev steady : Steady log_kernel clocks log_lines
steady = record {
  zeroed = λ n w. refl;
  given = λ n w. refl;
  log = λ w. refl;
  copied = λ p bytes w. refl;
  memory = λ p bytes w. take-length bytes;
}

run :
    main log_kernel clocks idle
    ≡ some (
      (
        0,
        uptime_line (pos 300)
            ∷ time_line (pos 1700000000)
            ∷ log_line (pos 8) (3 ∷ 4 ∷ 4 ∷ 5 ∷ 6 ∷ 7 ∷ 7 ∷ 7 ∷ [])
            ∷ [],
      ),
      record { world = 3 ∷ 4 ∷ 4 ∷ 5 ∷ 6 ∷ 7 ∷ 7 ∷ 7 ∷ []; held = [] },
    )
unfolding main retrieve_last_five_logs
run = refl

main-Prints_example : Prints log_kernel clocks log_lines [] (main log_kernel clocks idle)
main-Prints_example = main-Prints log_kernel clocks log_lines documented steady (omega arith) idle
