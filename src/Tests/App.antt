-- ===== src/Tests/App.antt =====
-- The programs with a library in which file 9 holds a number of threads.
use sistemas_operativos.Prelude.{
  ℕ, ◌≡◌, refl, inl, none, some, Option, List, [], ◌∷◌, ◌==◌, if◌then◌else◌,
}
use sistemas_operativos.Prelude.Int.{ℤ, pos}
use sistemas_operativos.App.{
  Library, Name, Opt, opt_p, opt_o, opt_j, opt_k, opt_other, run, ecrypt_app, finish,
  read_num_threads_from_file, exit_failure,
}
use sistemas_operativos.App.Outcome.{run-finish, run-Misused}

abbrev name : ℕ → Name
name n = n ∷ []

-- The world is the number that file 9 holds, and the list of the numbers of threads that the
-- system call was made with.
abbrev library : Library
library = record {
  World = ℤ × List ℤ;
  File = Unit {0};
  fopen = opens;
  fscanf_d = λ f w. (some w.0, w);
  fclose = λ f w. w;
  syscall = λ number i o k n w. (pos 0, (w.0, n ∷ w.1));
}
  where
    opens : Name → ℤ × List ℤ → Option (Unit {0}) × (ℤ × List ℤ)
    opens [] w = (none, w)
    opens (n ∷ rest) w = if n == 9 then (some tt, w) else (none, w)

abbrev options : List Opt
options = opt_j (name 9) ∷ opt_p (name 1) ∷ opt_k (name 3) ∷ opt_p (name 4) ∷ opt_o (name 2) ∷ []

read_4 : read_num_threads_from_file library (name 9) (pos 4, []) ≡ (pos 4, (pos 4, []))
unfolding read_num_threads_from_file
read_4 = refl

read_0 : read_num_threads_from_file library (name 9) (pos 0, []) ≡ (pos 0, (pos 0, []))
unfolding read_num_threads_from_file
read_0 = refl

ecrypt_app-4 : ecrypt_app library options (pos 4, []) ≡ (0, (pos 4, pos 4 ∷ []))
unfolding ecrypt_app
ecrypt_app-4 = refl

run-finish_example :
    run library 551 options (pos 4, [])
    ≡ finish library (library.syscall 551 (name 4) (name 2) (name 3) (pos 4) (pos 4, []))
run-finish_example =
    run-finish library 551 options (pos 4, []) (name 4) (name 2) (name 9) (name 3) 3 (pos 4, [])
      refl refl refl refl refl read_4

run-Misused_example :
    run library 551 (opt_p (name 1) ∷ opt_other ∷ []) (pos 4, []) ≡ (exit_failure, (pos 4, []))
run-Misused_example =
    run-Misused library 551 (opt_p (name 1) ∷ opt_other ∷ []) (pos 4, []) (inl refl)
