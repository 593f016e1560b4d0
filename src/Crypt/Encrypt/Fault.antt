-- ===== src/Crypt/Encrypt/Fault.antt =====
-- `my_encrypt` of my_encrypt.c where a path cannot be copied from user space.
use sistemas_operativos.Prelude.{◌≡◌, refl, ◌⊎◌, inl, inr, none}
use sistemas_operativos.Prelude.Int.{ℤ}
use sistemas_operativos.Kernel.{Kernel, Result, ok, err}
use sistemas_operativos.Kernel.Machine.{
  Machine, k_input_filepath, k_output_filepath, k_key_filepath, ◌>>=◌,
}
use sistemas_operativos.Crypt.Encrypt.{hold_file, free_memory, check_paths, my_encrypt}

-- A copy that failed.
abbrev pub IsErr : {A : Type 0} → Result A → Type 0
IsErr (ok a) = ⊥
IsErr (err e) = Unit {0}

module _ (K : Kernel) where
  open K use {World, FilePath, UserPtr}

  free_memory-fault :
      (input output key : Result FilePath) (n : ℤ) (w : World) (s : Machine World)
      → IsErr input ⊎ IsErr output ⊎ IsErr key
      → (check_paths K input output key n >>= free_memory K input output key) (record {
        world = w;
        held =
            hold_file k_key_filepath key
              (hold_file k_output_filepath output (hold_file k_input_filepath input s.held));
      })
        ≡ none
  unfolding check_paths
  free_memory-fault (err e) output key n w s bad = refl
  free_memory-fault (ok i) (err e) (err e') n w s bad = refl
  free_memory-fault (ok i) (err e) (ok k) n w s bad = refl
  free_memory-fault (ok i) (ok o) (err e) n w s bad = refl
  free_memory-fault (ok i) (ok o) (ok k) n w s (inl bad) = absurd bad
  free_memory-fault (ok i) (ok o) (ok k) n w s (inr (inl bad)) = absurd bad
  free_memory-fault (ok i) (ok o) (ok k) n w s (inr (inr bad)) = absurd bad

  module _ (input output key : UserPtr) (n : ℤ) (s : Machine World) where
    abbrev copied_input : Result FilePath × World
    copied_input = K.strndup_user input 4096 s.world

    abbrev copied_output : Result FilePath × World
    copied_output = K.strndup_user output 4096 copied_input.1

    abbrev copied_key : Result FilePath × World
    copied_key = K.strndup_user key 4096 copied_output.1

    -- If one of the three paths cannot be copied, the call does not return -EFAULT: the cleanup
    -- passes the `ERR_PTR` to `kfree`, which is a fault.
    pub my_encrypt-fault :
        IsErr copied_input.0 ⊎ IsErr copied_output.0 ⊎ IsErr copied_key.0
        → my_encrypt K input output key n s ≡ none
    unfolding my_encrypt
    my_encrypt-fault bad =
        free_memory-fault copied_input.0 copied_output.0 copied_key.0 n copied_key.1 s bad
