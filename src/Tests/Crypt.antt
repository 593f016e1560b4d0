-- ===== src/Tests/Crypt.antt =====
-- Practica2: the encryption of a small file.
use sistemas_operativos.Prelude.{
  ℕ, ◌+◌, ◌≤◌, ◌<◌, ◌≡◌, ◌⊎◌, inl, refl, some, none, ◌==◌, if◌then◌else◌, List, [], ◌∷◌, arith,
}
use sistemas_operativos.Prelude.Int.{pos, negsuc}
use sistemas_operativos.Kernel.{Kernel, ok, err, OpenMode}
use sistemas_operativos.Kernel.Errno.{minus_enomem}
use sistemas_operativos.Kernel.Machine.{Machine, output_file}
use sistemas_operativos.Tests.Sim.{sim, sim-Quiet, disk}
use sistemas_operativos.Crypt.Fragment.{DataFragment, fragment_of}
use sistemas_operativos.Crypt.Worker.{xor_at, perform_xor_operation}
use sistemas_operativos.Crypt.Cipher.{xor_cipher}
use sistemas_operativos.Crypt.Threads.{
  System, create, created, wait, waited, load, store, complete, here, next, Reach, joined, init,
}
use sistemas_operativos.Crypt.Threads.Tiling.{Tiled, fragment_of-Tiled}
use sistemas_operativos.Crypt.Threads.Result.{joined-xor_cipher}
use sistemas_operativos.Crypt.Threads.Measure.{measure, steps, steps-le}
use sistemas_operativos.Crypt.Threads.Liveness.{CanEnd, Reach-CanEnd}
use sistemas_operativos.Crypt.Threads.Failure.{UsesFreed, failure-UsesFreed}
use sistemas_operativos.Crypt.Encrypt.{handle_file_encryption, my_encrypt}
use sistemas_operativos.Crypt.Encrypt.Cleanup.{Ends, EndsUnless, Abandoned}
use sistemas_operativos.Crypt.Encrypt.Outcome.{
  handle_file_encryption-Clean, handle_file_encryption-leak,
}
use sistemas_operativos.Crypt.Encrypt.Served.{Encrypted}
use sistemas_operativos.Crypt.Encrypt.Success.{handle_file_encryption-Encrypted}
use sistemas_operativos.Crypt.Encrypt.Fault.{my_encrypt-fault}
use sistemas_operativos.Crypt.Decrypt.{my_decrypt}
use sistemas_operativos.Crypt.Decrypt.Equivalence.{my_decrypt-my_encrypt}
use sistemas_operativos.Crypt.Decrypt.RoundTrip.{
  encrypt_then_decrypt, encrypt_then_decrypt-roundtrip,
}

abbrev key : List ℕ
key = b'a' ∷ b'b' ∷ []

abbrev file : List ℕ
file = b'h' ∷ b'o' ∷ b'l' ∷ []

abbrev machine : Machine (ℕ → List ℕ)
machine = record { world = disk; held = [] }

-- Two threads, the second with the byte that is left over.
abbrev split : ℕ → DataFragment
split = fragment_of key 2 3 2

two_fragments :
    ((split 0).start_idx ≡ 0)
    × ((split 0).end_idx ≡ 1)
    × ((split 1).start_idx ≡ 1)
    × ((split 1).end_idx ≡ 3)
unfolding fragment_of
two_fragments = (refl, refl, refl, refl)

-- `handle_file_encryption` runs, on three threads.
encrypted_text :
    Ends
      (λ r s. (r ≡ pos 5) × (s.world 1 ≡ 9 ∷ 13 ∷ 13 ∷ 3 ∷ 64 ∷ []) × (s.held ≡ []))
      (handle_file_encryption sim 0 1 3 (pos 3) machine)
unfolding handle_file_encryption fragment_of perform_xor_operation xor_at
encrypted_text = (refl, refl, refl)

-- No threads: the division by zero.
no_threads : handle_file_encryption sim 0 1 3 (pos 0) machine ≡ none
unfolding handle_file_encryption
no_threads = refl

encrypt_then_decrypt-roundtrip_example :
    Ends
      (λ r t. (t.world 2 ≡ disk 0) × (t.held ≡ []))
      (encrypt_then_decrypt sim 0 1 2 3 2 3 machine)
unfolding sim-Quiet
encrypt_then_decrypt-roundtrip_example =
    encrypt_then_decrypt-roundtrip sim sim-Quiet 0 1 2 3 machine 2 3 (omega arith) (omega arith)
      (omega arith) (omega arith) (omega arith) (omega arith) (omega arith) (omega arith)
      (omega arith) (omega arith) (omega arith) (omega arith)

abbrev one_byte : List ℕ
one_byte = b'h' ∷ []

abbrev alone : ℕ → DataFragment
alone = fragment_of key 2 1 1

-- One thread, from its start to the end of the waiting.
alone_run : (s : System) × Reach alone 1 one_byte s × (s.main ≡ joined) × (s.buffer ≡ 9 ∷ [])
unfolding fragment_of xor_at
alone_run = (
  _,
  next
      (next
        (next
          (next
            (next
              (next (next here (create 0 refl (omega arith)))
                (load 0 0 (omega arith) refl (omega arith)))
              (store 0 0 104 (omega arith) refl))
            (complete 0 1 (omega arith) refl (omega arith)))
          (created 1 refl (omega arith)))
        (wait 0 refl (omega arith) refl))
      (waited 1 refl (omega arith)),
  refl,
  refl,
)

joined-xor_cipher_example : alone_run.0.buffer ≡ xor_cipher key 2 one_byte
joined-xor_cipher_example =
    joined-xor_cipher key one_byte 2 1 (omega arith) (omega arith) alone_run.1 alone_run.2

handle_file_encryption-Encrypted_example :
    Ends
      (Encrypted sim sim-Quiet (disk 3) (disk 0) 1 [] disk)
      (handle_file_encryption sim 0 1 3 (pos 4) machine)
unfolding sim-Quiet
handle_file_encryption-Encrypted_example =
    handle_file_encryption-Encrypted sim sim-Quiet 0 1 3 4 machine (omega arith) (omega arith)
      (omega arith) (omega arith) (omega arith) (omega arith) (omega arith) (omega arith)

Reach-CanEnd_example : CanEnd split 2 file (init file)
Reach-CanEnd_example =
    Reach-CanEnd split 2 file (fragment_of-Tiled key 2 3 2 (omega arith) (omega arith)) here
      (λ e. cc)

steps-le_example :
    steps alone 1 alone_run.1 + measure alone 1 alone_run.0 ≤ measure alone 1 (init one_byte)
steps-le_example =
    steps-le alone 1 one_byte (fragment_of-Tiled key 2 1 1 (omega arith) (omega arith)) alone_run.1

-- The kernel in which only the first thread can be started.
abbrev one_thread : Kernel
one_thread = record sim { kthread_run = λ i w. (if i == 0 then none else some (negsuc 11), w) }

abandoned : handle_file_encryption one_thread 0 1 3 (pos 2) machine ≡ none
unfolding handle_file_encryption
abandoned = refl

handle_file_encryption-Clean_example :
    EndsUnless
      (Abandoned sim 2)
      (λ r s. (r ≡ minus_enomem) ⊎ (s.held ≡ []))
      (handle_file_encryption sim 0 1 3 (pos 2) machine)
handle_file_encryption-Clean_example =
    handle_file_encryption-Clean sim 0 1 3 2 machine (omega arith) (omega arith) refl refl refl

-- The kernel in which no file opens for reading and no path can be copied.
abbrev denied : Kernel
denied = record sim {
  filp_open = λ p mode w.
      (elim mode [ OpenMode.read_only ↦ err (negsuc 1) | written ↦ ok (p, written) ], w);
  strndup_user = λ p n w. (err (negsuc 13), w);
}

handle_file_encryption-leak_example :
    handle_file_encryption denied 0 1 3 (pos 2) machine
    ≡ some (negsuc 1, record { world = disk; held = output_file ∷ [] })
handle_file_encryption-leak_example = handle_file_encryption-leak denied 0 1 3 (pos 2) machine refl

my_encrypt-fault_example : my_encrypt denied 0 1 3 (pos 2) machine ≡ none
my_encrypt-fault_example = my_encrypt-fault denied 0 1 3 (pos 2) machine (inl tt)

my_decrypt-my_encrypt_example :
    my_decrypt sim 0 1 3 (pos 2) machine ≡ my_encrypt sim 0 1 3 (pos 2) machine
my_decrypt-my_encrypt_example = my_decrypt-my_encrypt sim 0 1 3 (pos 2) machine

fragment_of-Tiled_example : Tiled split 2 3
fragment_of-Tiled_example = fragment_of-Tiled key 2 3 2 (omega arith) (omega arith)

abbrev middle : DataFragment
middle = record { data_size = 3; encryption_key = key; key_length = 2; start_idx = 1; end_idx = 2 }

failure-UsesFreed_example : (s : System) × Reach split 2 file s × UsesFreed split s
failure-UsesFreed_example = failure-UsesFreed split 2 file (omega arith) some_byte
  where
    some_byte : (split 0).start_idx < (split 0).end_idx
    some_byte = unfold fragment_of in omega arith
