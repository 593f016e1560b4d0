-- ===== src/Crypt/Encrypt/Cleanup.antt =====
-- `handle_file_encryption` of my_encrypt.c gives back what it holds.
use sistemas_operativos.Prelude.{
  ℕ, zero, suc, ◌+◌, ◌%◌, ◌^◌, ◌<◌, ◌≤◌, ◌≡◌, refl, Option, none, some, List, ◌∷◌, ◌⊎◌, inl, inr,
  Option-cases, Bool-cases, ◌==◌, false, arith,
}
use sistemas_operativos.Prelude.Int.{ℤ, pos, ltb_ℤ}
use sistemas_operativos.Kernel.{Kernel}
use sistemas_operativos.Kernel.Errno.{minus_enomem, to_int, size_of_int}
use sistemas_operativos.Kernel.Machine.{
  Resource, input_file, output_file, key_file, encryption_key, file_buffer, thread_list, task_list,
  fragment_list, Machine, ◌>>=◌,
}
use sistemas_operativos.Crypt.Fragment.{DataFragment, size_t, fragment_of}
use sistemas_operativos.Crypt.Encrypt.{
  Creation, created, failed, wait_and_write, Files, hold, free_file_buffer, free_all_resources,
  create_threads, encrypt_and_write, check_lists, allocate_lists, fill_file_buffer, read_input,
  fill_encryption_key, read_key,
}

-- The call comes to an end without a fault, and what holds then.
abbrev pub Ends : {W : Type 0} → (ℤ → Machine W → Type 0) → Option (ℤ × Machine W) → Type 0
Ends P none = ⊥
Ends P (some (r, s)) = P r s

-- It does so, or it faults, and E holds.
abbrev pub EndsUnless :
    {W : Type 0} → Type 0 → (ℤ → Machine W → Type 0) → Option (ℤ × Machine W) → Type 0
EndsUnless E P none = E
EndsUnless E P (some (r, s)) = P r s

EndsUnless-weaken :
    {W : Type 0} (E : Type 0) {P Q : ℤ → Machine W → Type 0}
    → ((r : ℤ) (s : Machine W) → P r s → Q r s)
    → (o : Option (ℤ × Machine W)) → EndsUnless E P o
    → EndsUnless E Q o
EndsUnless-weaken E f none e = e
EndsUnless-weaken E f (some (r, s)) e = f r s e

pub Ends-weaken :
    {W : Type 0} {P Q : ℤ → Machine W → Type 0}
    → ((r : ℤ) (s : Machine W) → P r s → Q r s)
    → (o : Option (ℤ × Machine W)) → Ends P o
    → Ends Q o
Ends-weaken f none e = e
Ends-weaken f (some (r, s)) e = f r s e

-- Of the n threads some ran when one could not be started.
abbrev pub Abandoned : Kernel → ℕ → Type 0
Abandoned K n =
    (i : ℕ) × (w : K.World) × (e : ℤ) × (0 < i) × (i < n) × ((K.kthread_run i w).0 ≡ some e)

module _ (K : Kernel) (files : Files K) (h : List Resource) where
  open K use {World}

  abbrev pub with_files : List Resource
  with_files = key_file ∷ output_file ∷ input_file ∷ h

  abbrev pub with_buffers : List Resource
  with_buffers = file_buffer ∷ encryption_key ∷ with_files

  abbrev pub with_lists : List Resource
  with_lists = fragment_list ∷ task_list ∷ thread_list ∷ with_buffers

  -- What a call that ends has given back.
  abbrev Clean : ℤ → Machine World → Type 0
  Clean r s = (r ≡ minus_enomem) ⊎ (s.held ≡ h)

  -- Which thread was not started, of the n.
  abbrev Unstarted : ℕ → Creation → Type 0
  Unstarted n created = Unit
  Unstarted n (failed i e) = (w : World) × (i < n) × ((K.kthread_run i w).0 ≡ some e)

  create_threads-held :
      (n rounds i : ℕ) (s : Machine World)
      → i + rounds ≤ n
      → (c : Creation) × (w : World) × (create_threads K rounds i s
          ≡ some (c, record s { world = w }))
        × Unstarted n c
  unfolding create_threads
  create_threads-held n zero i s le = (created, s.world, refl, tt)
  create_threads-held n (suc rounds) i s le = elim (Option-cases (K.kthread_run i s.world).0) [
    | inl e ↦
        let (c, w, q, told) =
          create_threads-held n rounds (i + 1) (record s { world = (K.kthread_run i s.world).1 })
            (omega arith) in
        (c, w, ground (arith, e, q), told)
    | inr (failure, e) ↦ (
      failed i failure,
      (K.kthread_run i s.world).1,
      ground (arith, e),
      (s.world, omega arith, e),
    )
  ]

  free_all_resources-held :
      (r : ℤ) (w : World)
      → Ends
          (λ r' s. (s.held ≡ h) × (r' ≡ r))
          (free_all_resources K files r (record { world = w; held = with_lists }))
  unfolding free_all_resources
  free_all_resources-held r w = (refl, refl)

  wait_and_write-held :
      (fragments : ℕ → DataFragment) (file_size : ℕ) (buffer : List ℕ) (n : ℕ) (c : Creation)
      (w : World)
      → Unstarted n c
      → EndsUnless
          (Abandoned K n)
          (λ r s. s.held ≡ h)
          (wait_and_write K files fragments n file_size buffer c
            (record { world = w; held = with_lists }))
  unfolding wait_and_write
  wait_and_write-held fragments file_size buffer n created w told = refl
  wait_and_write-held fragments file_size buffer n (failed zero e) w told = refl
  wait_and_write-held fragments file_size buffer n (failed (suc others) e) w (v, below, at) =
      (suc others, v, e, omega arith, below, at)

  encrypt_and_write-held :
      (key : List ℕ) (key_length file_size : ℕ) (buffer : List ℕ) (n : ℕ) (w : World)
      → EndsUnless
          (Abandoned K n)
          (λ r s. s.held ≡ h)
          (encrypt_and_write K files key key_length file_size buffer
            (pos n)
            (record { world = w; held = with_lists }))
  unfolding encrypt_and_write
  encrypt_and_write-held key key_length file_size buffer n w =
      let (c, w', q, told) =
        create_threads-held n n 0 (record { world = w; held = with_lists }) (omega arith) in
      rw (q, ◌>>=◌)
        (wait_and_write-held (fragment_of key key_length file_size (size_of_int (pos n))) file_size
          buffer n c w' told)

  -- Some list is missing: the call ends, with -ENOMEM.
  free_file_buffer-enomem :
      (n : ℕ) (threads tasks fragments : Option (List ℕ)) (w : World)
      → EndsUnless (Abandoned K n) Clean (
          free_file_buffer K files minus_enomem (record {
            world = w;
            held =
                hold fragment_list fragments
                  (hold task_list tasks (hold thread_list threads with_buffers));
          }))
  unfolding free_file_buffer
  free_file_buffer-enomem n none none none w = inl refl
  free_file_buffer-enomem n none none (some c) w = inl refl
  free_file_buffer-enomem n none (some b) none w = inl refl
  free_file_buffer-enomem n none (some b) (some c) w = inl refl
  free_file_buffer-enomem n (some a) none none w = inl refl
  free_file_buffer-enomem n (some a) none (some c) w = inl refl
  free_file_buffer-enomem n (some a) (some b) none w = inl refl
  free_file_buffer-enomem n (some a) (some b) (some c) w = inl refl

  -- When one of the three lists cannot be allocated the other two are not given back.
  check_lists-held :
      (key : List ℕ) (key_length file_size : ℕ) (buffer : List ℕ) (n : ℕ) (w : World)
      (threads tasks fragments : Option (List ℕ))
      → n < 2 ^ 31
      → 0 < n
      → EndsUnless (Abandoned K n) Clean (
          check_lists K files key key_length file_size buffer
            (pos n)
            threads
            tasks
            fragments
            (record {
              world = w;
              held =
                  hold fragment_list fragments
                    (hold task_list tasks (hold thread_list threads with_buffers));
            }))
  unfolding check_lists
  check_lists-held key key_length file_size buffer n w (some a) (some b) (some c) small pos_n =
      let some_thread : (n % 2 ^ 64 == 0) ≡ false = ground arith in
      rw some_thread (
        EndsUnless-weaken (Abandoned K n) {P = λ r s. s.held ≡ h} {Q = Clean} (λ r s kept. inr kept)
          _ (encrypt_and_write-held key key_length file_size buffer n w))
  check_lists-held key key_length file_size buffer n w none b c small pos_n =
      free_file_buffer-enomem n none b c w
  check_lists-held key key_length file_size buffer n w (some a) none c small pos_n =
      free_file_buffer-enomem n (some a) none c w
  check_lists-held key key_length file_size buffer n w (some a) (some b) none small pos_n =
      free_file_buffer-enomem n (some a) (some b) none w

  fill_file_buffer-held :
      (key : List ℕ) (key_length file_size n : ℕ) (block : Option (List ℕ)) (w : World)
      → n < 2 ^ 31
      → 0 < n
      → EndsUnless (Abandoned K n) Clean (
          fill_file_buffer K files key key_length file_size
            (pos n)
            block
            (record { world = w; held = encryption_key ∷ with_files }))
  unfolding fill_file_buffer allocate_lists
  fill_file_buffer-held key key_length file_size n none w small pos_n = inr refl
  fill_file_buffer-held key key_length file_size n (some fresh) w small pos_n =
      let got = (K.kernel_read files.input fresh file_size w).0.0 in
      elim (Bool-cases (ltb_ℤ (to_int got) (pos 0))) [
        | inl bad ↦ rw bad (inr refl)
        | inr good ↦ rw good (check_lists-held _ key_length file_size _ n _ _ _ _ small pos_n)
      ]

  read_input-held :
      (key : List ℕ) (key_length n : ℕ) (w : World)
      → n < 2 ^ 31
      → 0 < n
      → EndsUnless (Abandoned K n) Clean (
          read_input K files key key_length
            (pos n)
            (record { world = w; held = encryption_key ∷ with_files }))
  unfolding read_input
  read_input-held key key_length n w small pos_n =
      elim (Bool-cases (size_t (K.i_size_read files.input w) == 0)) [
        | inl empty ↦ rw empty (inr refl)
        | inr full ↦ rw full (fill_file_buffer-held key key_length _ n _ _ small pos_n)
      ]

  fill_encryption_key-held :
      (key_length n : ℕ) (block : Option (List ℕ)) (w : World)
      → n < 2 ^ 31
      → 0 < n
      → EndsUnless (Abandoned K n) Clean (
          fill_encryption_key K files key_length
            (pos n)
            block
            (record { world = w; held = with_files }))
  unfolding fill_encryption_key
  fill_encryption_key-held key_length n none w small pos_n = inr refl
  fill_encryption_key-held key_length n (some fresh) w small pos_n =
      let got = (K.kernel_read files.key fresh key_length w).0.0 in
      elim (Bool-cases (ltb_ℤ (to_int got) (pos 0))) [
        | inl bad ↦ rw bad (inr refl)
        | inr good ↦ rw good (read_input-held _ key_length n _ small pos_n)
      ]

  -- With the three files open and a positive number of threads, the handler comes to an end, and
  -- unless it answers -ENOMEM it has closed and freed what it held; or it faults, when it frees the
  -- blocks of threads that run because a later one could not be started.
  pub read_key-held :
      (n : ℕ) (w : World)
      → n < 2 ^ 31
      → 0 < n
      → EndsUnless
          (Abandoned K n)
          Clean
          (read_key K files (pos n) (record { world = w; held = with_files }))
  unfolding read_key
  read_key-held n w small pos_n = elim (Bool-cases (size_t (K.i_size_read files.key w) == 0)) [
    | inl empty ↦ rw empty (inr refl)
    | inr full ↦ rw full (fill_encryption_key-held _ n _ _ small pos_n)
  ]
