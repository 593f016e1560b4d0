-- ===== src/Logs/Outcome.antt =====
-- How the system call on the log ends.
use sistemas_operativos.Prelude.{
  ℕ, ◌≡◌, ◌<◌, ◌⊎◌, inl, inr, refl, Option, none, some, List, [], ◌∷◌, length, ltb, ◌==◌, arith,
  Bool-cases,
}
use sistemas_operativos.Prelude.Int.{ℤ, pos}
use sistemas_operativos.Kernel.Errno.{minus_einval, minus_enomem, minus_efault}
use sistemas_operativos.Kernel.Machine.{Resource, Machine, output_buffer, kernel_log_buffer}
use sistemas_operativos.Logs.{
  LogKernel, kernel_log_buffer_size, copy_lines, free_buffers, copy_log, with_output_buffer,
  allocate_output, retrieve_last_five_logs,
}
use sistemas_operativos.Logs.Lines.{length-copy_lines}

-- The call ends with a number of bytes below the bound or with one of its three errors, and holds
-- what it held before.
abbrev pub Ends : {W : Type 0} → ℕ → Machine W → Option (ℤ × Machine W) → Type 0
Ends bound s none = ⊥
Ends bound s (some (result, s')) =
    (s'.held ≡ s.held)
    × (((n : ℕ) × (result ≡ pos n) × (n < bound))
        ⊎ (result ≡ minus_einval)
        ⊎ (result ≡ minus_enomem)
        ⊎ (result ≡ minus_efault))

module _ (K : LogKernel) (user_log_buffer : K.UserPtr) (buffer_length : ℕ) where
  copy_log-Ends :
      (w : K.World) (held : List Resource)
      → 0 < buffer_length
      → Ends buffer_length
          (record { world = w; held = held })
          (copy_log K user_log_buffer buffer_length
            (record { world = w; held = kernel_log_buffer ∷ output_buffer ∷ held }))
  unfolding copy_log free_buffers
  copy_log-Ends w held room =
      elim (Bool-cases ((K.copy_to_user user_log_buffer output second.1).0 == 0)) [
        | inl copied ↦ rw copied (
          refl,
          inl (
            length output,
            refl,
            length-copy_lines buffer_length (length first.0) 0 [] second.0 room,
          ),
        )
        | inr not_copied ↦ rw not_copied (refl, inr (inr (inr refl)))
      ]
    where
      first : List (List ℕ) × K.World
      first = K.kmsg_lines w

      second : List (List ℕ) × K.World
      second = K.kmsg_lines first.1

      output : List ℕ
      output = copy_lines buffer_length (length first.0) 0 [] second.0

  -- On every path the call ends without a fault and has freed both buffers: it returns a number of
  -- bytes that is less than the length of the user's buffer, -EINVAL, -ENOMEM or -EFAULT.
  pub retrieve_last_five_logs-Ends :
      (s : Machine K.World)
      → Ends buffer_length s (retrieve_last_five_logs K user_log_buffer buffer_length s)
  unfolding retrieve_last_five_logs allocate_output with_output_buffer copy_log free_buffers
  retrieve_last_five_logs-Ends s = elim (Bool-cases (ltb buffer_length kernel_log_buffer_size)) [
    | inl short ↦ rw short (refl, inr (inl refl))
    | inr enough ↦ elim (Bool-cases (K.kzalloc buffer_length s.world).0) [
      | inr null ↦ rw (enough, null) (refl, inr (inr (inl refl)))
      | inl given ↦
          elim (Bool-cases
            (K.kmalloc kernel_log_buffer_size (K.kzalloc buffer_length s.world).1).0) [
              | inr null ↦ rw (enough, given, null) (refl, inr (inr (inl refl)))
              | inl both ↦
                  rw (enough, given, both)
                    (copy_log-Ends
                      (K.kmalloc kernel_log_buffer_size (K.kzalloc buffer_length s.world).1).1
                      s.held (ground arith))
            ]
    ]
  ]
