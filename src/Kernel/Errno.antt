-- ===== src/Kernel/Errno.antt =====
-- Error codes as the calls return them, and the conversion of a `long` to an `int`.
use sistemas_operativos.Prelude.{ℕ, ◌-◌, ◌%◌, ◌^◌, ltb, if◌then◌else◌}
use sistemas_operativos.Prelude.Int.{ℤ, pos, negsuc}

abbrev pub minus_esrch : ℤ
minus_esrch = negsuc 2

abbrev pub minus_eacces : ℤ
minus_eacces = negsuc 12

abbrev pub minus_einval : ℤ
minus_einval = negsuc 21

abbrev pub minus_enomem : ℤ
minus_enomem = negsuc 11

abbrev pub minus_efault : ℤ
minus_efault = negsuc 13

-- `(int) x`: the low 32 bits, read as a signed number.
abbrev pub to_int : ℤ → ℤ
to_int (pos n) = let m = n % 2 ^ 32 in if ltb m (2 ^ 31) then pos m else negsuc (2 ^ 32 - 1 - m)
to_int (negsuc n) = let m = n % 2 ^ 32 in if ltb m (2 ^ 31) then negsuc m else pos (2 ^ 32 - 1 - m)

-- An `int` stored in a `size_t`.
abbrev pub size_of_int : ℤ → ℕ
size_of_int (pos n) = n % 2 ^ 64
size_of_int (negsuc n) = (2 ^ 64 - 1 - n) % 2 ^ 64
