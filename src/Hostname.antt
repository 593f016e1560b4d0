-- ===== src/Hostname.antt =====
-- The names of the system: sethostname, gethostname and setdomainname of
-- Practica1/linux-6.6.44/kernel/sys.c. The two names are fields of the world, lists of 65 bytes.
pub mod RoundTrip
use sistemas_operativos.Prelude.{
  ℕ, zero, suc, ◌+◌, ◌-◌, List, [], ◌∷◌, ◌++◌, Bool, true, false, ltb, ◌==◌, if◌then◌else◌, Option,
  none, some, take, drop, replicate, length,
}
use sistemas_operativos.Prelude.Int.{ℤ, pos, negsuc}
use sistemas_operativos.Kernel.Errno.{minus_einval, minus_efault}
use sistemas_operativos.Kernel.Machine.{
  M, ◌>>=◌, ◌>>◌, pure, oops, call, look, acquire, release, uts_sem,
}
use sistemas_operativos.Creds.{minus_eperm}
use sistemas_operativos.Text.Buffer.{strlen}

-- __NEW_UTS_LEN
abbrev pub new_uts_len : ℕ
new_uts_len = 64

pub record UtsKernel : Type 1 where
  pub World : Type 0
  pub UserPtr : Type 0
  pub ns_capable : World → Bool × World
  -- The bytes, if all of them can be copied.
  pub copy_from_user : UserPtr → ℕ → World → Option (List ℕ) × World
  -- The number of bytes that could not be copied.
  pub copy_to_user : UserPtr → List ℕ → World → ℕ × World
  pub add_device_randomness : List ℕ → World → World
  pub nodename : World → List ℕ
  pub domainname : World → List ℕ
  pub set_nodename : List ℕ → World → World
  pub set_domainname : List ℕ → World → World
  pub notify_hostname : World → World
  pub notify_domainname : World → World

abbrev pub memcpy : List ℕ → List ℕ → ℕ → List ℕ
memcpy dst src n = take n src ++ drop n dst

-- `memset(dst + at, value, n)`
abbrev pub memset : List ℕ → (at value n : ℕ) → List ℕ
memset dst at value n = take at dst ++ (replicate n value ++ drop (at + n) dst)

-- What the copy and the filling make of a name.
abbrev pub renamed : List ℕ → List ℕ → ℕ → List ℕ
renamed name tmp len = memset (memcpy name tmp len) len 0 (length name - len)

-- `i`, the number of bytes that gethostname copies.
abbrev pub copied_length : (strlen len : ℕ) → ℕ
copied_length n len = let i = 1 + n in if ltb len i then len else i

module _ (K : UtsKernel) where
  open K use {World, UserPtr}

  -- With the name in `tmp`: `change` writes the field and tells who watches it.
  unfoldable pub store_name : (List ℕ → World → World) → Option (List ℕ) → M World ℤ
  store_name change none = pure minus_efault
  store_name change (some tmp) =
      call (λ w. (tt, K.add_device_randomness tmp w))
      >> (acquire uts_sem >> (call (λ w. (tt, change tmp w)) >> (release uts_sem >> pure (pos 0))))

  unfoldable pub copy_name : (List ℕ → ℕ → World → World) → UserPtr → ℤ → M World ℤ
  unfolding store_name
  copy_name change name (negsuc len) = pure minus_einval
  copy_name change name (pos len) =
      if ltb new_uts_len len
      then pure minus_einval
      else (call (K.copy_from_user name len) >>= store_name (λ tmp. change tmp len))

  unfoldable pub set_name : (List ℕ → ℕ → World → World) → UserPtr → ℤ → M World ℤ
  unfolding copy_name
  set_name change name len = call K.ns_capable >>= λ capable.
      if capable then copy_name change name len else pure minus_eperm

  unfoldable pub change_nodename : List ℕ → ℕ → World → World
  change_nodename tmp len w = K.notify_hostname (K.set_nodename (renamed (K.nodename w) tmp len) w)

  unfoldable pub sethostname : UserPtr → ℤ → M World ℤ
  unfolding set_name change_nodename
  sethostname = set_name change_nodename

  unfoldable pub change_domainname : List ℕ → ℕ → World → World
  change_domainname tmp len w =
      K.notify_domainname (K.set_domainname (renamed (K.domainname w) tmp len) w)

  unfoldable pub setdomainname : UserPtr → ℤ → M World ℤ
  unfolding set_name change_domainname
  setdomainname = set_name change_domainname

  unfoldable pub copied_if : ℕ → M World ℤ
  copied_if left = if left == 0 then pure (pos 0) else pure minus_efault

  -- Under the lock; a name without a null byte is read past its end.
  unfoldable pub copy_out : UserPtr → ℕ → List ℕ → Option ℕ → M World ℤ
  unfolding copied_if
  copy_out name len nodename none = oops
  copy_out name len nodename (some n) =
      release uts_sem
      >> (call (K.copy_to_user name (take (copied_length n len) nodename)) >>= copied_if)

  unfoldable pub gethostname : UserPtr → ℤ → M World ℤ
  unfolding copy_out
  gethostname name (negsuc len) = pure minus_einval
  gethostname name (pos len) =
      acquire uts_sem
      >> (look K.nodename >>= λ nodename. copy_out name len nodename (strlen nodename))
