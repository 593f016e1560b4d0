-- ===== src/Creds/User/Confined.antt =====
-- What a process without privilege can reach by any number of calls on its user identities.
use sistemas_operativos.Prelude.{
  ℕ, ◌≡◌, refl, sym, inl, inr, Option, none, some, List, [], ◌∷◌, Bool, true, false, ◌==◌, ◌&&◌,
  ◌||◌, arith, not,
}
use mathlib.Core.Path.{subst}
use sistemas_operativos.Prelude.Int.{ℤ, pos}
use sistemas_operativos.Kernel.Machine.{M, Machine, Resource, ◌>>=◌, pure}
use sistemas_operativos.Creds.{Ids, Cred, CredKernel, cap_setuid, id_valid}
use sistemas_operativos.Creds.Documented.{Documented}
use sistemas_operativos.Creds.Settled.{Settled}
use sistemas_operativos.Creds.Fs.{Returns}
use sistemas_operativos.Creds.Rules.{argument, setuid_rule, setreuid_rule, setresuid_rule}
use sistemas_operativos.Creds.User.{setuid, setreuid, setresuid, setfsuid}
use sistemas_operativos.Creds.User.Setuid.{setuid-Settled}
use sistemas_operativos.Creds.User.Setreuid.{setreuid-Settled}
use sistemas_operativos.Creds.User.Setresuid.{setresuid-Settled}
use sistemas_operativos.Creds.User.Setfsuid.{setfsuid-Returns}
use sistemas_operativos.Creds.User.Among.{
  Among, one_of-All, setuid_rule-Among, setreuid_rule-Among, setresuid_rule-Among,
}

pub data UidCall : Type 0 where
  call_setuid : ℕ → UidCall
  call_setreuid : (ruid euid : ℕ) → UidCall
  call_setresuid : (ruid euid suid : ℕ) → UidCall
  call_setfsuid : ℕ → UidCall

-- One call, and any number of calls, whatever they return.
abbrev pub perform : (K : CredKernel) → UidCall → M K.World ℤ
perform K (call_setuid uid) = setuid K uid
perform K (call_setreuid ruid euid) = setreuid K ruid euid
perform K (call_setresuid ruid euid suid) = setresuid K ruid euid suid
perform K (call_setfsuid uid) = setfsuid K uid

abbrev pub perform_all : (K : CredKernel) → List UidCall → M K.World ℤ
perform_all K [] = pure (pos 0)
perform_all K (x ∷ calls) = perform K x >>= λ _. perform_all K calls

module _ (K : CredKernel) (q : Documented K) (p : ℕ → Bool) where
  -- No fault, nothing leaked, and the user identities still in the set.
  abbrev pub Stays : List Resource → Option (ℤ × Machine K.World) → Type 0
  Stays h none = ⊥
  Stays h (some (r, s)) = (s.held ≡ h) × Among p (K.current_cred s.world).ids

  Settled-Stays :
      (c : Cred K.Caps) (h : List Resource) (D : ℤ → Type 0) (Q : Ids → Type 0)
      (o : Option (ℤ × Machine K.World))
      → Among p c.ids
      → ((ids : Ids) → Q ids → Among p ids)
      → Settled K q c h D Q o
      → Stays h o
  Settled-Stays c h D Q none among keep settled = settled
  Settled-Stays c h D Q (some (r, s)) among keep (free, inl (zero_, meets)) = (free, keep _ meets)
  Settled-Stays c h D Q (some (r, s)) among keep (free, inr (bad, same)) =
      (free, subst (λ (m : Cred K.Caps). Among p m.ids) (sym same) among)

  Returns-Stays :
      (c : Cred K.Caps) (h : List Resource) (r : ℤ) (wanted : Bool) (ids : Ids)
      (o : Option (ℤ × Machine K.World))
      → Among p c.ids
      → (wanted ≡ true → Among p ids)
      → Returns K q c h r wanted ids o
      → Stays h o
  Returns-Stays c h r wanted ids none among keep returns = returns
  Returns-Stays c h r wanted ids (some (r', s)) among keep (free, e, inl (same, why)) =
      (free, subst (λ (m : Cred K.Caps). Among p m.ids) (sym same) among)
  Returns-Stays c h r wanted ids (some (r', s)) among keep (free, e, inr (new, granted)) =
      (free, subst (Among p) (sym new) (keep granted))

  module _ (powerless : (m : Cred K.Caps) → Among p m.ids → q.capable cap_setuid m ≡ false) where
    perform-Stays :
        (x : UidCall) (s : Machine K.World)
        → Among p (K.current_cred s.world).ids
        → Stays s.held (perform K x s)
    perform-Stays (call_setuid uid) s among =
        Settled-Stays c s.held _
          (λ ids.
            (id_valid (K.make_kuid uid) ≡ true)
            × (setuid_rule (q.capable cap_setuid c) (K.make_kuid uid) c.ids ≡ some ids))
          _ among
          (λ ids kept. setuid_rule-Among p (K.make_kuid uid) c.ids ids among (
            subst (λ (b : Bool). setuid_rule b (K.make_kuid uid) c.ids ≡ some ids)
              (powerless c among) kept.1))
          (setuid-Settled K q c s.held uid s (refl, refl))
      where
        c : Cred K.Caps
        c = K.current_cred s.world
    perform-Stays (call_setreuid ruid euid) s among =
        Settled-Stays c s.held _
          (λ ids. setreuid_rule (q.capable cap_setuid c) r e c.ids ≡ some ids) _ among
          (λ ids kept.
            setreuid_rule-Among p r e c.ids ids among
              (subst (λ (b : Bool). setreuid_rule b r e c.ids ≡ some ids) (powerless c among) kept))
          (setreuid-Settled K q c s.held ruid euid s (refl, refl))
      where
        c : Cred K.Caps
        c = K.current_cred s.world

        r : Option ℕ
        r = argument ruid (K.make_kuid ruid)

        e : Option ℕ
        e = argument euid (K.make_kuid euid)
    perform-Stays (call_setresuid ruid euid suid) s among =
        Settled-Stays c s.held _
          (λ ids. setresuid_rule (q.capable cap_setuid c) r e v c.ids ≡ some ids) _ among
          (λ ids kept. setresuid_rule-Among p r e v c.ids ids among (
            subst (λ (b : Bool). setresuid_rule b r e v c.ids ≡ some ids) (powerless c among) kept))
          (setresuid-Settled K q c s.held ruid euid suid s (refl, refl))
      where
        c : Cred K.Caps
        c = K.current_cred s.world

        r : Option ℕ
        r = argument ruid (K.make_kuid ruid)

        e : Option ℕ
        e = argument euid (K.make_kuid euid)

        v : Option ℕ
        v = argument suid (K.make_kuid suid)
    perform-Stays (call_setfsuid uid) s among =
        Returns-Stays c s.held (pos (K.from_kuid_munged c.ids.fsuid))
          (id_valid (K.make_kuid uid)
            && ((own || q.capable cap_setuid c) && not (K.make_kuid uid == c.ids.fsuid)))
          (record c.ids { fsuid = K.make_kuid uid }) _ among
          (λ granted. (
            among.0,
            among.1,
            among.2,
            one_of-All p (K.make_kuid uid) (c.ids.uid ∷ c.ids.euid ∷ c.ids.suid ∷ c.ids.fsuid ∷ [])
                (among.0, (among.1, (among.2, (among.3, tt))))
                (ground (arith, granted, powerless c among)),
          ))
          (setfsuid-Returns K q c s.held uid s (refl, refl))
      where
        c : Cred K.Caps
        c = K.current_cred s.world

        own : Bool
        own =
            K.make_kuid uid == c.ids.uid
            || (K.make_kuid uid == c.ids.euid
                || (K.make_kuid uid == c.ids.suid || K.make_kuid uid == c.ids.fsuid))

    -- If a process whose user identities all lie in a set has no CAP_SETUID, then from such a
    -- process no number of calls of setuid, setreuid, setresuid and setfsuid, with any arguments
    -- and whatever the kernel answers, leads to a user identity outside the set, to a fault or to
    -- credentials that are not given back.
    pub perform_all-Stays :
        (calls : List UidCall) (s : Machine K.World)
        → Among p (K.current_cred s.world).ids
        → Stays s.held (perform_all K calls s)
    perform_all-Stays [] s among = (refl, among)
    perform_all-Stays (x ∷ calls) s among =
        go (perform K x s) refl (perform-Stays x s among) (perform_all-Stays calls)
      where
        go :
            (o : Option (ℤ × Machine K.World))
            → perform K x s ≡ o
            → Stays s.held o
            → ((t : Machine K.World)
                → Among p (K.current_cred t.world).ids
                → Stays t.held (perform_all K calls t))
            → Stays s.held ((perform K x >>= λ _. perform_all K calls) s)
        go none e stays rest = absurd stays
        go (some (r, t)) e stays rest =
            rw (◌>>=◌, e) (subst (λ h. Stays h (perform_all K calls t)) stays.0 (rest t stays.1))
