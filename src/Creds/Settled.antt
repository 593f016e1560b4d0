-- ===== src/Creds/Settled.antt =====
-- How the calls that change identities end: the rules by which the steps that they share are put
-- together.
use sistemas_operativos.Prelude.{
  ◌≡◌, refl, sym, ap, ◌∙◌, ◌⊎◌, inr, Option, none, some, List, ◌∷◌, Bool, true, false, ◌||◌,
}
use mathlib.Core.Path.{subst}
use sistemas_operativos.Prelude.Int.{ℤ, pos}
use sistemas_operativos.Kernel.Machine.{
  M, Machine, Resource, ◌>>=◌, ◌>>◌, new_cred, release, look, call,
}
use sistemas_operativos.Creds.{
  Ids, Cred, CredKernel, Capability, is_negative, Attempt, proceed, fail, abort, ◌>>?◌, or_capable,
}
use sistemas_operativos.Creds.Documented.{Documented, Refused}

module _ (K : CredKernel) (q : Documented K) (c : Cred K.Caps) (h : List Resource) where
  open K use {World, Caps}

  -- Before a call, and while it holds new credentials.
  abbrev pub Starts : Machine World → Type 0
  Starts s = (K.current_cred s.world ≡ c) × (s.held ≡ h)

  abbrev pub Working : Machine World → Type 0
  Working s = (K.current_cred s.world ≡ c) × (s.held ≡ new_cred ∷ h)

module _ (K : CredKernel) (q : Documented K) (c : Cred K.Caps) (h : List Resource)
    (D : ℤ → Type 0) where
  open K use {World, Caps}

  -- An error: the kernel has refused, or the call denies what was asked for, as `D` says.
  abbrev pub Failed : ℤ → Type 0
  Failed e = (is_negative e ≡ true) × (Refused K e ⊎ D e)

  -- A step ends without a fault: with new credentials that meet `P`, or with an error.
  abbrev pub Attempted :
      (Cred Caps → Type 0) → Option (Attempt (Cred Caps) × Machine World) → Type 0
  Attempted P none = ⊥
  Attempted P (some (proceed new, s)) = Working K q c h s × P new
  Attempted P (some (fail e, s)) = Working K q c h s × Failed e

  -- The call ends without a fault and holds what it held before: it has returned 0 and installed
  -- identities that meet `Q`, or it has returned an error and the credentials are the old ones.
  abbrev pub Settled : (Ids → Type 0) → Option (ℤ × Machine World) → Type 0
  Settled Q none = ⊥
  Settled Q (some (r, s)) =
      (s.held ≡ h)
      × (((r ≡ pos 0) × Q (K.current_cred s.world).ids) ⊎ (Failed r × (K.current_cred s.world ≡ c)))

  pub abort-Settled :
      (Q : Ids → Type 0) (e : ℤ) (s : Machine World)
      → Working K q c h s
      → Failed e
      → Settled Q (abort K e s)
  abort-Settled Q e s w bad =
      rw (◌>>◌, ◌>>=◌, release, w.1) (refl, inr (bad, q.current-abort s.world ∙ w.0))

  pub attempt-Settled :
      (Q : Ids → Type 0) (P : Cred Caps → Type 0) (m : M World (Attempt (Cred Caps)))
      (k : Cred Caps → M World ℤ) (s : Machine World)
      → Attempted P (m s)
      → ((new : Cred Caps) (t : Machine World) → Working K q c h t → P new → Settled Q (k new t))
      → Settled Q ((◌>>?◌ K m k) s)
  attempt-Settled Q P m k s attempted rest = go (m s) refl attempted
    where
      go :
          (o : Option (Attempt (Cred Caps) × Machine World))
          → m s ≡ o
          → Attempted P o
          → Settled Q ((◌>>?◌ K m k) s)
      go none e done = absurd done
      go (some (proceed new, t)) e done = rw (◌>>?◌, ◌>>=◌, e) (rest new t done.0 done.1)
      go (some (fail r, t)) e done = rw (◌>>?◌, ◌>>=◌, e) (abort-Settled Q r t done.0 done.1)

  pub Attempted-weaken :
      (P R : Cred Caps → Type 0) (m : M World (Attempt (Cred Caps))) (s : Machine World)
      → ((new : Cred Caps) → P new → R new)
      → Attempted P (m s)
      → Attempted R (m s)
  Attempted-weaken P R m s weaken attempted = go (m s) attempted
    where
      go : (o : Option (Attempt (Cred Caps) × Machine World)) → Attempted P o → Attempted R o
      go none done = done
      go (some (proceed new, t)) done = (done.0, weaken new done.1)
      go (some (fail e, t)) done = done

  pub look-Settled :
      (Q : Ids → Type 0) (k : Cred Caps → M World ℤ) (s : Machine World)
      → K.current_cred s.world ≡ c
      → Settled Q (k c s)
      → Settled Q ((look K.current_cred >>= k) s)
  look-Settled Q k s now rest = subst (λ old. Settled Q (k old s)) (sym now) rest

  -- The answer on a capability, and the state in which it is given.
  pub capable-Settled :
      (Q : Ids → Type 0) (cap : Capability) (k : Bool → M World ℤ) (s : Machine World)
      → Working K q c h s
      → ((t : Machine World) → Working K q c h t → Settled Q (k (q.capable cap c) t))
      → Settled Q ((call (K.ns_capable_setid cap) >>= k) s)
  capable-Settled Q cap k s w rest =
      subst (λ (b : Bool). Settled Q (k b asked)) (sym answered)
        (rest asked (q.current-capable cap s.world ∙ w.0, w.1))
    where
      asked : Machine World
      asked = record s { world = (K.ns_capable_setid cap s.world).1 }

      answered : (K.ns_capable_setid cap s.world).0 ≡ q.capable cap c
      answered = q.answer cap s.world ∙ ap (q.capable cap) w.0

  pub Starts-capable :
      (cap : Capability) (s : Machine World)
      → Starts K q c h s
      → Starts K q c h (record s { world = (K.ns_capable_setid cap s.world).1 })
  Starts-capable cap s start = (q.current-capable cap s.world ∙ start.0, start.1)

  -- Where nothing is held yet the capability is asked for in the same way.
  pub or_capable-Settled :
      (Q : Ids → Type 0) (test : Bool) (cap : Capability) (k : Bool → M World ℤ) (s : Machine World)
      → Starts K q c h s
      → ((t : Machine World) → Starts K q c h t → Settled Q (k (test || q.capable cap c) t))
      → Settled Q ((or_capable K test cap >>= k) s)
  unfolding or_capable
  or_capable-Settled Q true cap k s start rest = rest s start
  or_capable-Settled Q false cap k s start rest =
      subst
        (λ (b : Bool). Settled Q (k b (record s { world = (K.ns_capable_setid cap s.world).1 })))
        (sym (q.answer cap s.world ∙ ap (q.capable cap) start.0))
        (rest _ (Starts-capable cap s start))
