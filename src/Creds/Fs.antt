-- ===== src/Creds/Fs.antt =====
-- The rules for the two calls on the file system identity, which return the old one whatever
-- happens.
use sistemas_operativos.Prelude.{
  ◌≡◌, refl, sym, ap, ◌∙◌, ◌⊎◌, inl, inr, Option, none, some, List, ◌∷◌, Bool, true, false, ◌||◌,
  Option-cases, if◌then◌else◌,
}
use mathlib.Core.Path.{subst}
use sistemas_operativos.Prelude.Int.{ℤ}
use sistemas_operativos.Kernel.Machine.{M, Machine, Resource, ◌>>=◌, ◌>>◌, new_cred, release}
use sistemas_operativos.Creds.{
  Ids, Cred, CredKernel, Capability, abort, with_new_cred, or_capable, commit,
}
use sistemas_operativos.Creds.Documented.{Documented, FsRefused, fs_no_memory}
use sistemas_operativos.Creds.Settled.{Starts, Working}

module _ (K : CredKernel) (q : Documented K) (c : Cred K.Caps) (h : List Resource) where
  open K use {World, Caps}

  -- The call ends without a fault and holds what it held before. It has returned `r`. If the change
  -- is wanted and the kernel refuses nothing, the identities have become `ids`; otherwise the
  -- credentials are the old ones.
  abbrev pub Returns : ℤ → Bool → Ids → Option (ℤ × Machine World) → Type 0
  Returns r wanted ids none = ⊥
  Returns r wanted ids (some (r', s)) =
      (s.held ≡ h)
      × (r' ≡ r)
      × (((K.current_cred s.world ≡ c) × (FsRefused K ⊎ (wanted ≡ false)))
          ⊎ (((K.current_cred s.world).ids ≡ ids) × (wanted ≡ true)))

  module _ (r : ℤ) (wanted : Bool) (ids : Ids) where
    pub abort-Returns :
        (s : Machine World)
        → Working K q c h s
        → FsRefused K ⊎ (wanted ≡ false)
        → Returns r wanted ids (abort K r s)
    abort-Returns s w why =
        rw (◌>>◌, ◌>>=◌, release, w.1) (refl, refl, inl (q.current-abort s.world ∙ w.0, why))

    pub if-Returns :
        (b : Bool) (m n : M World ℤ) (s : Machine World)
        → (b ≡ true → Returns r wanted ids (m s))
        → (b ≡ false → Returns r wanted ids (n s))
        → Returns r wanted ids ((if b then m else n) s)
    if-Returns true m n s first second = first refl
    if-Returns false m n s first second = second refl

    pub commit-Returns :
        (new : Cred Caps) (s : Machine World)
        → Working K q c h s
        → new.ids ≡ ids
        → wanted ≡ true
        → Returns r wanted ids ((commit K new >>= λ _ t. some (r, t)) s)
    unfolding commit
    commit-Returns new s w e granted =
        rw (commit, ◌>>◌, ◌>>=◌, release, w.1)
          (refl, refl, inr (ap (λ (m : Cred Caps). m.ids) (q.committed new s.world) ∙ e, granted))

    pub with_new_cred-Returns :
        (k : Cred Caps → M World ℤ) (s : Machine World)
        → Starts K q c h s
        → ((t : Machine World) → Working K q c h t → Returns r wanted ids (k c t))
        → Returns r wanted ids (with_new_cred K r k s)
    unfolding with_new_cred
    with_new_cred-Returns k s start rest = elim (Option-cases (K.prepare_creds s.world).0) [
      | inl null ↦
          rw (◌>>=◌, null)
            (
              start.1,
              refl,
              inl (q.current-prepare s.world ∙ start.0, inl (fs_no_memory s.world null)),
            )
      | inr (new, given) ↦
          rw (◌>>=◌, given, q.prepared s.world new given ∙ start.0)
            (rest (record { world = (K.prepare_creds s.world).1; held = new_cred ∷ s.held })
              (q.current-prepare s.world ∙ start.0, ap (λ l. new_cred ∷ l) start.1))
    ]

    pub or_capable-Returns :
        (test : Bool) (cap : Capability) (k : Bool → M World ℤ) (s : Machine World)
        → Working K q c h s
        → ((t : Machine World)
            → Working K q c h t
            → Returns r wanted ids (k (test || q.capable cap c) t))
        → Returns r wanted ids ((or_capable K test cap >>= k) s)
    unfolding or_capable
    or_capable-Returns true cap k s w rest = rest s w
    or_capable-Returns false cap k s w rest =
        subst
          (λ (b : Bool).
            Returns r wanted ids (k b (record s { world = (K.ns_capable_setid cap s.world).1 })))
          (sym (q.answer cap s.world ∙ ap (q.capable cap) w.0))
          (rest _ (q.current-capable cap s.world ∙ w.0, w.1))
