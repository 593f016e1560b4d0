-- ===== src/Hostname/RoundTrip.antt =====
-- gethostname gives back what sethostname has stored.
use sistemas_operativos.Prelude.{
  ℕ, zero, suc, ◌+◌, ◌-◌, ◌≤◌, ◌≡◌, refl, sym, ap, ◌∙◌, List, [], ◌∷◌, ◌++◌, true, false, ltb, ◌==◌,
  if◌then◌else◌, some, take, drop, replicate, length, length-append, length-drop, length-replicate,
  arith, Bool-cases, inl, inr,
}
use mathlib.Core.List.{append_assoc, append-nil}
use sistemas_operativos.Prelude.Int.{pos}
use sistemas_operativos.Kernel.Errno.{minus_efault}
use sistemas_operativos.Kernel.Machine.{Machine, Resource, uts_sem}
use sistemas_operativos.Text.Buffer.{strlen, null_free, strlen-append, take-length}
use sistemas_operativos.Hostname.{
  UtsKernel, new_uts_len, memcpy, renamed, copied_length, change_nodename, copy_name, store_name,
  sethostname, copied_if, copy_out, gethostname,
}

-- The field for the name has 65 bytes and is read as it was written, and the other calls leave it.
pub record Documented (K : UtsKernel) : Type 0 where
  pub size : (w : K.World) → length (K.nodename w) ≡ suc new_uts_len
  pub written :
      (b : List ℕ) (w : K.World) → length b ≡ suc new_uts_len → K.nodename (K.set_nodename b w) ≡ b
  pub notified : (w : K.World) → K.nodename (K.notify_hostname w) ≡ K.nodename w

drop_all : (n : ℕ) (xs : List ℕ) → length xs ≤ n → drop n xs ≡ []
drop_all zero [] h = refl
drop_all (suc n) [] h = refl
drop_all zero (x ∷ xs) h = absurd (omega arith)
drop_all (suc n) (x ∷ xs) h = drop_all n xs (omega arith)

take_all : (n : ℕ) (xs : List ℕ) → length xs ≤ n → take n xs ≡ xs
take_all zero [] h = refl
take_all (suc n) [] h = refl
take_all zero (x ∷ xs) h = absurd (omega arith)
take_all (suc n) (x ∷ xs) h = ap (λ l. x ∷ l) (take_all n xs (omega arith))

take_front : (n : ℕ) (s t : List ℕ) → n ≤ length s → take n (s ++ t) ≡ take n s
take_front zero s t h = refl
take_front (suc n) [] t h = absurd (omega arith)
take_front (suc n) (x ∷ s) t h = ap (λ l. x ∷ l) (take_front n s t (omega arith))

-- The name, and null bytes up to the end.
renamed-replicate :
    (name tmp : List ℕ)
    → length tmp ≤ length name
    → renamed name tmp (length tmp) ≡ tmp ++ replicate (length name - length tmp) 0
renamed-replicate name tmp fits =
    let kept : take n (memcpy name tmp n) ≡ tmp =
      ap (λ l. take n (l ++ drop n name)) (take_all n tmp (omega arith))
      ∙ take-length tmp (drop n name) in
    let end : drop (n + (length name - n)) (memcpy name tmp n) ≡ [] =
      drop_all (n + (length name - n)) (memcpy name tmp n) (omega (arith, whole)) in
    rw (kept, end, append-nil) refl
  where
    n : ℕ
    n = length tmp

    whole : length (memcpy name tmp n) ≡ length name
    whole = rw (length-append, take_all n tmp (omega arith), length-drop) (omega (arith, fits))

length-renamed :
    (name tmp : List ℕ)
    → length tmp ≤ length name
    → length (renamed name tmp (length tmp)) ≡ length name
length-renamed name tmp fits =
    rw (renamed-replicate name tmp fits, length-append, length-replicate) (omega (arith, fits))

-- The bytes of a copy out are the name with its null byte, as far as the buffer goes.
take-copied_length :
    (tmp rest : List ℕ) (len : ℕ)
    → take (copied_length (length tmp) len) (tmp ++ (0 ∷ rest)) ≡ take len (tmp ++ (0 ∷ []))
take-copied_length tmp rest len = elim (Bool-cases (ltb len (1 + length tmp))) [
  | inl shorter ↦ rw shorter (
      ap (take len) (sym (append_assoc tmp (0 ∷ []) rest))
      ∙ take_front len (tmp ++ (0 ∷ [])) rest (rw length-append (ground arith)))
  | inr whole ↦ rw whole (
      ap (take (1 + length tmp)) (sym (append_assoc tmp (0 ∷ []) rest))
      ∙ take_front (1 + length tmp) (tmp ++ (0 ∷ [])) rest (rw length-append (omega arith))
      ∙ take_all (1 + length tmp) (tmp ++ (0 ∷ [])) (rw length-append (omega arith))
      ∙ sym (take_all len (tmp ++ (0 ∷ [])) (rw length-append (ground arith))))
]

module _ (K : UtsKernel) (doc : Documented K) where
  -- After sethostname with a name that can be copied, by a process that may.
  sethostname-nodename :
      (name : K.UserPtr) (tmp : List ℕ) (s : Machine K.World)
      → (K.ns_capable s.world).0 ≡ true
      → (K.copy_from_user name (length tmp) (K.ns_capable s.world).1).0 ≡ some tmp
      → length tmp ≤ new_uts_len
      → (w : K.World) × (sethostname K name (pos (length tmp)) s
          ≡ some (pos 0, record s { world = w }))
        × (K.nodename w ≡ tmp ++ replicate (suc new_uts_len - length tmp) 0)
  unfolding sethostname copy_name store_name change_nodename
  sethostname-nodename name tmp s capable copied fits =
      let w0 = (K.copy_from_user name (length tmp) (K.ns_capable s.world).1).1 in
      let w1 = K.add_device_randomness tmp w0 in
      let node = renamed (K.nodename w1) tmp (length tmp) in
      let inside : length tmp ≤ length (K.nodename w1) = rw doc.size (omega arith) in
      let full : length node ≡ suc new_uts_len =
        length-renamed (K.nodename w1) tmp inside ∙ doc.size w1 in
      let small : ltb new_uts_len (length tmp) ≡ false = ground arith in
      (
        change_nodename K tmp (length tmp) w1,
        rw (capable, small, copied) refl,
        doc.notified (K.set_nodename node w1)
            ∙ doc.written node w1 full
            ∙ renamed-replicate (K.nodename w1) tmp inside
            ∙ ap (λ k. tmp ++ replicate (k - length tmp) 0) (doc.size w1),
      )

  copied_if-else :
      (left : ℕ) (s : Machine K.World)
      → copied_if K left s ≡ some (if left == 0 then pos 0 else minus_efault, s)
  unfolding copied_if
  copied_if-else left s = elim (Bool-cases (left == 0)) [
    | inl whole ↦ rw whole refl
    | inr part ↦ rw part refl
  ]

  copy_out-take :
      (to : K.UserPtr) (tmp rest node : List ℕ) (len : ℕ) (w : K.World) (held : List Resource)
      → node ≡ tmp ++ (0 ∷ rest)
      → null_free tmp ≡ true
      → copy_out K to len node (strlen node) (record { world = w; held = uts_sem ∷ held })
        ≡ some (
          if (K.copy_to_user to (take len (tmp ++ (0 ∷ []))) w).0 == 0 then pos 0 else minus_efault,
          record { world = (K.copy_to_user to (take len (tmp ++ (0 ∷ []))) w).1; held = held },
        )
  unfolding copy_out
  copy_out-take to tmp rest node len w held e clean =
      rw (e, strlen-append tmp rest clean, take-copied_length tmp rest len)
        (copied_if-else (K.copy_to_user to (take len (tmp ++ (0 ∷ []))) w).0
          (record { world = (K.copy_to_user to (take len (tmp ++ (0 ∷ []))) w).1; held = held }))

  -- A name without null bytes of at most 64 bytes that a privileged process sets is stored: the call
  -- returns 0, and gethostname then copies to the user the name and a null byte, as far as the
  -- length of the user's buffer goes, and returns 0, or -EFAULT if that fails.
  pub sethostname-gethostname :
      (name to : K.UserPtr) (tmp : List ℕ) (len : ℕ) (s : Machine K.World)
      → (K.ns_capable s.world).0 ≡ true
      → (K.copy_from_user name (length tmp) (K.ns_capable s.world).1).0 ≡ some tmp
      → length tmp ≤ new_uts_len
      → null_free tmp ≡ true
      → (w : K.World) × (sethostname K name (pos (length tmp)) s
          ≡ some (pos 0, record s { world = w }))
        × (gethostname K to (pos len) (record s { world = w })
            ≡ some (
              if (K.copy_to_user to (take len (tmp ++ (0 ∷ []))) w).0 == 0
                  then pos 0
                  else minus_efault,
              record s { world = (K.copy_to_user to (take len (tmp ++ (0 ∷ []))) w).1 },
            ))
  unfolding gethostname
  sethostname-gethostname name to tmp len s capable copied fits clean =
      let (w, said, stored) = sethostname-nodename name tmp s capable copied fits in
      let one : suc new_uts_len - length tmp ≡ suc (new_uts_len - length tmp) = omega arith in
      (
        w,
        said,
        copy_out-take to tmp (replicate (new_uts_len - length tmp) 0) (K.nodename w) len w s.held
            (stored ∙ ap (λ k. tmp ++ replicate k 0) one) clean,
      )
