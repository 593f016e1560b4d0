-- ===== src/Sessions/Orderly.antt =====
-- Sessions are made of whole process groups, and what keeps them so.
use sistemas_operativos.Prelude.{
  ℕ, ◌≡◌, ◌≢◌, refl, sym, ap, ◌∙◌, Bool, true, ◌==◌, ==_iff, if◌then◌else◌, Bool-cases, inl, inr,
}
use sistemas_operativos.Sessions.{SessionKernel}
use sistemas_operativos.Sessions.Documented.{Placed}

-- The tasks of a group are in one session, and those of the group that bears the number of a task
-- are in the session of that task.
pub record Orderly (K : SessionKernel) (live : ℕ → Bool) (w : K.World) : Type 0 where
  pub groups :
      (p q : ℕ)
      → live p ≡ true
      → live q ≡ true
      → K.task_pgrp p w ≡ K.task_pgrp q w
      → K.task_session p w ≡ K.task_session q w
  pub own :
      (p q : ℕ)
      → live p ≡ true
      → live q ≡ true
      → K.task_pgrp q w ≡ K.task_pid p w
      → K.task_session q w ≡ K.task_session p w

module _ (K : SessionKernel) (live : ℕ → Bool) where
  pub Placed-Orderly : (w w' : K.World) → Placed K w w' → Orderly K live w → Orderly K live w'
  Placed-Orderly w w' same o = record {
    groups = λ p q lp lq e.
        same.session p
        ∙ o.groups p q lp lq (sym (same.pgrp p) ∙ e ∙ same.pgrp q)
        ∙ sym (same.session q);
    own = λ p q lp lq e.
        same.session q
        ∙ o.own p q lp lq (sym (same.pgrp q) ∙ e ∙ same.pid p)
        ∙ sym (same.session p);
  }

  module _ (w w' : K.World) (p i : ℕ) (pids : (q : ℕ) → K.task_pid q w' ≡ K.task_pid q w)
      (moved : (q : ℕ) → live q ≡ true → K.task_pgrp q w' ≡ (if q == p then i else K.task_pgrp q w))
      (o : Orderly K live w) where
    -- One task goes to a group of its session.
    pub join-Orderly :
        ((q : ℕ) → K.task_session q w' ≡ K.task_session q w)
        → ((q : ℕ) → live q ≡ true → K.task_pgrp q w ≡ i → K.task_session q w ≡ K.task_session p w)
        → ((r : ℕ) → live r ≡ true → i ≡ K.task_pid r w → K.task_session p w ≡ K.task_session r w)
        → Orderly K live w'
    join-Orderly stay members owner = record {
      groups = λ a b la lb e.
          stay a ∙ together a b la lb (sym (moved a la) ∙ e ∙ moved b lb) ∙ sym (stay b);
      own = λ r q lr lq e. stay q ∙ owned r q lr lq (sym (moved q lq) ∙ e ∙ pids r) ∙ sym (stay r);
    }
      where
        together :
            (a b : ℕ)
            → live a ≡ true
            → live b ≡ true
            → (if a == p then i else K.task_pgrp a w) ≡ (if b == p then i else K.task_pgrp b w)
            → K.task_session a w ≡ K.task_session b w
        together a b la lb e = elim (Bool-cases (a == p)) [
          | inl ap_ ↦ elim (Bool-cases (b == p)) [
            | inl bp ↦ ap (λ n. K.task_session n w) ((==_iff a p).0 ap_ ∙ sym ((==_iff b p).0 bp))
            | inr bq ↦
                ap (λ n. K.task_session n w) ((==_iff a p).0 ap_)
                ∙ sym (members b lb (sym (rw (ap_, bq) at e)))
          ]
          | inr aq ↦ elim (Bool-cases (b == p)) [
            | inl bp ↦
                members a la (rw (aq, bp) at e)
                ∙ sym (ap (λ n. K.task_session n w) ((==_iff b p).0 bp))
            | inr bq ↦ o.groups a b la lb (rw (aq, bq) at e)
          ]
        ]

        owned :
            (r q : ℕ)
            → live r ≡ true
            → live q ≡ true
            → (if q == p then i else K.task_pgrp q w) ≡ K.task_pid r w
            → K.task_session q w ≡ K.task_session r w
        owned r q lr lq e = elim (Bool-cases (q == p)) [
          | inl qp ↦ ap (λ n. K.task_session n w) ((==_iff q p).0 qp) ∙ owner r lr (rw qp at e)
          | inr other ↦ o.own r q lr lq (rw other at e)
        ]

    -- A task founds a session and a group of its own number, which no group bears.
    pub found-Orderly :
        ((q : ℕ) → live q ≡ true → K.task_session q w' ≡ (if q == p then i else K.task_session q w))
        → i ≡ K.task_pid p w
        → ((q r : ℕ) → live q ≡ true → live r ≡ true → K.task_pid q w ≡ K.task_pid r w → q ≡ r)
        → live p ≡ true
        → ((q : ℕ) → live q ≡ true → K.task_pgrp q w ≢ i)
        → Orderly K live w'
    found-Orderly entered number distinct lp free = record {
      groups = λ a b la lb e.
          entered a la
          ∙ together a b la lb (sym (moved a la) ∙ e ∙ moved b lb)
          ∙ sym (entered b lb);
      own = λ r q lr lq e.
          entered q lq ∙ owned r q lr lq (sym (moved q lq) ∙ e ∙ pids r) ∙ sym (entered r lr);
    }
      where
        together :
            (a b : ℕ)
            → live a ≡ true
            → live b ≡ true
            → (if a == p then i else K.task_pgrp a w) ≡ (if b == p then i else K.task_pgrp b w)
            → (if a == p then i else K.task_session a w)
              ≡ (if b == p then i else K.task_session b w)
        together a b la lb e = elim (Bool-cases (a == p)) [
          | inl ap_ ↦ elim (Bool-cases (b == p)) [
            | inl bp ↦ rw (ap_, bp) refl
            | inr bq ↦ absurd (free b lb (sym (rw (ap_, bq) at e)))
          ]
          | inr aq ↦ elim (Bool-cases (b == p)) [
            | inl bp ↦ absurd (free a la (rw (aq, bp) at e))
            | inr bq ↦ rw (aq, bq) (o.groups a b la lb (rw (aq, bq) at e))
          ]
        ]

        owned :
            (r q : ℕ)
            → live r ≡ true
            → live q ≡ true
            → (if q == p then i else K.task_pgrp q w) ≡ K.task_pid r w
            → (if q == p then i else K.task_session q w)
              ≡ (if r == p then i else K.task_session r w)
        owned r q lr lq e = elim (Bool-cases (q == p)) [
          | inl qp ↦
              let same = distinct p r lp lr (sym number ∙ (rw qp at e)) in
              rw (qp, (==_iff r p).1 (sym same)) refl
          | inr qq ↦ elim (Bool-cases (r == p)) [
            | inl rp ↦ absurd (
                free q lq
                  ((rw qq at e) ∙ ap (λ n. K.task_pid n w) ((==_iff r p).0 rp) ∙ sym number))
            | inr rq ↦ rw (qq, rq) (o.own r q lr lq (rw qq at e))
          ]
        ]
