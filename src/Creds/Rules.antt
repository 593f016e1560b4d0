-- ===== src/Creds/Rules.antt =====
-- The rules for changing identities, as functions on the identities alone: what a process may
-- choose, and what follows for the other identities. `none` is a refusal.
use sistemas_operativos.Prelude.{
  ℕ, Bool, true, false, not, ◌&&◌, ◌||◌, ◌==◌, if◌then◌else◌, Option, none, some, List, [], ◌∷◌,
}
use sistemas_operativos.Creds.{Ids, is_set}

-- An argument of a call: -1 leaves an identity as it is.
abbrev pub argument : ℕ → ℕ → Option ℕ
argument id kid = if is_set id then some kid else none

abbrev pub choose : Option ℕ → ℕ → ℕ
choose none old = old
choose (some k) old = k

abbrev pub one_of : ℕ → List ℕ → Bool
one_of k [] = false
one_of k (x ∷ xs) = k == x || one_of k xs

-- A privileged process may choose any identity, another one only among some of its own.
abbrev pub may : Bool → Option ℕ → List ℕ → Bool
may privileged none own = true
may privileged (some k) own = privileged || one_of k own

abbrev pub setuid_rule : Bool → ℕ → Ids → Option Ids
setuid_rule true k i = some (record i { uid = k; euid = k; suid = k; fsuid = k })
setuid_rule false k i =
    if one_of k (i.uid ∷ i.suid ∷ []) then some (record i { euid = k; fsuid = k }) else none

-- The saved identity follows the effective one if the real one is chosen, or if the effective one
-- becomes another than the real one was.
abbrev pub follows : Option ℕ → Option ℕ → ℕ → Bool
follows (some r) e real = true
follows none none real = false
follows none (some k) real = not (k == real)

abbrev pub setreuid_rule : Bool → Option ℕ → Option ℕ → Ids → Option Ids
setreuid_rule privileged r e i =
    if may privileged r (i.uid ∷ i.euid ∷ []) && may privileged e (i.uid ∷ i.euid ∷ i.suid ∷ [])
    then some (record i {
      uid = choose r i.uid;
      euid = choose e i.euid;
      suid = if follows r e i.uid then choose e i.euid else i.suid;
      fsuid = choose e i.euid;
    })
    else none

abbrev pub keeps : Option ℕ → ℕ → Bool
keeps none old = true
keeps (some k) old = k == old

-- Nothing happens where every identity is to be what it is.
abbrev pub setresuid_rule : Bool → (r e s : Option ℕ) → Ids → Option Ids
setresuid_rule privileged r e s i =
    let own = i.uid ∷ i.euid ∷ i.suid ∷ [] in
    if keeps r i.uid && ((keeps e i.euid && keeps e i.fsuid) && keeps s i.suid)
    then some i
    else if may privileged r own && (may privileged e own && may privileged s own)
    then some (record i {
      uid = choose r i.uid;
      euid = choose e i.euid;
      suid = choose s i.suid;
      fsuid = choose e i.euid;
    })
    else none
