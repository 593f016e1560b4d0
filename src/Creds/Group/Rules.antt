-- ===== src/Creds/Group/Rules.antt =====
-- The rules for group identities are those for user identities, on the groups.
use sistemas_operativos.Prelude.{ℕ, ◌≡◌, refl, Bool, Option, none, some}
use sistemas_operativos.Creds.{Ids}
use sistemas_operativos.Creds.Rules.{setuid_rule, setreuid_rule, setresuid_rule}

-- Users for groups, and groups for users.
abbrev pub swap : Ids → Ids
swap i = record {
  uid = i.gid;
  euid = i.egid;
  suid = i.sgid;
  fsuid = i.fsgid;
  gid = i.uid;
  egid = i.euid;
  sgid = i.suid;
  fsgid = i.fsuid;
}

abbrev pub on_groups : (Ids → Option Ids) → Ids → Option Ids
on_groups rule i = elim (rule (swap i)) [ none ↦ none | some j ↦ some (swap j) ]

abbrev pub setgid_rule : Bool → ℕ → Ids → Option Ids
setgid_rule privileged k = on_groups (setuid_rule privileged k)

abbrev pub setregid_rule : Bool → Option ℕ → Option ℕ → Ids → Option Ids
setregid_rule privileged r e = on_groups (setreuid_rule privileged r e)

abbrev pub setresgid_rule : Bool → (r e s : Option ℕ) → Ids → Option Ids
setresgid_rule privileged r e s = on_groups (setresuid_rule privileged r e s)

pub on_groups-some :
    (rule : Ids → Option Ids) (i j : Ids)
    → rule (swap i) ≡ some (swap j)
    → on_groups rule i ≡ some j
on_groups-some rule i j allowed = rw (on_groups, allowed) refl

pub on_groups-none :
    (rule : Ids → Option Ids) (i : Ids) → rule (swap i) ≡ none → on_groups rule i ≡ none
on_groups-none rule i refused = rw (on_groups, refused) refl
