-- ===== src/Tests/Hostname.antt =====
-- The calls on the name of the system. The world is the name and the buffer of the user.
use sistemas_operativos.Prelude.{
  ℕ, ◌≡◌, refl, sym, ap, ◌∙◌, List, [], ◌∷◌, ◌++◌, true, some, take, replicate, length,
  length-append, length-replicate, length-take, arith,
}
use sistemas_operativos.Prelude.Int.{pos}
use sistemas_operativos.Kernel.Errno.{minus_einval}
use sistemas_operativos.Kernel.Machine.{Machine}
use sistemas_operativos.Text.Buffer.{null_free, take-length}
use sistemas_operativos.Hostname.{UtsKernel, sethostname, setdomainname, gethostname}
use sistemas_operativos.Hostname.RoundTrip.{Documented, sethostname-gethostname}

record Uts : Type 0 where
  name : List ℕ
  domain : List ℕ
  user : List ℕ

-- The 65 bytes of a field.
abbrev field : List ℕ → List ℕ
field b = take 65 (b ++ replicate 65 0)

abbrev new_name : List ℕ
new_name = 117 ∷ 115 ∷ 97 ∷ 99 ∷ []

abbrev uts_kernel : UtsKernel
uts_kernel = record {
  World = Uts;
  UserPtr = Unit {0};
  ns_capable = λ w. (true, w);
  copy_from_user = λ p n w. (some (take n w.user), w);
  copy_to_user = λ p b w. (0, record w { user = b });
  add_device_randomness = λ b w. w;
  nodename = λ w. field w.name;
  domainname = λ w. field w.domain;
  set_nodename = λ b w. record w { name = b };
  set_domainname = λ b w. record w { domain = b };
  notify_hostname = λ w. w;
  notify_domainname = λ w. w;
}

length-field : (b : List ℕ) → length (field b) ≡ 65
length-field b = rw (length-take, length-append, length-replicate) (omega arith)

field-length : (b : List ℕ) → length b ≡ 65 → field b ≡ b
field-length b e = ap (λ n. take n (b ++ replicate 65 0)) (sym e) ∙ take-length b (replicate 65 0)

abbrev documented : Documented uts_kernel
documented = record {
  size = λ w. length-field w.name;
  written = λ b w. field-length b;
  notified = λ w. refl;
}

abbrev before : Machine Uts
before = record { world = record { name = 108 ∷ []; domain = []; user = new_name }; held = [] }

too_long : sethostname uts_kernel tt (pos 65) before ≡ some (minus_einval, before)
unfolding sethostname
too_long = refl

domain_stored :
    setdomainname uts_kernel tt (pos 4) before
    ≡ some (
      pos 0,
      record before { world = record before.world { domain = new_name ++ replicate 61 0 } },
    )
unfolding setdomainname
domain_stored = refl

clean : null_free new_name ≡ true
unfolding null_free
clean = refl

-- With a buffer of three bytes.
sethostname-gethostname_example :
    (w : Uts) × (sethostname uts_kernel tt (pos 4) before
      ≡ some (pos 0, record before { world = w }))
    × (gethostname uts_kernel tt (pos 3) (record before { world = w })
        ≡ some (pos 0, record before { world = record w { user = 117 ∷ 115 ∷ 97 ∷ [] } }))
sethostname-gethostname_example =
    sethostname-gethostname uts_kernel documented tt tt new_name 3 before refl refl (omega arith)
      clean
