-- ===== src/Api/Processes.antt =====
-- The server and the system call on the processes together: get_system_info, when it calls
-- procesos_info of the kernel.
use sistemas_operativos.Prelude.{
  ℕ, zero, suc, ◌/◌, ◌≤◌, ◌<◌, ◌≡◌, refl, ap, ◌∙◌, List, [], ◌∷◌, ◌++◌, Option, none, some, Bool,
  true, ◌==◌, take, drop, length, length-take, replicate, Bool-cases, inl, inr, arith,
}
use sistemas_operativos.Prelude.Int.{ℤ}
use sistemas_operativos.Kernel.Machine.{M, Machine, ◌>>=◌}
use sistemas_operativos.Text.{codes, c_string}
use sistemas_operativos.Text.Buffer.{null_free, null_free-take}
use sistemas_operativos.Stats.{Counters}
use sistemas_operativos.Stats.Reply.{UserBuffer, Served, Sends}
use sistemas_operativos.Procesos.{ProcKernel, Task, max_procs, procesos_info}
use sistemas_operativos.Procesos.Document.{document, with_memory}
use sistemas_operativos.Procesos.Printed.{null_free-document}
use sistemas_operativos.Procesos.Outcome.{clean-with_memory, procesos_info-document}
use sistemas_operativos.Procesos.Json.{JsonText, report, proper}
use sistemas_operativos.Procesos.Valid.{document-JsonText}
use sistemas_operativos.Api.{syscall, get_system_info, sys_procesos_info}
use sistemas_operativos.Api.Json.{CJson}
use sistemas_operativos.Api.Handlers.{Answers}

-- What procesos_info uses of the kernel beside the copy to the user.
pub record ProcOps (K : Counters) : Type 0 where
  pub ktime_get_ns : K.World → ℕ × K.World
  pub kmalloc_array : ℕ → K.World → Bool × K.World
  pub kmalloc : ℕ → K.World → Bool × K.World
  pub heap : ℕ → K.World → List ℕ
  pub processes : K.World → List Task

abbrev pub kernel_of : (K : Counters) → ProcOps K → ProcKernel
kernel_of K P = record {
  World = K.World;
  UserPtr = K.UserPtr;
  ktime_get_ns = P.ktime_get_ns;
  kmalloc_array = P.kmalloc_array;
  kmalloc = P.kmalloc;
  heap = P.heap;
  processes = P.processes;
  copy_to_user = K.copy_to_user;
}

-- The only call that the server makes beside the four on the memory.
abbrev pub proc_calls : (K : Counters) → ProcOps K → ℕ → K.UserPtr → ℕ → M K.World ℤ
proc_calls K P number buffer size = procesos_info (kernel_of K P) buffer size

-- A kernel that gives every block and has been up for a second; its clock and its allocations leave
-- the memory of the server alone. `memset` fills the buffer of the server.
pub record Steady (K : Counters) (U : UserBuffer K) (P : ProcOps K) : Type 0 where
  pub up : (w : K.World) → 1000000000 ≤ (P.ktime_get_ns w).0
  pub array_given : (n : ℕ) (w : K.World) → (P.kmalloc_array n w).0 ≡ true
  pub given : (n : ℕ) (w : K.World) → (P.kmalloc n w).0 ≡ true
  pub heap-length : (n : ℕ) (w : K.World) → length (P.heap n w) ≡ n
  pub content-ktime : (w : K.World) → U.content (P.ktime_get_ns w).1 ≡ U.content w
  pub content-array : (n : ℕ) (w : K.World) → U.content (P.kmalloc_array n w).1 ≡ U.content w
  pub content-kmalloc : (n : ℕ) (w : K.World) → U.content (P.kmalloc n w).1 ≡ U.content w
  pub content-memset : (n : ℕ) (w : K.World) → U.content (U.memset n w) ≡ replicate n 0

c_string-null_free : (t rest : List ℕ) → null_free t ≡ true → c_string (t ++ (0 ∷ rest)) ≡ t
unfolding c_string null_free
c_string-null_free [] rest h = refl
c_string-null_free (c ∷ t) rest h = elim (Bool-cases (c == 0)) [
  | inl null ↦ absurd (ground arith)
  | inr other ↦ rw (other, c_string-null_free t rest (ground arith)) refl
]

drop-replicate : (k n : ℕ) → k < n → (rest : List ℕ) × (drop k (replicate n 0) ≡ 0 ∷ rest)
drop-replicate k zero h = absurd (omega arith)
drop-replicate zero (suc n) h = (replicate n 0, refl)
drop-replicate (suc k) (suc n) h = drop-replicate k n (omega arith)

-- A text in front of a cleared buffer is the string in the buffer, since it leaves a null byte.
c_string-cleared :
    (t : List ℕ) (n : ℕ)
    → null_free t ≡ true
    → length t < n
    → c_string (t ++ drop (length t) (replicate n 0)) ≡ t
c_string-cleared t n h short =
    let (rest, e) = drop-replicate (length t) n short in
    ap (λ l. c_string (t ++ l)) e ∙ c_string-null_free t rest h

module _ (K : Counters) (U : UserBuffer K) (P : ProcOps K) (q : Served K U) (steady : Steady K U P)
    (s : Machine K.World) where
  open P use {ktime_get_ns, kmalloc_array, kmalloc, processes}

  abbrev cleared : Machine K.World
  cleared = record s { world = U.memset 912 s.world }

  abbrev now : ℕ × K.World
  now = ktime_get_ns cleared.world

  abbrev array : Bool × K.World
  array = kmalloc_array max_procs now.1

  -- The first 911 characters of the document on the processes that the kernel sees.
  abbrev process_text : List ℕ
  process_text = take 911 (document (with_memory (now.0 / 1000000000) (processes array.1)))

  block : Bool × K.World
  block = kmalloc 912 array.1

  procesos_info-Sends : Sends K U process_text (procesos_info (kernel_of K P) U.buffer 912 cleared)
  procesos_info-Sends =
      rw
        (
          procesos_info-document (kernel_of K P) U.buffer 912 (omega arith) (omega arith)
              (steady.heap-length 912) cleared steady.up,
          steady.array_given max_procs now.1,
          steady.given 912 array.1,
          q.copied process_text (kmalloc 912 array.1).1,
        )
        (refl, ap c_string content ∙ c_string-cleared process_text 912 free short)
    where
      free : null_free process_text ≡ true
      free = null_free-take 911 (document (with_memory (now.0 / 1000000000) (processes array.1))) (
          null_free-document (with_memory (now.0 / 1000000000) (processes array.1))
            (clean-with_memory (now.0 / 1000000000) (processes array.1)))

      short : length process_text < 912
      short =
          omega (
            arith,
            length-take 911 (document (with_memory (now.0 / 1000000000) (processes array.1))),
          )

      content :
          U.content (K.copy_to_user U.buffer process_text (kmalloc 912 array.1).1).1
          ≡ process_text ++ drop (length process_text) (replicate 912 0)
      content =
          q.content-copied process_text (kmalloc 912 array.1).1
          ∙ ap (λ l. process_text ++ drop (length process_text) l)
              (steady.content-kmalloc 912 array.1
                ∙ steady.content-array max_procs now.1
                ∙ steady.content-ktime cleared.world
                ∙ steady.content-memset 912 s.world)

  module _ (J : CJson) (stale : ℕ → ℕ) where
    get_system_info-process_text :
        Answers
          (J.add_string_to_object J.create_object (codes "data") (some process_text))
          (get_system_info K U J (proc_calls K P) stale sys_procesos_info s)
    unfolding get_system_info syscall
    get_system_info-process_text =
        go (procesos_info (kernel_of K P) U.buffer 912 cleared) refl procesos_info-Sends
      where
        go :
            (o : Option (ℤ × Machine K.World))
            → procesos_info (kernel_of K P) U.buffer 912 cleared ≡ o
            → Sends K U process_text o
            → Answers
                (J.add_string_to_object J.create_object (codes "data") (some process_text))
                (get_system_info K U J (proc_calls K P) stale sys_procesos_info s)
        go none e sent = absurd sent
        go (some (r, s')) e sent = rw (get_system_info, syscall, ◌>>=◌, e, sent.0, sent.1) refl

    -- If the kernel gives every block and has been up for a second, no copy to the server fails, the
    -- numbers of the processes are ints and no name has a quotation mark, a backslash or a control
    -- character, then get_system_info answers with the first 911 characters of a text: no byte of
    -- the kernel's block behind it comes through, and the string ends although the kernel sends no
    -- null byte. The whole text is JSON: an object whose member is the array of the first five
    -- processes that have memory of their own, with their figures.
    pub get_system_info-Answers :
        ((w : K.World) → proper (processes w) ≡ true)
        → (text : List ℕ) × JsonText (report (now.0 / 1000000000) (processes array.1)) text
          × Answers
              (J.add_string_to_object J.create_object (codes "data") (some (take 911 text)))
              (get_system_info K U J (proc_calls K P) stale sys_procesos_info s)
    get_system_info-Answers named = (
      document (with_memory (now.0 / 1000000000) (processes array.1)),
      document-JsonText (now.0 / 1000000000) (processes array.1) (named _),
      get_system_info-process_text,
    )
