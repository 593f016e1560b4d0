-- ===== src/Crypt/Threads/Invariant.antt =====
-- What holds in every state of the threads: each byte is done once its thread has passed it, and
-- as it was before that.
use sistemas_operativos.Prelude.{
  ℕ, suc, ◌+◌, ◌≤◌, ◌<◌, ◌≡◌, refl, ◌∙◌, ◌≢◌, ◌⊎◌, inl, inr, List, arith, length, length-set,
  get_or, set, Bool-cases, ◌==◌, ==_iff,
}
use mathlib.Core.Path.{subst}
use sistemas_operativos.Crypt.Fragment.{DataFragment}
use sistemas_operativos.Crypt.Worker.{xor_at}
use sistemas_operativos.Crypt.Threads.{
  Pc, not_started, head, loaded, finished, MainPc, creating, waiting, joined, failed, System,
  update, init, Step, create, create_fails, created, wait, waited, load, store, complete, Runs,
  here, next, Reach,
}
use sistemas_operativos.Crypt.Threads.Tiling.{Tiled}
use sistemas_operativos.Crypt.Threads.Slice.{Slice, Slice-write, Slice-write_elsewhere, Slice-over}

abbrev pub Work : DataFragment → List ℕ → List ℕ → Pc → Type 0
Work f file buffer not_started = Slice f file buffer f.start_idx f.start_idx f.end_idx
Work f file buffer (head i) = Slice f file buffer f.start_idx i f.end_idx
Work f file buffer (loaded i byte) =
    Slice f file buffer f.start_idx i f.end_idx × (i < f.end_idx) × (byte ≡ get_or file i 0)
Work f file buffer finished = Slice f file buffer f.start_idx f.end_idx f.end_idx

abbrev pub Control : ℕ → MainPc → (ℕ → Pc) → Type 0
Control n (creating i) pc =
    (i ≤ n) × ((t : ℕ) → i ≤ t → pc t ≡ not_started) × ((t : ℕ) → t < i → pc t ≢ not_started)
Control n (waiting i) pc =
    ((t : ℕ) → t < i → pc t ≡ finished) × ((t : ℕ) → t < n → pc t ≢ not_started)
Control n joined pc = (t : ℕ) → t < n → pc t ≡ finished
Control n failed pc = Unit {0}

module _ (f : ℕ → DataFragment) (thread_count : ℕ) (file : List ℕ) where
  pub record Inv (s : System) : Type 0 where
    pub size : length s.buffer ≡ length file
    pub control : Control thread_count s.main s.pc
    pub work : (t : ℕ) → t < thread_count → Work (f t) file s.buffer (s.pc t)

  Inv-init : Tiled f thread_count (length file) → Inv (init file)
  Inv-init tiled = record {
    size = refl;
    control = (omega arith, λ t h. refl, λ t h. elim h [ ]);
    work = λ t h. record {
      low = omega arith;
      high = tiled.ordered t h;
      done = λ j from before. absurd (omega arith);
      left = λ j from before. refl;
    };
  }

  -- A fact about every thread after one of them has moved.
  update_all :
      (P : ℕ → Pc → Type 0) (pc : ℕ → Pc) (t : ℕ) (p : Pc)
      → ((u : ℕ) → u < thread_count → t ≢ u → P u (pc u))
      → P t p
      → (u : ℕ) → u < thread_count
      → P u (update pc t p u)
  update_all P pc t p others own u h = elim (Bool-cases (t == u)) [
    | inl same ↦ rw same (subst (λ v. P v p) ((==_iff t u).0 same) own)
    | inr other ↦ rw other (others u h (ground arith))
  ]

  Control-move :
      (main : MainPc) (pc : ℕ → Pc) (t : ℕ) (p : Pc)
      → Control thread_count main pc
      → pc t ≢ not_started
      → pc t ≢ finished
      → t < thread_count
      → p ≢ not_started
      → Control thread_count main (update pc t p)
  Control-move (creating i) pc t p c begun running h new =
      (c.0, λ u le. ground (arith, c.1 u le, c.1 t), λ u lt. ground (arith, c.2 u lt))
  Control-move (waiting i) pc t p c begun running h new =
      (λ u lt. ground (arith, c.0 u lt, c.0 t), λ u lt. ground (arith, c.1 u lt))
  Control-move joined pc t p c begun running h new = absurd (running (c t h))
  Control-move failed pc t p c begun running h new = tt

  Work-elsewhere :
      (g : DataFragment) (p : Pc) (buffer : List ℕ) (i byte : ℕ)
      → Work g file buffer p
      → (i < g.start_idx) ⊎ (g.end_idx ≤ i)
      → Work g file (set buffer i byte) p
  Work-elsewhere g not_started buffer i byte w away = Slice-write_elsewhere i byte w away
  Work-elsewhere g (head j) buffer i byte w away = Slice-write_elsewhere i byte w away
  Work-elsewhere g (loaded j b) buffer i byte w away =
      (Slice-write_elsewhere i byte w.0 away, w.1, w.2)
  Work-elsewhere g finished buffer i byte w away = Slice-write_elsewhere i byte w away

  module _ (tiled : Tiled f thread_count (length file)) where
    store-Inv :
        {s : System} (t i byte : ℕ)
        → t < thread_count
        → s.pc t ≡ loaded i byte
        → Inv s
        → Inv (record s {
          buffer = set s.buffer i (xor_at (f t) i byte);
          pc = update s.pc t (head (i + 1));
        })
    store-Inv {s} t i byte h e inv = record {
      size = length-set s.buffer i (xor_at (f t) i byte) ∙ inv.size;
      control =
          Control-move s.main s.pc t (head (i + 1)) inv.control (λ q. cc) (λ q. cc) h (λ q. cc);
      work =
          update_all (λ u p. Work (f u) file (set s.buffer i (xor_at (f t) i byte)) p) s.pc t
            (head (i + 1)) others
            (Slice-write byte own.0 own.1 (omega (arith, tiled.inside t h, inv.size)) own.2);
    }
      where
        own : Work (f t) file s.buffer (loaded i byte)
        own = subst (Work (f t) file s.buffer) e (inv.work t h)

        others :
            (u : ℕ)
            → u < thread_count
            → t ≢ u
            → Work (f u) file (set s.buffer i (xor_at (f t) i byte)) (s.pc u)
        others u hu ne =
            Work-elsewhere (f u) (s.pc u) s.buffer i (xor_at (f t) i byte) (inv.work u hu)
              (omega (arith, tiled.apart t u h hu ne, own.0.low, own.1))

    Control-main : {s : System} (m : MainPc) → Inv s → s.main ≡ m → Control thread_count m s.pc
    Control-main {s} m inv e = subst (λ main. Control thread_count main s.pc) e inv.control

    Work-thread :
        {s : System} {t : ℕ} (p : Pc)
        → Inv s
        → t < thread_count
        → s.pc t ≡ p
        → Work (f t) file s.buffer p
    Work-thread {s} {t} p inv h e = subst (Work (f t) file s.buffer) e (inv.work t h)

    create-Control :
        (pc : ℕ → Pc) (i start_idx : ℕ)
        → i < thread_count
        → Control thread_count (creating i) pc
        → Control thread_count (creating (suc i)) (update pc i (head start_idx))
    create-Control pc i start_idx h c =
        (omega arith, λ t le. ground (arith, c.1 t (omega arith)), λ t lt. ground (arith, c.2 t))

    -- One thread moves, and the buffer stays.
    move-Inv :
        {s : System} (t : ℕ) (p : Pc)
        → t < thread_count
        → Inv s
        → Control thread_count s.main (update s.pc t p)
        → Work (f t) file s.buffer p
        → Inv (record s { pc = update s.pc t p })
    move-Inv {s} t p h inv c w = record {
      size = inv.size;
      control = c;
      work = update_all (λ u q. Work (f u) file s.buffer q) s.pc t p (λ u hu ne. inv.work u hu) w;
    }

    -- Only the starting thread moves.
    main-Inv :
        {s : System} (m : MainPc)
        → Inv s
        → Control thread_count m s.pc
        → Inv (record s { main = m })
    main-Inv m inv c = record { size = inv.size; control = c; work = inv.work }

    pub Step-Inv : {s s' : System} → Step f thread_count s s' → Inv s → Inv s'
    Step-Inv {s} (create i at h) inv =
        let c = Control-main (creating i) inv at in
        record {
          size = inv.size;
          control = create-Control s.pc i (f i).start_idx h c;
          work =
              update_all (λ u q. Work (f u) file s.buffer q) s.pc i (head (f i).start_idx)
                (λ u hu ne. inv.work u hu) (Work-thread not_started inv h (c.1 i (omega arith)));
        }
    Step-Inv (create_fails i at h) inv = main-Inv failed inv tt
    Step-Inv {s} (created i at h) inv =
        let c = Control-main (creating i) inv at in
        main-Inv (waiting 0) inv (λ t lt. elim lt [ ], λ t lt. c.2 t (omega arith))
    Step-Inv {s} (wait i at h done) inv =
        let c = Control-main (waiting i) inv at in
        main-Inv (waiting (suc i)) inv (λ t lt. ground (arith, c.0 t), c.1)
    Step-Inv {s} (waited i at h) inv =
        let c = Control-main (waiting i) inv at in main-Inv joined inv (λ t lt. c.0 t (omega arith))
    Step-Inv {s} (load t i h e more) inv =
        let w = Work-thread (head i) inv h e in
        move-Inv t (loaded i (get_or s.buffer i 0)) h inv
          (Control-move s.main s.pc t (loaded i (get_or s.buffer i 0)) inv.control (λ q. cc)
            (λ q. cc) h (λ q. cc))
          (w, more, w.left i (omega arith) more)
    Step-Inv (store t i byte h e) inv = store-Inv t i byte h e inv
    Step-Inv {s} (complete t i h e over) inv =
        move-Inv t finished h inv
          (Control-move s.main s.pc t finished inv.control (λ q. cc) (λ q. cc) h (λ q. cc))
          (Slice-over (Work-thread (head i) inv h e) over)

    Runs-Inv : {s s' : System} → Inv s → Runs f thread_count s s' → Inv s'
    Runs-Inv inv here = inv
    Runs-Inv inv (next r st) = Step-Inv st (Runs-Inv inv r)

    pub Reach-Inv : {s : System} → Reach f thread_count file s → Inv s
    Reach-Inv r = Runs-Inv (Inv-init tiled) r
