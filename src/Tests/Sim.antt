-- ===== src/Tests/Sim.antt =====
-- A kernel to run the calls in: files are numbered, their bytes are the world, and nothing fails but a write
-- to a file that is open for reading.
use sistemas_operativos.Prelude.{
  ℕ, ◌≡◌, ◌≢◌, refl, ap, ◌∙◌, none, some, List, [], ◌++◌, take, drop, Bool, true, false, length,
  arith, ◌==◌, if◌then◌else◌, ◌∷◌,
}
use sistemas_operativos.Prelude.Int.{ℤ, pos, negsuc}
use sistemas_operativos.Kernel.{Kernel, ok, OpenMode, read_only, write_create_truncate}
use sistemas_operativos.Kernel.Quiet.{Quiet}
use sistemas_operativos.Priorities.Outcome.{absurd_Bool}

abbrev pub put : (ℕ → List ℕ) → ℕ → List ℕ → ℕ → List ℕ
put w p bytes q = if q == p then bytes else w q

abbrev opened : ℕ → OpenMode → (ℕ → List ℕ) → ℕ → List ℕ
opened p read_only w = w
opened p write_create_truncate w = put w p []

-- A write at offset 0; it gives -EBADF in a file that is open for reading.
abbrev pub write_at_start : ℕ × OpenMode → List ℕ → ℕ → (ℕ → List ℕ) → ℤ × (ℕ → List ℕ)
write_at_start (p, read_only) bytes n w = (negsuc 8, w)
write_at_start (p, write_create_truncate) bytes n w =
    (pos n, put w p (take n bytes ++ drop n (w p)))

abbrev pub sim : Kernel
sim = record {
  World = ℕ → List ℕ;
  File = ℕ × OpenMode;
  FilePath = ℕ;
  UserPtr = ℕ;
  sizeof_completion = 32;
  filp_open = λ p mode w. (ok (p, mode), opened p mode w);
  filp_close = λ f w. w;
  i_size_read = λ f w. length (w f.0);
  kmalloc = λ n w. (some [], w);
  kernel_read = λ f block n w. ((pos (length (w f.0)), w f.0), w);
  kernel_write = write_at_start;
  kthread_run = λ i w. (none, w);
  strndup_user = λ p n w. (ok p, w);
}

pub put_self : (w : ℕ → List ℕ) (p : ℕ) (bytes : List ℕ) → put w p bytes p ≡ bytes
put_self w p bytes = ground arith

pub put_other : (w : ℕ → List ℕ) (p q : ℕ) (bytes : List ℕ) → q ≢ p → put w p bytes q ≡ w q
put_other w p q bytes ne = ground arith

pub write_at_start_count :
    (f : ℕ × OpenMode) (b : List ℕ) (w : ℕ → List ℕ)
    → f.1 ≡ write_create_truncate
    → ((write_at_start f b (length b) w).0 ≡ pos (length b))
      × ((write_at_start f b (length b) w).1 f.0 ≡ b ++ drop (length b) (w f.0))
write_at_start_count (p, read_only) b w e = absurd (differ e)
  where
    is_read : OpenMode → Bool
    is_read read_only = true
    is_read write_create_truncate = false

    differ : read_only ≡ write_create_truncate → ⊥
    differ e = absurd_Bool (ap is_read e)
write_at_start_count (p, write_create_truncate) b w e =
    (refl, put_self w p _ ∙ ap (λ c. c ++ drop (length b) (w p)) (take_all b))
  where
    take_all : (b : List ℕ) → take (length b) b ≡ b
    take_all [] = refl
    take_all (x ∷ b) = ap (◌∷◌ x) (take_all b)

pub write_at_start_other :
    (f : ℕ × OpenMode) (b : List ℕ) (n q : ℕ) (w : ℕ → List ℕ)
    → q ≢ f.0
    → (write_at_start f b n w).1 q ≡ w q
write_at_start_other (p, read_only) b n q w ne = refl
write_at_start_other (p, write_create_truncate) b n q w ne = put_other w p q _ ne

unfoldable pub sim-Quiet : Quiet sim
sim-Quiet = record {
  content = λ w p. w p;
  open_file = λ p mode w. (p, mode);
  path_of = λ f. f.0;
  mode_of = λ f. f.1;
  block = λ n w. [];
  open_read = λ p w. refl;
  open_write = λ p w. refl;
  path_of-open_file = λ p mode w. refl;
  mode_of-open_file = λ p mode w. refl;
  content-truncate = λ p w. put_self w p [];
  content-open_read = λ p w. refl;
  content-open_write = λ p q w ne. put_other w p q [] ne;
  content-close = λ f w. refl;
  size = λ f w. refl;
  alloc = λ n w. refl;
  content-alloc = λ n w. refl;
  read = λ f b w mode h. refl;
  content-read = λ f b n w. refl;
  write = λ f b w mode h. write_at_start_count f b w mode;
  content-write = λ f b n q w ne. write_at_start_other f b n q w ne;
  run = λ i w. refl;
  content-run = λ i w. refl;
}

-- File 0 is the text, file 1 the encrypted text, file 2 the decrypted text and file 3 the key.
abbrev pub disk : ℕ → List ℕ
disk p = if p == 0 then text else if p == 3 then key else []
  where
    text : List ℕ
    text = b'h' ∷ b'o' ∷ b'l' ∷ b'a' ∷ b'!' ∷ []

    key : List ℕ
    key = b'a' ∷ b'b' ∷ []
