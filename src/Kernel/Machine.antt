-- ===== src/Kernel/Machine.antt =====
-- A call that runs in the kernel: state with a world and the resources held, and a fault (`none`)
-- for what crashes the kernel, such as a division by zero or a release of what is not held, or frees
-- the memory of threads that run.
use sistemas_operativos.Prelude.{ℕ, Option, none, some, List, [], ◌∷◌, ◌==◌, if◌then◌else◌}

-- The pointers that the calls own, by the variable that holds them, and the locks they hold.
pub data Resource : Type 0 where
  input_file output_file key_file : Resource
  encryption_key file_buffer : Resource
  thread_list task_list fragment_list : Resource
  k_input_filepath k_output_filepath k_key_filepath : Resource
  output_buffer kernel_log_buffer : Resource
  new_cred : Resource
  procs output : Resource
  rcu_lock tasklist_lock user_reference uts_sem : Resource
  task_lock task_reference : Resource

abbrev tag : Resource → ℕ
tag input_file = 0
tag output_file = 1
tag key_file = 2
tag encryption_key = 3
tag file_buffer = 4
tag thread_list = 5
tag task_list = 6
tag fragment_list = 7
tag k_input_filepath = 8
tag k_output_filepath = 9
tag k_key_filepath = 10
tag output_buffer = 11
tag kernel_log_buffer = 12
tag new_cred = 13
tag procs = 14
tag output = 15
tag rcu_lock = 16
tag tasklist_lock = 17
tag user_reference = 18
tag uts_sem = 19
tag task_lock = 20
tag task_reference = 21

pub record Machine (W : Type 0) : Type 0 where
  pub world : W
  pub held : List Resource

abbrev pub M : Type 0 → Type 0 → Type 0
M W A = Machine W → Option (A × Machine W)

infixl 5 ◌>>=◌ ◌>>◌
abbrev pub ◌>>=◌ : {W A B : Type 0} → M W A → (A → M W B) → M W B
◌>>=◌ m k s = elim (m s) [ none ↦ none | some (a, s') ↦ k a s' ]

abbrev pub ◌>>◌ : {W B : Type 0} → M W (Unit {0}) → M W B → M W B
m >> k = m >>= λ _. k

abbrev pub pure : {W A : Type 0} → A → M W A
pure a s = some (a, s)

abbrev pub oops : {W A : Type 0} → M W A
oops s = none

-- A call of a kernel function.
abbrev pub call : {W A : Type 0} → (W → A × W) → M W A
call f s = let (a, w) = f s.world in some (a, record s { world = w })

abbrev pub look : {W A : Type 0} → (W → A) → M W A
look f s = some (f s.world, s)

abbrev pub acquire : {W : Type 0} → Resource → M W (Unit {0})
acquire r s = some (tt, record s { held = r ∷ s.held })

abbrev pub remove : Resource → List Resource → Option (List Resource)
remove r [] = none
remove r (q ∷ held) =
    let rest = remove r held in
    if tag r == tag q then some held else elim rest [ none ↦ none | some l ↦ some (q ∷ l) ]

-- `kfree` or `filp_close`: a fault if the resource is not held.
abbrev pub release : {W : Type 0} → Resource → M W (Unit {0})
release r s = elim (remove r s.held) [ none ↦ none | some l ↦ some (tt, record s { held = l }) ]
