-- ===== src/Tests/Server.antt =====
-- A kernel with fixed counters and JSON trees, in which the server runs.
use sistemas_operativos.Prelude.{
  ℕ, zero, suc, ◌≡◌, refl, none, some, Option, List, [], ◌∷◌, ◌++◌, length, true, false,
  if◌then◌else◌, arith, drop,
}
use sistemas_operativos.Prelude.Int.{ℤ, negsuc}
use sistemas_operativos.Kernel.Machine.{M, Machine, pure}
use sistemas_operativos.Text.{streq, codes}
use sistemas_operativos.Stats.{
  Counters, NodeStatItem, nr_file_pages, nr_free_pages, nr_file_mapped, nr_active_anon,
  nr_active_file, nr_inactive_anon, nr_inactive_file, SysInfo,
}
use sistemas_operativos.Stats.Reply.{UserBuffer, Served}
use sistemas_operativos.Api.Json.{CJson, Documented}

abbrev pub memory : SysInfo
memory = record {
  totalram = 1000;
  freeram = 300;
  bufferram = 50;
  totalswap = 200;
  freeswap = 80;
  mem_unit = 4096;
}

abbrev counter : NodeStatItem → ℕ
counter nr_file_pages = 250
counter nr_free_pages = 40
counter nr_file_mapped = 30
counter nr_active_anon = 11
counter nr_active_file = 12
counter nr_inactive_anon = 13
counter nr_inactive_file = 14

abbrev pub zeros : ℕ → List ℕ
zeros zero = []
zeros (suc n) = 0 ∷ zeros n

pub length-zeros : (n : ℕ) → length (zeros n) ≡ n
length-zeros zero = refl
length-zeros (suc n) = omega (arith, length-zeros n)

-- The world is the buffer of the server.
abbrev pub counters : Counters
counters = record {
  World = List ℕ;
  UserPtr = Unit {0};
  si_meminfo = λ w. (memory, w);
  si_swapinfo = λ w. (memory, w);
  global_node_page_state = λ i w. (counter i, w);
  stack = λ n w. zeros n;
  copy_to_user = λ p bytes w. (0, bytes ++ drop (length bytes) w);
}

-- The same, but every copy to the server fails.
abbrev pub deaf_counters : Counters
deaf_counters = record counters { copy_to_user = λ p bytes w. (length bytes, w) }

abbrev pub server : UserBuffer counters
server = record { buffer = tt; content = λ w. w; memset = λ n w. zeros n }

abbrev pub deaf_server : UserBuffer deaf_counters
deaf_server = record { buffer = tt; content = λ w. w; memset = λ n w. zeros n }

unfoldable pub server-Served : Served counters server
server-Served = record {
  stack = λ n w. length-zeros n;
  copied = λ bytes w. refl;
  content-copied = λ bytes w. refl;
}

pub data Tree : Type 0 where
  empty : Tree
  member : Tree → List ℕ → Tree → Tree
  string : List ℕ → Tree
  number : ℕ → Tree

abbrev find : Tree → List ℕ → Option Tree
find empty name = none
find (member rest other value) name =
    let found = find rest name in if streq other name then some value else found
find (string s) name = none
find (number n) name = none

abbrev value_string : Tree → Option (List ℕ)
value_string empty = none
value_string (member rest other value) = none
value_string (string s) = some s
value_string (number n) = none

abbrev value_number : Tree → ℕ
value_number empty = 0
value_number (member rest other value) = 0
value_number (string s) = 0
value_number (number n) = n

abbrev add_string : Tree → List ℕ → Option (List ℕ) → Tree
add_string t name none = t
add_string t name (some s) = member t name (string s)

abbrev pub trees : CJson
trees = record {
  Json = Tree;
  Number = ℕ;
  number_of = λ n. n;
  create_object = empty;
  create_array = empty;
  create_string = string;
  add_number_to_object = λ t name n. member t name (number n);
  add_string_to_object = add_string;
  add_item_to_object = member;
  add_item_to_array = λ t item. member t [] item;
  get_object_item = find;
  valuestring = value_string;
  valuedouble = value_number;
  is_array = λ t. false;
  elements = λ t. [];
  parse = λ s. none;
  print = λ t. codes "{}";
}

streq_self : (s : List ℕ) → streq s s ≡ true
streq_self [] = refl
streq_self (x ∷ s) = ground (arith, streq_self s)

pub trees-Documented : Documented trees
trees-Documented = record { item = λ name s. rw (streq_self name) refl; string = λ s. refl }

abbrev pub no_other : ℕ → Unit {0} → ℕ → M (List ℕ) ℤ
no_other n buffer size = pure (negsuc 37)

abbrev pub garbage : ℕ → ℕ
garbage i = 7

abbrev pub at_start : Machine (List ℕ)
at_start = record { world = []; held = [] }
