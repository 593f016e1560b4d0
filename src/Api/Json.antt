-- ===== src/Api/Json.antt =====
-- What the server uses of cJSON. A null pointer is `none`, and trees are values: nothing of a tree
-- is changed after it has been added to another.
use sistemas_operativos.Prelude.{ℕ, ◌≡◌, Option, some, List, Bool}

pub record CJson : Type 1 where
  pub Json : Type 0
  pub Number : Type 0  -- double
  pub number_of : ℕ → Number
  pub create_object : Json
  pub create_array : Json
  pub create_string : List ℕ → Json
  pub add_number_to_object : Json → List ℕ → Number → Json
  pub add_string_to_object : Json → List ℕ → Option (List ℕ) → Json
  pub add_item_to_object : Json → List ℕ → Json → Json
  pub add_item_to_array : Json → Json → Json
  pub get_object_item : Json → List ℕ → Option Json
  pub valuestring : Json → Option (List ℕ)
  pub valuedouble : Json → Number
  pub is_array : Json → Bool
  pub elements : Json → List Json
  pub parse : List ℕ → Option Json
  pub print : Json → List ℕ

-- A string that is added to an empty object is found there.
pub record Documented (J : CJson) : Type 0 where
  pub item :
      (name s : List ℕ)
      → J.get_object_item (J.add_string_to_object J.create_object name (some s)) name
        ≡ some (J.create_string s)
  pub string : (s : List ℕ) → J.valuestring (J.create_string s) ≡ some s
