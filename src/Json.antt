-- ===== src/Json.antt =====
-- What the daemon takes of nlohmann::json, a library that is not part of this repository: reading
-- values out of a JSON value, and making one. The operations are a parameter, and `IsJson` is what the
-- library documents of them and the modelled code relies on.
use h9d.Prelude.{
  ℕ, ◌^◌, ◌<◌, ◌≡◌, Bool, List, [], ◌∷◌, Option, some, none, String, ℤ, AllBelow, if◌then◌else◌,
}
use h9d.Node.Registers.{same_string}

pub data Kind : Type 0 where
  string_kind float_kind integer_kind array_kind other_kind : Kind

-- `get` of a type is `none` where the library throws its type_error. A float is its 32 bits, and a
-- text that is the value of a register is its bytes.
pub record JsonLib (J : Type 0) : Type 0 where
  pub member : String → J → Option J
  pub kind : J → Kind
  pub get_bool : J → Option Bool
  pub get_u8 : J → Option ℕ
  pub get_u16 : J → Option ℕ
  pub get_int64 : J → Option ℤ
  pub get_float : J → Option ℕ
  pub get_string : J → Option String
  pub get_text : J → Option (List ℕ)
  pub get_bytes : J → Option (List ℕ)
  pub of_object : List (String × J) → J
  pub of_number : ℕ → J
  pub of_string : String → J
  pub of_bytes : List ℕ → J

-- `std::map::find` for keys that are strings.
abbrev pub find_key {ℓ} : {A : Type ℓ} → String → List (String × A) → Option A
find_key k [] = none
find_key k (e ∷ m) = if same_string (e.0) k then some (e.1) else find_key k m

pub record IsJson (J : Type 0) (lib : JsonLib J) : Type 0 where
  pub member-of_object :
      (k : String) (m : List (String × J)) → lib.member k (lib.of_object m) ≡ find_key k m
  pub get_u8-of_number : (n : ℕ) → n < 256 → lib.get_u8 (lib.of_number n) ≡ some n
  pub get_u16-of_number : (n : ℕ) → n < 2 ^ 16 → lib.get_u16 (lib.of_number n) ≡ some n
  pub get_bytes-of_bytes :
      (bs : List ℕ) → AllBelow 256 bs → lib.get_bytes (lib.of_bytes bs) ≡ some bs
