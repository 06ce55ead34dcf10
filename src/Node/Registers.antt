-- ===== src/Node/Registers.antt =====
-- common/node_desc_loader.h and h9d/node.cc: the descriptions of registers, and the registers of a
-- node. A map is a list of its entries, and the strings that no decision reads are kept as they are.
use h9d.Prelude.{
  ℕ, ◌%◌, ◌==◌, ◌&&◌, Bool, true, false, not, List, [], ◌∷◌, Option, none, some, String, ltb,
  if◌then◌else◌,
}
use text.Mathlib.Text

abbrev pub same_string : String → String → Bool
same_string a b = Text.◌==◌ a b

pub record RegisterDesc : Type 0 where
  pub number : ℕ
  pub name : String
  pub type : String
  pub size : ℕ
  pub readable : Bool
  pub writable : Bool
  pub bits_names : List String
  pub description : String

pub record NodeDesc : Type 0 where
  pub name : String
  pub description : String
  pub registers : List (ℕ × RegisterDesc)

-- `std::map::find` and `m[key] = v`.
module _ {ℓ} {A : Type ℓ} where
  unfoldable pub lookup : ℕ → List (ℕ × A) → Option A
  lookup k [] = none
  lookup k (e ∷ m) = if e.0 == k then some (e.1) else lookup k m

  unfoldable pub insert : ℕ → A → List (ℕ × A) → List (ℕ × A)
  insert k v [] = (k, v) ∷ []
  insert k v (e ∷ m) = let rest = insert k v m in if e.0 == k then (k, v) ∷ m else e ∷ rest

-- The static table of standard registers and the types read from the description file.
pub record NodeDescLoader : Type 0 where
  pub std_register : List (ℕ × RegisterDesc)
  pub types : List (ℕ × NodeDesc)

unfoldable pub get_node_name_by_type : ℕ → NodeDescLoader → String
get_node_name_by_type type l = elim (lookup type l.types) [ some d ↦ d.name | none ↦ "" ]

unfoldable pub get_node_description_by_type : ℕ → NodeDescLoader → String
get_node_description_by_type type l = elim (lookup type l.types) [
  | some d ↦ d.description
  | none ↦ ""
]

unfoldable pub get_node_register_by_type : ℕ → NodeDescLoader → List (ℕ × RegisterDesc)
get_node_register_by_type type l = elim (lookup type l.types) [ some d ↦ d.registers | none ↦ [] ]

-- `last` is NODE_STD_REGISTER_LAST of h9def.h.
unfoldable pub find_register : ℕ → NodeDescLoader → ℕ → ℕ → Option RegisterDesc
find_register last l node_type reg =
    if ltb reg last
    then lookup reg l.std_register
    else elim (lookup node_type l.types) [ none ↦ none | some d ↦ lookup reg d.registers ]

-- `logger`, the times and the dependent devices are left out.
pub record Node : Type 0 where
  pub node_type : ℕ
  pub node_version : ℕ
  pub hardware_revision : ℕ
  pub reset_reason : ℕ
  pub node_name : String
  pub node_description : String
  pub register_map : List (ℕ × RegisterDesc)
  pub is_init : Bool

-- The constructor; it leaves the hardware revision and the reset reason as they are in memory.
unfoldable pub new_node : ℕ → ℕ → Node
new_node revision reason = record {
  node_type = 0;
  node_version = 0;
  hardware_revision = revision;
  reset_reason = reason;
  node_name = "unknown";
  node_description = "";
  register_map = [];
  is_init = false;
}

-- `for (it : from) register_map[it.first] = it.second;`: the keys of the node's map have 8 bits.
unfoldable pub put_registers :
    List (ℕ × RegisterDesc) → List (ℕ × RegisterDesc) → List (ℕ × RegisterDesc)
put_registers [] m = m
put_registers (e ∷ from) m = put_registers from (insert (e.0 % 256) (e.1) m)

unfoldable pub load_description : NodeDescLoader → Node → Node
unfolding put_registers
load_description l n =
    let named =
      if not (same_string (get_node_name_by_type n.node_type l) "")
      then record n {
        node_name = get_node_name_by_type n.node_type l;
        node_description = get_node_description_by_type n.node_type l;
      }
      else n in
    record named {
      register_map =
          put_registers (get_node_register_by_type n.node_type l) (put_registers l.std_register []);
    }

unfoldable pub init : NodeDescLoader → ℕ → ℕ → ℕ → ℕ → Node → Node
init l type version revision reason n =
    let started = record n { reset_reason = reason; is_init = true } in
    let changed =
      load_description l (record started {
        node_version = version;
        hardware_revision = revision;
        node_type = type;
      }) in
    if n.node_type == type && n.node_version == version && n.hardware_revision == revision
    then started
    else changed
