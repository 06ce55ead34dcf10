-- ===== src/Examples/Nodes.antt =====
-- h9d/node.cc at a node of two registers.
use h9d.Prelude.{
  subst, Bool-cases, ◌==◌, ◌<◌, ◌≡◌, refl, arith, ℕ, inl, inr, List, [], ◌∷◌, true, none, some,
  String, if◌then◌else◌,
}
use h9d.H9def.{frame_md}
use h9d.Frame.{H9Frame, unicast_frame, set_data}
use h9d.Comparator.{matches, compares, eq, eq_alternate_set, set_seqnum}
use h9d.RawNode.Request.{reply_comparator}
use h9d.Node.Registers.{RegisterDesc, NodeDesc, NodeDescLoader, Node, lookup, new_node}
use h9d.Node.Description.{IsMap, IsLoader}
use h9d.Node.Access.{get_register}
use h9d.Node.Broadcast.{get_reg_value_from_frame, register_value}
use h9d.Node.Exceptions.{Outcome}
use h9d.Node.Values.{get_register-get_reg_value_from_frame}
use h9d.Node.Text.{get_register-text}
use h9d.RawNode.Request.{Traffic}
use h9d.Node.Asks.{request as asked}
use h9d.Examples.{reply, memory, request, traffic}
use h9d.Examples.Requests.{traffic-AllWellFormed}

abbrev register : ℕ → String → ℕ → RegisterDesc
register number type size = record {
  number = number;
  name = "register";
  type = type;
  size = size;
  readable = true;
  writable = true;
  bits_names = [];
  description = "";
}

abbrev own_registers : List (ℕ × RegisterDesc)
own_registers =
    (20, register 20 "uint" 16) ∷ (21, register 21 "str" 16) ∷ (22, register 22 "uint" 32) ∷ []

abbrev sensor_desc : NodeDesc
sensor_desc = record { name = "sensor"; description = ""; registers = own_registers }

abbrev pub loader : NodeDescLoader
loader = record { std_register = (1, register 1 "uint" 16) ∷ []; types = (7, sensor_desc) ∷ [] }

found_type : (type : ℕ) (d : NodeDesc) → lookup type loader.types ≡ some d → sensor_desc ≡ d
unfolding lookup
found_type type d e = elim (Bool-cases (7 == type)) [
  | inl same ↦ let found = rw same at e in cc
  | inr other ↦ let found = rw other at e in cc
]

own_registers-IsMap : IsMap own_registers × ((k : ℕ) → k < 10 → lookup k own_registers ≡ none)
unfolding lookup
own_registers-IsMap = (
  (omega arith, refl, (omega arith, refl, (omega arith, refl, record {}))),
  (λ k low. ground arith),
)

pub loader-IsLoader : IsLoader 10 loader
unfolding lookup
loader-IsLoader = (
  (omega arith, refl, record {}),
  (λ k high. ground arith),
  (λ type d e.
      subst (λ (x : NodeDesc). IsMap x.registers × ((k : ℕ) → k < 10 → lookup k x.registers ≡ none))
        (found_type type d e) own_registers-IsMap),
)

abbrev sensor : Node
unfolding new_node
sensor = record (new_node 0 0) { register_map = own_registers }

get_register-get_reg_value_from_frame_example :
    (o : Outcome) × (get_register frame_md memory (traffic reply) 3 (0 ∷ 0 ∷ 0 ∷ 0 ∷ []) sensor 20
      ≡ some o)
    × (get_reg_value_from_frame frame_md sensor reply ≡ some (register_value 20 o))
unfolding new_node unicast_frame set_data lookup matches compares eq eq_alternate_set set_seqnum
    reply_comparator
get_register-get_reg_value_from_frame_example =
    get_register-get_reg_value_from_frame frame_md memory (traffic reply) 3 20 (0 ∷ 0 ∷ 0 ∷ 0 ∷ [])
      (request 11 (20 ∷ [])) reply refl (omega arith) traffic-AllWellFormed
      (omega arith, refl, omega arith) refl refl (omega arith) sensor (register 20 "uint" 16) refl
      refl refl (omega arith) refl

-- The register 22, of four bytes.
abbrev wide_reply : H9Frame
wide_reply = record reply { dlc = 5; data_bytes = 22 ∷ 1 ∷ 2 ∷ 3 ∷ 4 ∷ 0 ∷ 0 ∷ 0 ∷ [] }

-- Four bytes for the register 21, a text of two.
abbrev long_reply : H9Frame
long_reply = record reply { dlc = 5; data_bytes = 21 ∷ 97 ∷ 98 ∷ 99 ∷ 100 ∷ 0 ∷ 0 ∷ 0 ∷ [] }

get_register-text_example :
    get_register frame_md memory (traffic long_reply) 3 (0 ∷ 0 ∷ 0 ∷ []) sensor 21 ≡ none
unfolding new_node unicast_frame set_data lookup matches compares eq eq_alternate_set set_seqnum
    reply_comparator
get_register-text_example =
    get_register-text frame_md memory (traffic long_reply) 3 21 (0 ∷ 0 ∷ 0 ∷ [])
      (request 11 (21 ∷ [])) long_reply sensor (register 21 "str" 16) refl (omega arith)
      ((omega arith, refl, omega arith), ((omega arith, refl, omega arith), record {}))
      (omega arith, refl, omega arith) refl refl (omega arith) refl refl refl

-- A bus over which only requests of one byte are answered.
abbrev partly : H9Frame → Traffic
partly f = if f.dlc == 1 then traffic reply f else record { early = []; seqnum = 0; late = [] }
