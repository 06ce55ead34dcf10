-- ===== src/Node/Description.antt =====
-- The registers that a node of h9d/node.cc has after `init`.
use h9d.Prelude.{
  Option-cases, ◌≤◌, ℕ, ◌<◌, ◌%◌, ◌≡◌, refl, ◌==◌, ◌⊎◌, inl, inr, Bool-cases, true, List, [], ◌∷◌,
  none, some, ◌&&◌, or_else, if◌then◌else◌, arith,
}
use h9d.Node.Registers.{
  RegisterDesc, NodeDesc, NodeDescLoader, Node, lookup, insert, put_registers, load_description,
  init, find_register, get_node_register_by_type, get_node_name_by_type, same_string,
}

module _ {ℓ} {A : Type ℓ} where
  lookup-insert :
      (k j : ℕ) (v : A) (m : List (ℕ × A))
      → lookup k (insert j v m) ≡ (if j == k then some v else lookup k m)
  unfolding lookup insert
  lookup-insert k j v [] = ground arith
  lookup-insert k j v (e ∷ m) = ground (arith, lookup-insert k j v m)

-- A map of 8-bit keys, as std::map keeps it: no key is there twice.
abbrev pub IsMap : List (ℕ × RegisterDesc) → Type 0
IsMap [] = Unit {0}
IsMap (e ∷ m) = (e.0 < 256) × (lookup (e.0) m ≡ none) × IsMap m

lookup-put_registers :
    (k : ℕ) (m acc : List (ℕ × RegisterDesc))
    → IsMap m
    → lookup k (put_registers m acc) ≡ or_else (lookup k m) (lookup k acc)
unfolding lookup put_registers
lookup-put_registers k [] acc w = refl
lookup-put_registers k (e ∷ m) acc w = ground (
  arith,
  lookup-put_registers k m (insert (e.0 % 256) (e.1) acc) (w.2),
  lookup-insert k (e.0 % 256) (e.1) acc,
)

-- A loader as its file leaves it: the standard registers lie below NODE_STD_REGISTER_LAST and those
-- of a type from there on.
abbrev pub IsLoader : ℕ → NodeDescLoader → Type 0
IsLoader last l =
    IsMap l.std_register
    × ((k : ℕ) → last ≤ k → lookup k l.std_register ≡ none)
    × ((type : ℕ) (d : NodeDesc)
        → lookup type l.types ≡ some d
        → IsMap d.registers × ((k : ℕ) → k < last → lookup k d.registers ≡ none))

lookup-put_std :
    (k : ℕ) (m : List (ℕ × RegisterDesc)) → IsMap m → lookup k (put_registers m []) ≡ lookup k m
unfolding lookup
lookup-put_std k m w = ground (arith, lookup-put_registers k m [] w)

-- The registers that `load_description` leaves in a node are exactly those that `find_register`
-- finds for its type, for a loader as its description file leaves it.
pub load_description-lookup :
    (last : ℕ) (l : NodeDescLoader) (n : Node) (reg : ℕ)
    → IsLoader last l
    → lookup reg (load_description l n).register_map ≡ find_register last l n.node_type reg
unfolding load_description find_register get_node_register_by_type
load_description-lookup last l n reg w = elim (Option-cases (lookup n.node_type l.types)) [
  | inl e ↦ ground (
    arith,
    e,
    lookup-put_std reg l.std_register (w.0),
    lookup-put_registers reg [] (put_registers l.std_register []) (record {}),
    w.1 reg,
  )
  | inr (d, e) ↦
      let (map, low) = w.2 n.node_type d e in
      ground (
        arith,
        e,
        lookup-put_std reg l.std_register (w.0),
        lookup-put_registers reg d.registers (put_registers l.std_register []) map,
        low reg,
        w.1 reg,
      )
]

-- A node of type 0 is one that was never described; any other has the registers of its type.
abbrev pub IsDescribed : ℕ → NodeDescLoader → Node → Type 0
IsDescribed last l n =
    (n.node_type ≡ 0)
    ⊎ ((reg : ℕ) → lookup reg n.register_map ≡ find_register last l n.node_type reg)

pub load_description-rest :
    (l : NodeDescLoader) (n : Node)
    → ((load_description l n).is_init ≡ n.is_init)
      × ((load_description l n).node_type ≡ n.node_type)
      × ((load_description l n).node_version ≡ n.node_version)
      × ((load_description l n).hardware_revision ≡ n.hardware_revision)
      × ((load_description l n).reset_reason ≡ n.reset_reason)
unfolding load_description
load_description-rest l n =
    elim (Bool-cases (same_string (get_node_name_by_type n.node_type l) "")) [
      | inl e ↦ rw e (refl, refl, refl, refl, refl)
      | inr e ↦ rw e (refl, refl, refl, refl, refl)
    ]

-- A described node is described again by `init`, also where `init` finds that nothing changed, and
-- it then is initialised with the type, version and hardware revision given.
pub init-IsDescribed :
    (last : ℕ) (l : NodeDescLoader) (n : Node) (type version revision reason : ℕ)
    → IsLoader last l
    → IsDescribed last l n
    → IsDescribed last l (init l type version revision reason n)
      × ((init l type version revision reason n).is_init ≡ true)
      × ((init l type version revision reason n).node_type ≡ type)
      × ((init l type version revision reason n).node_version ≡ version)
      × ((init l type version revision reason n).hardware_revision ≡ revision)
      × ((init l type version revision reason n).reset_reason ≡ reason)
unfolding init
init-IsDescribed last l n type version revision reason w d =
    elim (Bool-cases
      (n.node_type == type && n.node_version == version && n.hardware_revision == revision)) [
        | inl same ↦ ground (arith, same)
        | inr changed ↦
            let started = record n { reset_reason = reason; is_init = true } in
            let next = record started {
              node_version = version;
              hardware_revision = revision;
              node_type = type;
            } in
            rw changed (
              let (begun, type_kept, version_kept, revision_kept, reason_kept) =
                load_description-rest l next in
              let found : (reg : ℕ)
                  → lookup reg (load_description l next).register_map
                    ≡ find_register last l (load_description l next).node_type reg =
                λ reg. rw type_kept (load_description-lookup last l next reg w) in
              (inr found, begun, type_kept, version_kept, revision_kept, reason_kept))
      ]
