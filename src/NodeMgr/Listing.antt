-- ===== src/NodeMgr/Listing.antt =====
-- `get_nodes_list`, `reload_nodes_description` and the accesses of h9d/node_mgr.cc.
use h9d.Prelude.{
  ℕ, zero, suc, ◌+◌, ◌≡◌, ◌⊎◌, refl, arith, Bool-cases, inl, inr, true, false, List, [], ◌∷◌,
  Option, some, none, get_elem?, map, sym, subst, ap, ◌∙◌,
}
use mathlib.Core.Option.{some-injective}
use h9d.H9def.{H9Def}
use h9d.Frame.{H9Frame}
use h9d.RawNode.Request.{Memory, Traffic}
use h9d.Node.Registers.{NodeDescLoader, lookup, find_register, load_description}
use h9d.Node.Description.{IsLoader, load_description-lookup, load_description-rest}
use h9d.Node.Exceptions.{node_not_exist_exception, RegValue, thrown}
use h9d.NodeMgr.{ManagedNode, NodeMgr, redescribe, reload_nodes_description}
use h9d.NodeMgr.Queries.{
  NodeDsc, describe, list_nodes, get_nodes_list, get_register, set_register, set_register_bit,
  clear_register_bit, node_reset,
}

abbrev pub IsIn : NodeDsc → List NodeDsc → Type 0
IsIn d [] = ⊥
IsIn d (e ∷ es) = (d ≡ e) ⊎ IsIn d es

add_zero : (n : ℕ) → n + 0 ≡ n
add_zero n = omega arith

zero_add : (n : ℕ) → 0 + n ≡ n
zero_add n = omega arith

add_one : (n m : ℕ) → n + 1 + m ≡ n + suc m
add_one n m = omega arith

list_nodes-IsIn :
    (from i : ℕ) (ns : List (Option ManagedNode)) (n : ManagedNode)
    → get_elem? ns i ≡ some (some n)
    → n.node.is_init ≡ true
    → IsIn (describe (from + i) n.node) (list_nodes from ns)
unfolding list_nodes
list_nodes-IsIn from i [] n here begun = cc
list_nodes-IsIn from zero (none ∷ ns) n here begun = cc
list_nodes-IsIn from zero (some m ∷ ns) n here begun =
    let same : m ≡ n = some-injective m n (some-injective (some m) (some n) here) in
    let started : m.node.is_init ≡ true = ap (λ (x : ManagedNode). x.node.is_init) same ∙ begun in
    simp started (
      inl (
        ap (λ (k : ℕ). describe k n.node) (add_zero from)
        ∙ ap (λ (x : ManagedNode). describe from x.node) (sym same)))
list_nodes-IsIn from (suc i) (none ∷ ns) n here begun =
    subst (λ (k : ℕ). IsIn (describe k n.node) (list_nodes (from + 1) ns)) (add_one from i)
      (list_nodes-IsIn (from + 1) i ns n here begun)
list_nodes-IsIn from (suc i) (some m ∷ ns) n here begun =
    let later : IsIn (describe (from + suc i) n.node) (list_nodes (from + 1) ns) =
      subst (λ (k : ℕ). IsIn (describe k n.node) (list_nodes (from + 1) ns)) (add_one from i)
        (list_nodes-IsIn (from + 1) i ns n here begun) in
    elim (Bool-cases m.node.is_init) [
      | inl started ↦ rw started (inr later)
      | inr fresh ↦ rw fresh later
    ]

-- Each node that is initialised is in the list, under its id and as it is.
pub get_nodes_list-IsIn :
    (s : NodeMgr) (id : ℕ) (n : ManagedNode)
    → get_elem? s.nodes id ≡ some (some n)
    → n.node.is_init ≡ true
    → IsIn (describe id n.node) (get_nodes_list s)
unfolding get_nodes_list
get_nodes_list-IsIn s id n here begun =
    subst (λ (k : ℕ). IsIn (describe k n.node) (list_nodes 0 s.nodes)) (zero_add id)
      (list_nodes-IsIn 0 id s.nodes n here begun)

get_elem?-redescribed :
    (l : NodeDescLoader) (ns : List (Option ManagedNode)) (i : ℕ) (n : ManagedNode)
    → get_elem? (map (redescribe l) ns) i ≡ some (some n)
    → (m : ManagedNode) × (redescribe l (some m) ≡ some n)
get_elem?-redescribed l [] i n e = cc
get_elem?-redescribed l (none ∷ ns) zero n e = cc
get_elem?-redescribed l (some m ∷ ns) zero n e =
    (m, some-injective (redescribe l (some m)) (some n) e)
get_elem?-redescribed l (m ∷ ns) (suc i) n e = get_elem?-redescribed l ns i n e

-- After the descriptions have been loaded again, as a description file leaves them, each node that is initialised has exactly the
-- registers that the new descriptions have for its type.
pub reload_nodes_description-lookup :
    (last : ℕ) (l : NodeDescLoader) (s : NodeMgr) (id reg : ℕ) (n : ManagedNode)
    → IsLoader last l
    → get_elem? (reload_nodes_description l s).nodes id ≡ some (some n)
    → n.node.is_init ≡ true
    → lookup reg n.node.register_map ≡ find_register last l n.node.node_type reg
unfolding reload_nodes_description
reload_nodes_description-lookup last l s id reg n w here begun =
    let (m, from) = get_elem?-redescribed l s.nodes id n here in
    elim (Bool-cases m.node.is_init) [
      | inl started ↦
          let same : record m { node = load_description l m.node } ≡ n =
            some-injective (record m { node = load_description l m.node }) n (rw started at from) in
          let kept = (load_description-rest l m.node).1 in
          subst
            (λ (x : ManagedNode).
              lookup reg x.node.register_map ≡ find_register last l x.node.node_type reg)
            same (rw kept (load_description-lookup last l m.node reg w))
      | inr fresh ↦
          let same : m ≡ n = some-injective m n (rw fresh at from) in
          let stopped : n.node.is_init ≡ false =
            sym (ap (λ (x : ManagedNode). x.node.is_init) same) ∙ fresh in
          cc
    ]

module _ (h : H9Def) (m : Memory) (bus : H9Frame → Traffic) (garbage : List ℕ) where
  -- An access to a node that no frame has come from, and that no device depends on, throws that the
  -- node does not exist.
  pub access-missing :
      (s : NodeMgr) (id reg bit_num : ℕ) (value : RegValue)
      → get_elem? s.nodes id ≡ some none
      → (get_register h m bus garbage s id reg ≡ some (thrown node_not_exist_exception))
        × (set_register h m bus garbage s id reg value ≡ some (thrown node_not_exist_exception))
        × (set_register_bit h m bus garbage s id reg bit_num
            ≡ some (thrown node_not_exist_exception))
        × (clear_register_bit h m bus garbage s id reg bit_num
            ≡ some (thrown node_not_exist_exception))
        × (node_reset h m bus garbage s id ≡ some (some node_not_exist_exception))
  unfolding get_register set_register set_register_bit clear_register_bit node_reset
  access-missing s id reg bit_num value here = rw here (refl, refl, refl, refl, refl)
