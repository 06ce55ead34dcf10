-- ===== src/NodeMgr/Devices.antt =====
-- The devices of h9d/node_mgr.cc: `add_dev` and `del_dev`.
use h9d.Prelude.{
  ℕ, ◌<◌, ◌≡◌, refl, arith, Bool-cases, inl, inr, true, List, [], ◌∷◌, ◌++◌, Option, Option-cases,
  some, String, get_elem?-some, set, leb, leb→le, low_mask, sym, ap, ◌∙◌,
}
use mathlib.Core.Option.{some-injective}
use text.Mathlib.TextPositions.{eq_refl}
use h9d.H9def.{H9Def, IsLayout}
use h9d.Frame.{id_max_value}
use h9d.Node.Registers.{same_string}
use h9d.NodeMgr.{
  ManagedNode, Dev, NodeMgr, node_or_new, has_dev, find_dev, add_dependent_devices, add_dev,
  del_dependent_devices, del_dev,
}
use h9d.NodeMgr.Update.{IsManaged, node_or_new-IsKept, set-IsManaged}

has_dev-append : (dev : Dev) (ds : List Dev) → has_dev dev.name (ds ++ dev ∷ []) ≡ true
unfolding has_dev
has_dev-append dev [] = rw (eq_refl dev.name) refl
has_dev-append dev (d ∷ ds) = elim (Bool-cases (same_string d.name dev.name)) [
  | inl same ↦ rw same refl
  | inr other ↦ rw other (has_dev-append dev ds)
]

module _ (h : H9Def) (layout : IsLayout h) (revision reason : ℕ) where
  add_dependent_devices-IsManaged :
      (last : ℕ) (ids : List ℕ) (name : String) (s : NodeMgr)
      → IsManaged last s
      → (nodes : List (Option ManagedNode)) × (add_dependent_devices h revision reason ids name
            s.nodes
          ≡ some nodes)
        × IsManaged last (record s { nodes = nodes })
  unfolding add_dependent_devices
  add_dependent_devices-IsManaged last [] name s ok =
      (s.nodes, refl, record { size = ok.size; kept = ok.kept })
  add_dependent_devices-IsManaged last (id ∷ ids) name s ok =
      elim (Bool-cases (leb id (id_max_value h))) [
        | inl known ↦
            let below : id < 256 =
              omega (arith, leb→le id (id_max_value h) known, ap low_mask layout.id_bits) in
            let (slot, here) = get_elem?-some s.nodes id (omega (arith, ok.size)) in
            let n = node_or_new revision reason slot in
            let m = record n { dependent_devices = n.dependent_devices ++ name ∷ [] } in
            let good = node_or_new-IsKept last s id revision reason slot ok here in
            let next = set-IsManaged last s id m ok below (good.0, good.1) in
            let (nodes, done, ok') =
              add_dependent_devices-IsManaged last ids name
                (record s { nodes = set s.nodes id (some m) }) next in
            (nodes, rw (known, here) done, record { size = ok'.size; kept = ok'.kept })
        | inr unknown ↦
            let (nodes, done, ok') = add_dependent_devices-IsManaged last ids name s ok in
            (nodes, rw unknown done, ok')
      ]

  -- To a table in order a device is added whatever ids its nodes have, those that are no byte being passed over, and
  -- the table of the nodes stays in order.
  pub add_dev-IsManaged :
      (last : ℕ) (dev : Dev) (s : NodeMgr)
      → IsManaged last s
      → (t : NodeMgr) × (add_dev h revision reason dev s ≡ some t)
        × IsManaged last t
        × (has_dev dev.name t.devs_map ≡ true)
  unfolding add_dev
  add_dev-IsManaged last dev s ok = elim (Bool-cases (has_dev dev.name s.devs_map)) [
    | inl there ↦ (s, rw there refl, ok, there)
    | inr missing ↦
        let (nodes, done, ok') =
          add_dependent_devices-IsManaged last dev.dependent_on_nodes dev.name s ok in
        (
          record s { nodes = nodes; devs_map = s.devs_map ++ dev ∷ [] },
          rw (missing, done) refl,
          record { size = ok'.size; kept = ok'.kept },
          has_dev-append dev s.devs_map,
        )
  ]

  del_dev-devs_map :
      (name : String) (s t : NodeMgr) → del_dev h name s ≡ some t → t.devs_map ≡ s.devs_map
  unfolding del_dev
  del_dev-devs_map name s t deleted = elim (Option-cases (find_dev name s.devs_map)) [
    | inl missing ↦
        ap (λ (x : NodeMgr). x.devs_map)
          (sym (some-injective s t (rw (del_dev, missing) at deleted)))
    | inr (dev, found) ↦
        elim (Option-cases (del_dependent_devices h dev.dependent_on_nodes name s.nodes)) [
          | inl fails ↦ let impossible = rw (del_dev, found, fails) at deleted in cc
          | inr (nodes, done) ↦
              ap (λ (x : NodeMgr). x.devs_map)
                (sym (
                  some-injective (record s { nodes = nodes }) t
                    (rw (del_dev, found, done) at deleted)))
        ]
  ]

  -- A device that has been deleted is never added again: `del_dev` leaves it in the map of the
  -- devices, so `add_dev` of a device of that name changes nothing.
  pub del_dev-add_dev :
      (dev : Dev) (s t : NodeMgr)
      → has_dev dev.name s.devs_map ≡ true
      → del_dev h dev.name s ≡ some t
      → (t.devs_map ≡ s.devs_map) × (add_dev h revision reason dev t ≡ some t)
  unfolding add_dev
  del_dev-add_dev dev s t there deleted =
      let kept : t.devs_map ≡ s.devs_map = del_dev-devs_map dev.name s t deleted in
      let still : has_dev dev.name t.devs_map ≡ true =
        ap (λ (ds : List Dev). has_dev dev.name ds) kept ∙ there in
      (kept, rw still refl)
