-- ===== src/Devs.antt =====
-- h9d/dev.cc, h9d/dev_workers.cc and the devices of devs/: what a worker does with a task that the
-- node manager has queued. A `none` is an exception that nothing catches or an access out of bounds.
-- What a worker does with one task is modelled; the times that it measures, and what several workers do
-- to one device at the same time, are left out.
use h9d.Prelude.{
  ℕ, ◌+◌, ◌&&◌, ◌||◌, List, [], ◌∷◌, Option, some, none, ◌>>=◌, map, get_elem?, get_or, leb, ◌==◌,
  u16, bit_or, ◌<<<◌, pos, if◌then◌else◌,
}
use h9d.H9def.{H9Def}
use h9d.Frame.{H9Frame}
use h9d.RawNode.Request.{Memory, Traffic}
use h9d.Node.Exceptions.{RegValue, integer_value, Outcome, returned, thrown}
use h9d.Node.Broadcast as Broadcast
use h9d.Node.Broadcast.{FrameValue, no_value, register_value}
use h9d.NodeMgr.{NodeMgr, Task, periodic_task, update_task}
use h9d.NodeMgr.Queries as Queries
use h9d.AntennaSwitch.{AntennaSwitchDev, DevState, on_dev_info, on_dev_register_value}

-- The calls of a device that `Dev::update_dev_state` makes, with what the devices read of them.
pub data DevCall : Type 0 where
  dev_info : ℕ → ℕ → DevCall
  dev_register_value : ℕ → ℕ → RegValue → DevCall
  dev_error : ℕ → ℕ → DevCall
  dev_bulk : ℕ → ℕ → List ℕ → DevCall

-- A device with its members; those but the antenna switch keep the id of their node.
pub data Device : Type 0 where
  antenna_switch : AntennaSwitchDev → Device
  power_switch atu thunder_switch : ℕ → Device

pub data Emitted : Type 0 where
  antenna_state : DevState → Emitted
  atu_state : ℕ → ℕ → Emitted

-- `data[i] << 8 | data[i + 1]` as 16 bits.
unfoldable pub word_at : ℕ → List ℕ → ℕ
word_at i bytes = u16 (bit_or (get_or bytes i 0 <<< 8) (get_or bytes (i + 1) 0))

-- What an exception leaves of the value of a register: nothing, since it is caught.
unfoldable pub value_call : ℕ → ℕ → FrameValue → Option DevCall
value_call id reg no_value = none
value_call id reg (register_value r (returned v)) = some (dev_register_value id reg v)
value_call id reg (register_value r (thrown e)) = none

module _ (h : H9Def) where
  -- `NodeMgr::get_reg_value_from_frame`; a missing node is an exception that is caught.
  unfoldable pub register_call : NodeMgr → ℕ → H9Frame → Option (Option DevCall)
  register_call mgr id f = do
    slot ← get_elem? mgr.nodes id
    elim slot [
      | none ↦ some none
      | some n ↦
          Broadcast.get_reg_value_from_frame h n.node f
          >>= (λ v. some (value_call id (get_or f.data_bytes 0 0) v))
    ]

  -- The branches of `update_dev_state`: the call, if one is made.
  unfoldable pub call_of : NodeMgr → ℕ → H9Frame → Option (Option DevCall)
  call_of mgr id f =
      if f.type == h.node_info || f.type == h.node_turned_on
      then some (some (dev_info id (word_at 0 f.data_bytes)))
      else if f.type == h.reg_value || f.type == h.reg_value_broadcast
      then register_call mgr id f
      else if f.type == h.command_error
      then some (some (dev_error id (get_or f.data_bytes 0 0)))
      else if leb h.node_specific_broadcast0 f.type && leb f.type h.node_specific_broadcast7
      then some (some (dev_bulk id f.type f.data_bytes))
      else some none

  -- The devices' functions; those of `Dev` itself do nothing.
  unfoldable pub handle : DevCall → Device → Option (Device × List Emitted)
  handle (dev_info id type) (antenna_switch s) = some (antenna_switch (on_dev_info id type s), [])
  handle (dev_register_value id reg v) (antenna_switch s) = do
    (t, states) ← on_dev_register_value id reg v s
    some (antenna_switch t, map antenna_state states)
  handle (dev_error id e) (antenna_switch s) = some (antenna_switch s, [])
  handle (dev_bulk id type bytes) (antenna_switch s) = some (antenna_switch s, [])
  handle (dev_info id type) (power_switch n) = some (power_switch id, [])
  handle (dev_register_value id reg v) (power_switch n) = some (power_switch n, [])
  handle (dev_error id e) (power_switch n) = some (power_switch n, [])
  handle (dev_bulk id type bytes) (power_switch n) = some (power_switch n, [])
  handle (dev_info id type) (atu n) = some (atu id, [])
  handle (dev_register_value id reg v) (atu n) = some (atu n, [])
  handle (dev_error id e) (atu n) = some (atu n, [])
  handle (dev_bulk id type bytes) (atu n) = some (
    atu n,
    if type == h.node_specific_broadcast0
        then atu_state (word_at 0 bytes) (word_at 2 bytes) ∷ []
        else [],
  )
  handle call (thunder_switch n) = some (thunder_switch n, [])

  unfoldable pub handle_call : Option DevCall → Device → Option (Device × List Emitted)
  handle_call none d = some (d, [])
  handle_call (some call) d = handle call d

  unfoldable pub update_dev_state : NodeMgr → ℕ → H9Frame → Device → Option (Device × List Emitted)
  update_dev_state mgr id f d = call_of mgr id f >>= (λ call. handle_call call d)

  -- A task of the queue, for the device that it names; `periodic_task` of every device only logs.
  unfoldable pub work : NodeMgr → Task → Device → Option (Device × List Emitted)
  work mgr (periodic_task name) d = some (d, [])
  work mgr (update_task name id f) d = update_dev_state mgr id f d

  -- `PowerSwitch::power_on_method` and `power_off_method`; what the node answers is dropped.
  unfoldable pub switch_power :
      Memory → (H9Frame → Traffic) → List ℕ → NodeMgr → ℕ → ℕ → Option Outcome
  switch_power m bus garbage mgr switch_id on =
      Queries.set_register h m bus garbage mgr switch_id 11 (integer_value (pos on))

unfoldable pub new_power_switch : Device
new_power_switch = power_switch 0xffff

unfoldable pub new_atu : Device
new_atu = atu 0xffff

unfoldable pub new_thunder_switch : Device
new_thunder_switch = thunder_switch 0xffff
