-- ===== src/Bus/Thread/Promises.antt =====
-- The bus of h9d/bus.cc from its start, and the promises that it has given.
use h9d.Prelude.{
  ℕ, ◌<◌, ◌≡◌, ◌≢◌, refl, arith, Bool, true, List, [], ◌∷◌, none, some, get_elem?, map, String,
  subst, sym, ◌∙◌,
}
use h9d.H9def.{H9Def}
use h9d.BusFrame.{BusFrame}
use h9d.Bus.{BusEndpoint, Bus, Driver}
use h9d.Bus.Pending.{IsWorking, AllValid, owed}
use h9d.Bus.Steps.{IsSound}
use h9d.Bus.Thread.{BusEvent, new_bus, run}
use h9d.Bus.Thread.Throws.{calm, calm-IsWorking, run-calm}
use h9d.Bus.Thread.Safety.{AllFrames, run-IsSound}

fresh : String → BusEndpoint
fresh name = record {
  name = name;
  pending_frames = [];
  sent_frames_counter = 0;
  received_frames_counter = 0;
}

fresh-AllValid : (n : ℕ) (names : List String) → AllValid n (map fresh names)
unfolding fresh
fresh-AllValid n [] = tt
fresh-AllValid n (name ∷ names) = (tt, fresh-AllValid n names)

pub new_bus-IsSound :
    (bus_id : ℕ) (forwarding : Bool) (names : List String)
    → IsSound (new_bus bus_id forwarding names)
unfolding new_bus fresh
new_bus-IsSound bus_id forwarding names = record {
  heap_ok = λ i b found. cc;
  valid = fresh-AllValid 0 names;
  waiting = tt;
  foreign = tt;
  sent_types = refl;
  received_types = refl;
}

module _ (h : H9Def) (driver : Driver) (bus_id : ℕ) (forwarding : Bool) (names : List String) where
  -- A new bus, with any endpoints, whose drivers do not throw when they send, takes any events in any
  -- order, frames being of types of five bits, without an exception or an access out of bounds,
  -- whatever its drivers report while they send. It stays in order: an active frame has had, or is owed by the endpoints, as many
  -- acknowledgements as it was activated for, and its promise is open until it has had them all,
  -- and then kept; the frames to send are local and not sent yet, each queued once; those to forward came
  -- from endpoints; all pending and queued frames exist; and each type keeps its counters.
  pub new_bus-run :
      (es : List BusEvent)
      → IsWorking driver
      → AllFrames es
      → (t : Bus) × (run h driver es (new_bus bus_id forwarding names) ≡ some t) × IsSound t
  new_bus-run es works frames =
      run-IsSound h driver works es (new_bus bus_id forwarding names) frames
        (new_bus-IsSound bus_id forwarding names)

  -- No promise is lost: on a new bus, after any events in any order, frames being of types of five
  -- bits, an activated frame with at least one target of which no endpoint has anything pending has
  -- its promise kept.
  pub run-promise :
      (es : List BusEvent) (t : Bus) (p : ℕ) (b : BusFrame)
      → AllFrames es
      → run h driver es (new_bus bus_id forwarding names) ≡ some t
      → get_elem? t.heap p ≡ some b
      → b.activate_promise ≡ true
      → 0 < b.number_of_active_bus
      → owed p t.endpoints ≡ 0
      → b.send_promise ≢ none
  run-promise es t p b frames runs here active some_target settled =
      let s = new_bus bus_id forwarding names in
      let (u, runs', ok) =
        run-IsSound h (calm driver) (calm-IsWorking driver) es s frames
          (new_bus-IsSound bus_id forwarding names) in
      let same : u ≡ t = ground (arith, sym runs' ∙ run-calm driver h es s t runs) in
      let ok' = subst IsSound same ok in
      let due = (ok'.heap_ok p b here).0 active in
      due.2 (omega (arith, due.0)) (omega (arith, due.0))
