-- ===== src/Node/Bound.antt =====
-- The accesses of h9d/node.cc and the requests of Node/Asks: of all that the bus would do, an access
-- depends on what it does with that one request.
use h9d.Prelude.{◌≡◌, Option, none, some}
use h9d.Frame.{H9Frame}
use h9d.RawNode.Request.{Traffic}
use h9d.Node.Registers.{Node}

-- Two buses that do the same with the request, if there is one.
abbrev pub Agree : (H9Frame → Traffic) → (H9Frame → Traffic) → Option (Option H9Frame) → Type 0
Agree bus bus' none = Unit {0}
Agree bus bus' (some none) = Unit {0}
Agree bus bus' (some (some f)) = bus f ≡ bus' f
