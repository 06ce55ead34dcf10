-- ===== src/Examples.antt =====
-- The theorems at concrete frames, comparators and traffic, with the constants of doc/Frame.md.
mod Frames
mod Requests
mod Sending
mod Running
mod Nodes
mod Lines
mod Uploads
mod Hex
mod Sockets
mod Antennas
mod Managers
mod Messages
mod Clients
mod Json
mod Calls
mod Observers
mod Servers
use h9d.Prelude.{ℕ, List, [], ◌∷◌, length, overwrite}
use h9d.Frame.{H9Frame}
use h9d.RawNode.Request.{Memory, Traffic}

-- The register 20 of the node 3, of two bytes.
abbrev pub reply : H9Frame
reply = record {
  origin = "can0";
  type = 9;
  source_id = 3;
  flags = 0;
  destination_id = 254;
  seqnum = 5;
  group = 0;
  dlc = 3;
  data_bytes = 20 ∷ 1 ∷ 2 ∷ 0 ∷ 0 ∷ 0 ∷ 0 ∷ 0 ∷ [];
}

abbrev pub blank : H9Frame
blank = record {
  origin = "";
  type = 0;
  source_id = 0;
  flags = 0;
  destination_id = 0;
  seqnum = 0;
  group = 0;
  dlc = 0;
  data_bytes = 0 ∷ 0 ∷ 0 ∷ 0 ∷ 0 ∷ 0 ∷ 0 ∷ 0 ∷ [];
}

abbrev pub memory : Memory
memory = record { pointer = 1; group = 0; frame = blank }

-- The request for that register, and another one.
abbrev pub request : ℕ → List ℕ → H9Frame
request type bytes = record blank {
  origin = "h9d";
  type = type;
  destination_id = 3;
  dlc = length bytes;
  data_bytes = overwrite bytes blank.data_bytes;
}

-- An unrelated frame, then the reply once the request has the number 5.
abbrev pub traffic : H9Frame → H9Frame → Traffic
traffic answer req = record { early = blank ∷ []; seqnum = 5; late = answer ∷ [] }
