-- ===== src/Slcan/Driver.antt =====
-- The state of the driver in bus_driver/slcan_driver.cc: sends that wait for an answer, and what is
-- received. `write` is left out; `read` gives the bytes.
use h9d.Prelude.{
  ℕ, suc, ◌-◌, Bool, true, false, List, [], ◌∷◌, ◌++◌, Option, none, some, String, ◌==◌, ◌||◌, ltb,
  if◌then◌else◌, get_or, find?,
}
use h9d.H9def.{H9Def}
use h9d.Frame.{H9Frame}
use h9d.Slcan.{Parsed, malformed, thrown, parsed, parse_slcan_msg, cr, bell}

-- `reports` are the calls of `frame_sent_correctly` (true) and `frame_sent_incorrectly` (false), the
-- latest first.
pub record SlcanDriver : Type 0 where
  pub name : String
  pub pending_send_count : ℕ
  pub recv_buf : List ℕ
  pub recv_queue : List H9Frame
  pub reports : List Bool

-- What a call leaves: the state, and whether an exception ended it.
pub data Ended : Type 0 where
  ended : SlcanDriver → Ended
  thrown_in : SlcanDriver → Ended

-- `send_data` when all is written.
unfoldable pub send_data : SlcanDriver → SlcanDriver
send_data d = record d { pending_send_count = suc d.pending_send_count }

-- An answer to the oldest send, if one is waited for.
unfoldable pub answered : Bool → SlcanDriver → SlcanDriver
answered correctly d =
    if ltb 0 d.pending_send_count
    then record d { pending_send_count = d.pending_send_count - 1; reports = correctly ∷ d.reports }
    else d

-- The message about a malformed command replaces the line's carriage return, and throws without one.
unfoldable pub take_line : SlcanDriver → Option Parsed → Option Ended
take_line d none = none
take_line d (some thrown) = some (thrown_in d)
take_line d (some malformed) = elim (find? (λ c. c == cr) d.recv_buf) [
  | none ↦ some (thrown_in d)
  | some c ↦ some (ended d)
]
take_line d (some (parsed f)) =
    some (ended (record d { recv_queue = d.recv_queue ++ record f { origin = d.name } ∷ [] }))

-- `buf` is what the array of `parse_slcan_msg` holds before, and `blank` the frame's memory.
unfoldable pub parse_buf : H9Def → List ℕ → H9Frame → SlcanDriver → Option Ended
parse_buf h buf blank d =
    let first = get_or d.recv_buf 0 0 in
    let line = take_line d (parse_slcan_msg h d.recv_buf buf blank) in
    if first == cr
    then some (ended (answered true d))
    else if first == bell
    then some (ended (answered false d))
    else if first == 84
    then line
    else some (ended d)

-- `recv_buf.clear()` after `parse_buf`, which an exception skips.
unfoldable pub cleared : Option Ended → Option Ended
cleared none = none
cleared (some (ended d)) = some (ended (record d { recv_buf = [] }))
cleared (some (thrown_in d)) = some (thrown_in d)

unfoldable pub receive_byte : H9Def → List ℕ → H9Frame → ℕ → SlcanDriver → Option Ended
receive_byte h buf blank b d =
    let pushed = record d { recv_buf = d.recv_buf ++ b ∷ [] } in
    if b == cr || b == bell then cleared (parse_buf h buf blank pushed) else some (ended pushed)

abbrev pub and_then : Option Ended → (SlcanDriver → Option Ended) → Option Ended
and_then none next = none
and_then (some (ended d)) next = next d
and_then (some (thrown_in d)) next = some (thrown_in d)

-- The loop over the bytes that `read` gave.
unfoldable pub receive_bytes : H9Def → List ℕ → H9Frame → List ℕ → SlcanDriver → Option Ended
receive_bytes h buf blank [] d = some (ended d)
receive_bytes h buf blank (b ∷ bs) d =
    and_then (receive_byte h buf blank b d) (λ next. receive_bytes h buf blank bs next)

-- `recv_data`: the next frame of the queue and whether another one waits, if there is a frame.
unfoldable pub next_frame : SlcanDriver → SlcanDriver × Option (H9Frame × Bool)
next_frame d = elim d.recv_queue [
  | [] ↦ (d, none)
  | f ∷ fs ↦ (record d { recv_queue = fs }, some (f, elim fs [ [] ↦ false | _ ∷ _ ↦ true ]))
]
