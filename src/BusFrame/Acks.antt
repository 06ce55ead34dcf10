-- ===== src/BusFrame/Acks.antt =====
-- The promise of h9d/busframe.cc over the acknowledgements of a frame's drivers.
use h9d.Prelude.{
  ℕ, suc, ◌+◌, ◌≤◌, ◌<◌, ◌≡◌, refl, Bool, true, false, List, [], ◌∷◌, Option, none, some, ◌>>=◌,
  length, ltb, lt→ltb, ◌∙◌, ap, dec_lt, if◌then◌else◌, arith,
}
use h9d.BusFrame.{
  BusFrame, SendFrameResult, acknowledge, inc_send_counter, inc_send_fail_counter, finish,
  is_sent_finish, set_value,
}

pub acknowledge_all : List Bool → BusFrame → Option BusFrame
acknowledge_all [] b = some b
acknowledge_all (a ∷ acks) b = acknowledge a b >>= acknowledge_all acks

abbrev pub count : Bool → List Bool → ℕ
count v [] = 0
count true (true ∷ acks) = suc (count true acks)
count true (false ∷ acks) = count true acks
count false (true ∷ acks) = count false acks
count false (false ∷ acks) = suc (count false acks)

-- The frame after `ok` successes and `bad` failures.
abbrev tallied : ℕ → ℕ → BusFrame → BusFrame
tallied ok bad b = record b {
  send_counter = b.send_counter + ok;
  send_fail_counter = b.send_fail_counter + bad;
}

abbrev pub result_of : BusFrame → SendFrameResult
result_of b = record {
  seqnum = b.frame.seqnum;
  source_id = b.frame.source_id;
  successfully_sent_to_drivers_count = b.send_counter;
  failed_to_send_to_drivers_count = b.send_fail_counter;
}

-- The acknowledgements that a frame has had.
abbrev pub acked : BusFrame → ℕ
acked b = b.send_counter + b.send_fail_counter

-- One acknowledgement of an active frame that still waits for some.
pub acknowledge_lem :
    (a : Bool) (b : BusFrame)
    → b.activate_promise ≡ true
    → b.send_promise ≡ none
    → acknowledge a b ≡ (
        let c = tallied (count true (a ∷ [])) (count false (a ∷ [])) b in
        some (
          if ltb (acked c) b.number_of_active_bus
          then c
          else record c { send_promise = some (result_of c) }))
unfolding acknowledge inc_send_counter inc_send_fail_counter finish is_sent_finish set_value
acknowledge_lem true b act open_ = ground arith
acknowledge_lem false b act open_ = ground arith

length-count : (acks : List Bool) → count true acks + count false acks ≡ length acks
length-count [] = refl
length-count (true ∷ acks) = omega (arith, length-count acks)
length-count (false ∷ acks) = omega (arith, length-count acks)

-- The frame after some acknowledgements, its promise kept once the last driver has answered.
pub after : List Bool → BusFrame → BusFrame
after acks b =
    let c = tallied (count true acks) (count false acks) b in
    if ltb (acked c) b.number_of_active_bus
    then c
    else record c { send_promise = some (result_of c) }

acknowledge_all_last :
    (a : Bool) (acks : List Bool) (b : BusFrame)
    → b.activate_promise ≡ true
    → b.send_promise ≡ none
    → b.number_of_active_bus ≤ acked b + 1
    → acked b + length (a ∷ acks) ≤ b.number_of_active_bus
    → acknowledge_all (a ∷ acks) b ≡ some (after (a ∷ acks) b)
unfolding acknowledge_all after
acknowledge_all_last a [] b act free last fits = rw (acknowledge_lem a b act free) (ground arith)
acknowledge_all_last a (a' ∷ acks) b act free last fits = absurd (omega arith)

after_cons :
    (a : Bool) (acks : List Bool) (b : BusFrame)
    → after acks (tallied (count true (a ∷ [])) (count false (a ∷ [])) b) ≡ after (a ∷ acks) b
unfolding after
after_cons true acks b = ground arith
after_cons false acks b = ground arith

-- An active frame whose drivers have not all answered takes any further answers, up to one for
-- each driver, without an exception. Its promise is kept with the last of them, and not before, and
-- holds the frame's seqnum and source and the numbers of successes and of failures.
pub acknowledge_all_lem :
    (acks : List Bool) (b : BusFrame)
    → b.activate_promise ≡ true
    → b.send_promise ≡ none
    → acked b < b.number_of_active_bus
    → acked b + length acks ≤ b.number_of_active_bus
    → acknowledge_all acks b ≡ some (after acks b)
unfolding acknowledge_all after
acknowledge_all_lem [] b act free waits fits = ground arith
acknowledge_all_lem (a ∷ acks) b act free waits fits =
    elim (dec_lt (acked b + 1) b.number_of_active_bus) [
      | yes more ↦
          let c = tallied (count true (a ∷ [])) (count false (a ∷ [])) b in
          let one : acked c ≡ acked b + 1 = omega (arith, length-count (a ∷ [])) in
          rw (acknowledge_lem a b act free, lt→ltb (acked c) b.number_of_active_bus (omega arith))
            (acknowledge_all_lem acks c act free (omega arith) (omega arith)
              ∙ ap some (after_cons a acks b))
      | no last ↦ acknowledge_all_last a acks b act free (omega arith) fits
    ]

-- An acknowledgement after the last is an exception.
pub acknowledge_late :
    (a : Bool) (b : BusFrame) (r : SendFrameResult)
    → b.activate_promise ≡ true
    → b.send_promise ≡ some r
    → b.number_of_active_bus ≤ acked b
    → acknowledge a b ≡ none
unfolding acknowledge inc_send_counter inc_send_fail_counter finish is_sent_finish set_value
acknowledge_late true b r act done late = ground arith
acknowledge_late false b r act done late = ground arith
