-- ===== src/Slcan/Stream.antt =====
-- The stream of bytes that the driver of bus_driver/slcan_driver.cc receives.
use h9d.Prelude.{
  ℕ, zero, suc, ◌%◌, ◌/◌, ◌≤◌, ◌<◌, ◌≡◌, refl, ap, arith, false, List, [], ◌∷◌, ◌++◌, Option, none,
  some, ◌==◌, ◌||◌, take, length, overwrite, AllBelow,
}
use h9d.H9def.{H9Def, IsLayout}
use h9d.Frame.{H9Frame, can_id}
use h9d.Frame.Identifier.{HeaderInRange, with_header, can_id-lt}
use h9d.Slcan.{build_slcan_msg, hex_digit, hex_digits, hex_width, hex_bytes, cr, bell}
use h9d.Slcan.RoundTrip.{
  parse_slcan_msg-build_slcan_msg, hex_width-two, hex_width-eight, hex_width-one,
}
use h9d.Slcan.Driver.{
  SlcanDriver, Ended, ended, thrown_in, receive_byte, receive_bytes, and_then, parse_buf, cleared,
  take_line,
}

and_then-and_then :
    (e : Option Ended) (f g : SlcanDriver → Option Ended)
    → and_then e (λ d. and_then (f d) g) ≡ and_then (and_then e f) g
and_then-and_then none f g = refl
and_then-and_then (some (ended d)) f g = refl
and_then-and_then (some (thrown_in d)) f g = refl

and_then-cong :
    (e : Option Ended) {f g : SlcanDriver → Option Ended}
    → ((d : SlcanDriver) → f d ≡ g d)
    → and_then e f ≡ and_then e g
and_then-cong none same = refl
and_then-cong (some (ended d)) same = same d
and_then-cong (some (thrown_in d)) same = refl

append_nil : (xs : List ℕ) → xs ++ [] ≡ xs
append_nil [] = refl
append_nil (x ∷ xs) = ap (◌∷◌ x) (append_nil xs)

append_assoc : (xs ys zs : List ℕ) → (xs ++ ys) ++ zs ≡ xs ++ (ys ++ zs)
append_assoc [] ys zs = refl
append_assoc (x ∷ xs) ys zs = ap (◌∷◌ x) (append_assoc xs ys zs)

-- No carriage return and no bell.
abbrev pub AllPlain : List ℕ → Type 0
AllPlain [] = Unit {0}
AllPlain (b ∷ bs) = ((b == cr || b == bell) ≡ false) × AllPlain bs

module _ (h : H9Def) (buf : List ℕ) (blank : H9Frame) where
  -- How the stream is cut into reads makes no difference, also where it throws or faults.
  pub receive_bytes-append :
      (xs ys : List ℕ) (d : SlcanDriver)
      → receive_bytes h buf blank (xs ++ ys) d
        ≡ and_then (receive_bytes h buf blank xs d) (receive_bytes h buf blank ys)
  unfolding receive_bytes
  receive_bytes-append [] ys d = refl
  receive_bytes-append (x ∷ xs) ys d =
      rw (and_then-cong (receive_byte h buf blank x d) (receive_bytes-append xs ys)) (
        and_then-and_then (receive_byte h buf blank x d) (receive_bytes h buf blank xs)
          (receive_bytes h buf blank ys))

  -- Bytes that end no line are kept.
  receive_plain :
      (xs rest : List ℕ) (d : SlcanDriver)
      → AllPlain xs
      → receive_bytes h buf blank (xs ++ rest) d
        ≡ receive_bytes h buf blank rest (record d { recv_buf = d.recv_buf ++ xs })
  unfolding receive_bytes receive_byte
  receive_plain [] rest d w = rw (append_nil d.recv_buf) refl
  receive_plain (x ∷ xs) rest d w =
      let pushed = record d { recv_buf = d.recv_buf ++ x ∷ [] } in
      rw (w.0) (rw (receive_plain xs rest pushed (w.1), append_assoc d.recv_buf (x ∷ []) xs) refl)

AllPlain-append : (xs ys : List ℕ) → AllPlain xs → AllPlain ys → AllPlain (xs ++ ys)
AllPlain-append [] ys p q = q
AllPlain-append (x ∷ xs) ys p q = (p.0, AllPlain-append xs ys (p.1) q)

hex_digit-plain : (v : ℕ) → v < 16 → (hex_digit v == cr || hex_digit v == bell) ≡ false
unfolding hex_digit
hex_digit-plain v small = ground arith

hex_digits-AllPlain : (w n : ℕ) → AllPlain (hex_digits w n)
unfolding hex_digits
hex_digits-AllPlain zero n = record {}
hex_digits-AllPlain (suc w) n =
    AllPlain-append (hex_digits w (n / 16)) (hex_digit (n % 16) ∷ [])
      (hex_digits-AllPlain w (n / 16)) (hex_digit-plain (n % 16) (omega arith), record {})

hex_bytes-AllPlain :
    (n : ℕ) (bytes : List ℕ) → n ≤ length bytes → AllBelow 256 bytes → AllPlain (hex_bytes n bytes)
unfolding hex_bytes
hex_bytes-AllPlain zero bytes p w = record {}
hex_bytes-AllPlain (suc n) [] p w = absurd (omega arith)
hex_bytes-AllPlain (suc n) (b ∷ bytes) p w = rw (hex_width-two b (w.0)) (
    AllPlain-append (hex_digits 2 b) (hex_bytes n bytes) (hex_digits-AllPlain 2 b)
      (hex_bytes-AllPlain n bytes (omega arith) (w.1)))

module _ (h : H9Def) (l : IsLayout h) where
  -- The line of a frame in range, received by a driver that holds no part of a line, puts exactly
  -- that frame behind the queue, under the driver's name and over a new frame's memory `blank`.
  pub receive_bytes-build_slcan_msg :
      (f blank : H9Frame) (buf : List ℕ) (d : SlcanDriver)
      → HeaderInRange f
      → f.dlc ≤ 8
      → length f.data_bytes ≡ 8
      → AllBelow 256 f.data_bytes
      → length buf ≡ 8
      → d.recv_buf ≡ []
      → receive_bytes h buf blank (build_slcan_msg h f) d
        ≡ some (
            ended (record d {
              recv_queue =
                  d.recv_queue
                  ++ record (with_header h f blank) {
                    origin = d.name;
                    dlc = f.dlc;
                    data_bytes = overwrite (take f.dlc f.data_bytes) buf;
                  }
                    ∷ [];
            }))
  unfolding receive_bytes receive_byte parse_buf cleared take_line build_slcan_msg
  receive_bytes-build_slcan_msg f blank buf d r short eight below room empty =
      let body =
        84 ∷ hex_width 8 (can_id h f) ++ hex_width 1 f.dlc ++ hex_bytes f.dlc f.data_bytes in
      let head = hex_width 8 (can_id h f) in
      let data_part = hex_bytes f.dlc f.data_bytes in
      let small = can_id-lt h l f in
      let plain : AllPlain body =
        rw (hex_width-eight (can_id h f) small, hex_width-one f.dlc (omega arith))
          (
            refl,
            AllPlain-append (hex_digits 8 (can_id h f) ++ hex_digit f.dlc ∷ []) data_part
                (AllPlain-append (hex_digits 8 (can_id h f)) (hex_digit f.dlc ∷ [])
                  (hex_digits-AllPlain 8 (can_id h f))
                  (hex_digit-plain f.dlc (omega arith), record {}))
                (hex_bytes-AllPlain f.dlc f.data_bytes (omega arith) below),
          ) in
      let read = parse_slcan_msg-build_slcan_msg h l f blank buf r short eight below room in
      rw (receive_plain h buf blank body (cr ∷ []) d plain, empty, read) refl
