-- ===== src/Slcan/RoundTrip.antt =====
-- A frame through `build_slcan_msg` and `parse_slcan_msg` of bus_driver/slcan_driver.cc.
use h9d.Prelude.{
  ℕ, zero, suc, ◌+◌, ◌*◌, ◌/◌, ◌%◌, ◌^◌, ◌≤◌, ◌<◌, ◌≡◌, ◌⊎◌, refl, sym, ◌∙◌, ap, arith, List, [],
  ◌∷◌, ◌++◌, none, some, pos, take, length, overwrite, take_all, length-overwrite, AllBelow,
  length-append,
}
use h9d.H9def.{H9Def, IsLayout}
use h9d.Frame.{H9Frame, can_id, set_can_id, set_data_raw}
use h9d.Frame.Identifier.{HeaderInRange, with_header, set_can_id-can_id, can_id-lt}
use h9d.Slcan.{
  hex_digit, hex_digits, digit_count, hex_width, hex_bytes, build_slcan_msg, hex_value, hex_number,
  hex_start, hex_unsigned, in_int, stoi, as_word, parsed, read_bytes, parse_data, parse_header,
  parse_slcan_msg, cr,
}
use native.Mathlib.Nat.{pow-suc}

hex_value-hex_digit : (v : ℕ) → v < 16 → hex_value (hex_digit v) ≡ some v
unfolding hex_value hex_digit
hex_value-hex_digit v small = ground arith

append_one : (xs ys : List ℕ) (c : ℕ) → (xs ++ c ∷ []) ++ ys ≡ xs ++ c ∷ ys
append_one [] ys c = refl
append_one (x ∷ xs) ys c = ap (◌∷◌ x) (append_one xs ys c)

hex_number-hex_digits :
    (w n : ℕ) (s : List ℕ) → n < 16 ^ w → hex_number 0 (hex_digits w n ++ s) ≡ hex_number n s
unfolding hex_digits hex_number
hex_number-hex_digits zero n s small = let empty : n ≡ 0 = omega arith in rw empty refl
hex_number-hex_digits (suc w) n s small =
    let rest =
      hex_number-hex_digits w (n / 16) (hex_digit (n % 16) ∷ s) (omega (arith, pow-suc 16 w)) in
    let last : n / 16 * 16 + n % 16 ≡ n = omega arith in
    rw (append_one (hex_digits w (n / 16)) s (hex_digit (n % 16)), rest)
      (ground (arith, hex_value-hex_digit (n % 16), last))

-- A hexadecimal digit is neither white space, a sign nor an x.
digit_kind :
    (v : ℕ)
    → v < 16
    → ((48 ≤ hex_digit v) × (hex_digit v ≤ 57)) ⊎ ((97 ≤ hex_digit v) × (hex_digit v ≤ 102))
unfolding hex_digit
digit_kind v small = ground arith

-- Digits are read back by `stoi`.
stoi-one : (v : ℕ) → v < 16 → stoi (hex_digit v ∷ []) ≡ some (pos v)
unfolding stoi hex_unsigned hex_start hex_number in_int
stoi-one v small = ground (arith, digit_kind v small, hex_value-hex_digit v small)

stoi-more :
    (v x : ℕ) (s : List ℕ)
    → v < 16
    → x < 16
    → hex_number v (hex_digit x ∷ s) < 2 ^ 31
    → stoi (hex_digit v ∷ hex_digit x ∷ s) ≡ some (pos (hex_number v (hex_digit x ∷ s)))
unfolding stoi hex_unsigned hex_start in_int
stoi-more v x s small next fits =
    ground (arith, digit_kind v small, digit_kind x next, hex_value-hex_digit v small)

leading : (v w : ℕ) (s : List ℕ) → v < 16 → hex_number 0 (hex_digit v ∷ s) ≡ hex_number v s
unfolding hex_number
leading v w s small = ground (arith, hex_value-hex_digit v small)

stoi-two : (n : ℕ) → n < 256 → stoi (hex_digits 2 n) ≡ some (pos n)
unfolding hex_digits hex_number
stoi-two n small =
    let value : hex_number (n / 16 % 16) (hex_digit (n % 16) ∷ []) ≡ n =
      sym (leading (n / 16 % 16) 0 (hex_digit (n % 16) ∷ []) (omega arith))
      ∙ hex_number-hex_digits 2 n [] (omega arith) in
    rw
      (
        stoi-more (n / 16 % 16) (n % 16) [] (omega arith) (omega arith) (omega (arith, value)),
        value,
      )
      refl

stoi-eight : (n : ℕ) → n < 2 ^ 29 → stoi (hex_digits 8 n) ≡ some (pos n)
unfolding hex_digits hex_number
stoi-eight n small =
    let tail = hex_digits 6 n in
    let high = n / 16 / 16 / 16 / 16 / 16 / 16 / 16 % 16 in
    let next = n / 16 / 16 / 16 / 16 / 16 / 16 % 16 in
    let value : hex_number high (hex_digit next ∷ tail) ≡ n =
      sym (leading high 0 (hex_digit next ∷ tail) (omega arith))
      ∙ hex_number-hex_digits 8 n [] (omega arith) in
    rw (stoi-more high next tail (omega arith) (omega arith) (omega (arith, value)), value) refl

pub hex_width-two : (n : ℕ) → n < 256 → hex_width 2 n ≡ hex_digits 2 n
unfolding hex_width digit_count
hex_width-two n small = ground arith

pub hex_width-eight : (n : ℕ) → n < 2 ^ 29 → hex_width 8 n ≡ hex_digits 8 n
unfolding hex_width digit_count
hex_width-eight n small = ground arith

pub hex_width-one : (n : ℕ) → n < 16 → hex_width 1 n ≡ hex_digit n ∷ []
unfolding hex_width digit_count hex_digits
hex_width-one n small = ground arith

-- The loop over the data reads back the bytes that were written.
read_bytes-hex_bytes :
    (n : ℕ) (bytes buf s : List ℕ)
    → n ≤ length bytes
    → n ≤ length buf
    → AllBelow 256 bytes
    → read_bytes n (hex_bytes n bytes ++ s) buf ≡ some (some (overwrite (take n bytes) buf))
unfolding read_bytes hex_bytes hex_digits as_word
read_bytes-hex_bytes zero bytes buf s p q w = refl
read_bytes-hex_bytes (suc n) [] buf s p q w = absurd (omega arith)
read_bytes-hex_bytes (suc n) (b ∷ bytes) [] s p q w = absurd (omega arith)
read_bytes-hex_bytes (suc n) (b ∷ bytes) (x ∷ buf) s p q w =
    rw
      (
        hex_width-two b (w.0),
        stoi-two b (w.0),
        read_bytes-hex_bytes n bytes buf s (omega arith) (omega arith) (w.1),
      )
      (ground arith)

read_bytes-overflow :
    (n : ℕ) (bytes buf s : List ℕ)
    → n ≤ length bytes
    → length buf < n
    → AllBelow 256 bytes
    → read_bytes n (hex_bytes n bytes ++ s) buf ≡ none
unfolding read_bytes hex_bytes hex_digits
read_bytes-overflow zero bytes buf s p q w = absurd (omega arith)
read_bytes-overflow (suc n) [] buf s p q w = absurd (omega arith)
read_bytes-overflow (suc n) (b ∷ bytes) [] s p q w =
    rw (hex_width-two b (w.0), stoi-two b (w.0)) refl
read_bytes-overflow (suc n) (b ∷ bytes) (x ∷ buf) s p q w =
    rw
      (
        hex_width-two b (w.0),
        stoi-two b (w.0),
        read_bytes-overflow n bytes buf s (omega arith) (omega arith) (w.1),
      )
      refl

length-hex_bytes :
    (n : ℕ) (bytes : List ℕ)
    → n ≤ length bytes
    → AllBelow 256 bytes
    → length (hex_bytes n bytes) ≡ 2 * n
unfolding hex_bytes hex_digits
length-hex_bytes zero bytes p w = refl
length-hex_bytes (suc n) [] p w = absurd (omega arith)
length-hex_bytes (suc n) (b ∷ bytes) p w =
    rw (hex_width-two b (w.0)) (omega (arith, length-hex_bytes n bytes (omega arith) (w.1)))

module _ (h : H9Def) (l : IsLayout h) where
  parse_tail :
      (id dlc : ℕ) (tail bytes buf : List ℕ) (f : H9Frame)
      → id < 2 ^ 29
      → dlc < 9
      → 2 * dlc ≤ length tail
      → read_bytes dlc tail buf ≡ some (some bytes)
      → parse_slcan_msg h (84 ∷ hex_digits 8 id ++ hex_digit dlc ∷ tail) buf f
        ≡ some (parsed (set_data_raw bytes (record (set_can_id h id f) { dlc = dlc })))
  unfolding parse_slcan_msg parse_header parse_data hex_digits as_word
  parse_tail id dlc tail bytes buf f small short room done =
      ground (arith, stoi-eight id small, stoi-one dlc (omega arith), done)

  -- A frame in range that is written as a line and read back, over any frame `g` and whatever the
  -- buffer holds: the header, the length and that many data bytes come back.
  pub parse_slcan_msg-build_slcan_msg :
      (f g : H9Frame) (buf : List ℕ)
      → HeaderInRange f
      → f.dlc ≤ 8
      → length f.data_bytes ≡ 8
      → AllBelow 256 f.data_bytes
      → length buf ≡ 8
      → parse_slcan_msg h (build_slcan_msg h f) buf g
        ≡ some (
            parsed (record (with_header h f g) {
              dlc = f.dlc;
              data_bytes = overwrite (take f.dlc f.data_bytes) buf;
            }))
  unfolding build_slcan_msg set_data_raw parse_slcan_msg with_header hex_digits
  parse_slcan_msg-build_slcan_msg f g buf r short eight bytes room =
      let tail = hex_bytes f.dlc f.data_bytes ++ cr ∷ [] in
      let out = overwrite (take f.dlc f.data_bytes) buf in
      let read =
        read_bytes-hex_bytes f.dlc f.data_bytes buf (cr ∷ []) (omega arith) (omega arith) bytes in
      let space : 2 * f.dlc ≤ length tail = omega (
        arith,
        length-append (hex_bytes f.dlc f.data_bytes) (cr ∷ []),
        length-hex_bytes f.dlc f.data_bytes (omega arith) bytes,
      ) in
      rw (hex_width-eight (can_id h f) (can_id-lt h l f), hex_width-one f.dlc (omega arith))
        (rw
          (
            parse_tail (can_id h f) f.dlc tail out buf g (can_id-lt h l f) (omega arith) space read,
            set_can_id-can_id h l f g r,
          )
          (rw (take_all 8 out (omega (arith, length-overwrite (take f.dlc f.data_bytes) buf)))
            refl))

  -- A line of nine to fifteen data bytes, all of them written as digits, for a buffer of eight:
  -- `parse_slcan_msg` writes past the buffer.
  pub parse_slcan_msg-overflow :
      (id dlc : ℕ) (bytes buf : List ℕ) (g : H9Frame)
      → id < 2 ^ 29
      → 8 < dlc
      → dlc < 16
      → dlc ≤ length bytes
      → AllBelow 256 bytes
      → length buf ≡ 8
      → parse_slcan_msg h
          (84 ∷ hex_digits 8 id ++ hex_digit dlc ∷ hex_bytes dlc bytes ++ cr ∷ [])
          buf
          g
        ≡ none
  unfolding parse_slcan_msg parse_header parse_data hex_digits as_word
  parse_slcan_msg-overflow id dlc bytes buf g small long digit enough below room = ground (
    arith,
    stoi-eight id small,
    stoi-one dlc digit,
    length-append (hex_bytes dlc bytes) (cr ∷ []),
    length-hex_bytes dlc bytes enough below,
    read_bytes-overflow dlc bytes buf (cr ∷ []) enough (omega arith) below,
  )
