-- ===== src/Slcan.antt =====
-- bus_driver/slcan_driver.cc: CAN frames as lines of text. A text is the codes of its characters.
-- The system calls are left out: what `read` gives is an argument.
pub mod RoundTrip
pub mod Driver
pub mod Stream
use h9d.Prelude.{
  ℕ, zero, suc, ◌+◌, ◌-◌, ◌*◌, ◌/◌, ◌%◌, ◌^◌, Bool, true, false, not, ◌&&◌, ◌||◌, List, [], ◌∷◌,
  ◌++◌, Option, none, some, String, ℤ, pos, negsuc, neg, is_negative, abs, ◌==◌, ltb, leb,
  if◌then◌else◌, take, drop, length, get_or,
}
use h9d.H9def.{H9Def}
use h9d.Frame.{H9Frame, can_id, set_can_id, set_data_raw}

abbrev pub cr : ℕ
cr = 13

abbrev pub bell : ℕ
bell = 7

-- `std::hex`: the last `w` digits of a number, in lower case.
unfoldable pub hex_digit : ℕ → ℕ
hex_digit v = if ltb v 10 then 48 + v else 87 + v

unfoldable pub hex_digits : ℕ → ℕ → List ℕ
hex_digits zero n = []
hex_digits (suc w) n = hex_digits w (n / 16) ++ hex_digit (n % 16) ∷ []

-- How many digits a number has; a number of 32 bits needs no more than eight.
unfoldable pub digit_count : ℕ → ℕ → ℕ
digit_count zero n = 1
digit_count (suc w) n =
    let rest = digit_count w n in if ltb n (16 ^ suc w) then rest else suc (suc w)

-- `std::setw(w)` with `std::setfill('0')`.
unfoldable pub hex_width : ℕ → ℕ → List ℕ
hex_width w n = let count = digit_count 7 n in hex_digits (if ltb count w then w else count) n

unfoldable pub hex_bytes : ℕ → List ℕ → List ℕ
hex_bytes zero bytes = []
hex_bytes (suc n) bytes = hex_width 2 (get_or bytes 0 0) ++ hex_bytes n (drop 1 bytes)

unfoldable pub build_slcan_msg : H9Def → H9Frame → List ℕ
build_slcan_msg h f =
    84 ∷ hex_width 8 (can_id h f) ++ hex_width 1 f.dlc ++ hex_bytes f.dlc f.data_bytes ++ cr ∷ []

-- `std::stoi(s, nullptr, 16)`: white space, a sign and 0x may come first; `none` is an exception.
unfoldable pub hex_value : ℕ → Option ℕ
hex_value c =
    if leb 48 c && leb c 57
    then some (c - 48)
    else if leb 97 c && leb c 102
    then some (c - 87)
    else if leb 65 c && leb c 70
    then some (c - 55)
    else none

unfoldable pub hex_number : ℕ → List ℕ → ℕ
hex_number acc [] = acc
hex_number acc (c ∷ s) = elim (hex_value c) [ none ↦ acc | some v ↦ hex_number (acc * 16 + v) s ]

unfoldable pub hex_start : List ℕ → Option ℕ
hex_start [] = none
hex_start (c ∷ s) = elim (hex_value c) [ none ↦ none | some v ↦ some (hex_number v s) ]

unfoldable pub hex_unsigned : List ℕ → Option ℕ
hex_unsigned [] = none
hex_unsigned (c ∷ []) = hex_start (c ∷ [])
hex_unsigned (c ∷ x ∷ s) =
    let plain = hex_start (c ∷ x ∷ s) in
    if c == 48 && (x == 120 || x == 88)
    then elim (hex_start s) [ none ↦ plain | some v ↦ some v ]
    else plain

unfoldable pub in_int : ℤ → Option ℤ
in_int (pos n) = if ltb n (2 ^ 31) then some (pos n) else none
in_int (negsuc n) = if ltb n (2 ^ 31) then some (negsuc n) else none

unfoldable pub stoi : List ℕ → Option ℤ
stoi [] = none
stoi (c ∷ s) =
    let spaced = stoi s in
    if c == 32 || leb 9 c && leb c 13
    then spaced
    else if c == 45
    then elim (hex_unsigned s) [ none ↦ none | some v ↦ in_int (neg v) ]
    else if c == 43
    then elim (hex_unsigned s) [ none ↦ none | some v ↦ in_int (pos v) ]
    else elim (hex_unsigned (c ∷ s)) [ none ↦ none | some v ↦ in_int (pos v) ]

-- The conversion of an int to an unsigned word of `w` bits.
unfoldable pub as_word : ℕ → ℤ → ℕ
as_word w (pos n) = n % 2 ^ w
as_word w (negsuc n) = 2 ^ w - 1 - n % 2 ^ w

-- What `parse_slcan_msg` does: it returns false, throws, or returns true with the frame.
pub data Parsed : Type 0 where
  malformed : Parsed
  thrown : Parsed
  parsed : H9Frame → Parsed

-- The loop over the data: `none` is a write past `buf`, `some none` an exception.
abbrev pub put_byte : Option ℤ → List ℕ → Option (Option (List ℕ)) → Option (Option (List ℕ))
put_byte none buf rest = some none
put_byte (some z) [] rest = none
put_byte (some z) (b ∷ buf) none = none
put_byte (some z) (b ∷ buf) (some none) = some none
put_byte (some z) (b ∷ buf) (some (some bytes)) = some (some (as_word 8 z ∷ bytes))

unfoldable pub read_bytes : ℕ → List ℕ → List ℕ → Option (Option (List ℕ))
read_bytes zero text buf = some (some buf)
read_bytes (suc n) text buf =
    put_byte (stoi (take 2 text)) buf (read_bytes n (drop 2 text) (drop 1 buf))

-- The frame from the identifier and the data; `buf` is what the buffer of eight bytes holds before.
unfoldable pub parse_data : H9Def → ℕ → ℕ → Option (Option (List ℕ)) → H9Frame → Option Parsed
parse_data h id dlc none f = none
parse_data h id dlc (some none) f = some thrown
parse_data h id dlc (some (some bytes)) f =
    some (parsed (set_data_raw bytes (record (set_can_id h id f) { dlc = dlc })))

unfoldable pub parse_header :
    H9Def → List ℕ → List ℕ → H9Frame → Option ℤ → Option ℤ → Option Parsed
parse_header h text buf f none dlc = some thrown
parse_header h text buf f (some id) none = some thrown
parse_header h text buf f (some id) (some n) =
    let dlc = as_word 8 n in
    if ltb (length text) (10 + 2 * dlc)
    then some malformed
    else parse_data h (as_word 32 id) dlc (read_bytes dlc (drop 10 text) buf) f

unfoldable pub parse_slcan_msg : H9Def → List ℕ → List ℕ → H9Frame → Option Parsed
parse_slcan_msg h text buf f =
    if ltb (length text) 10
    then some malformed
    else parse_header h text buf f (stoi (take 8 (drop 1 text))) (stoi (take 1 (drop 9 text)))
