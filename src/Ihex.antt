-- ===== src/Ihex.antt =====
-- `hex2bin` and `read_ihex` of h9fwupload/h9fwupload.cc: an Intel HEX file. A line is its bytes with
-- the NUL after them, and `line + k` what is left of it. A `none` is a read of bytes that the line
-- does not have, or a write outside the memory of 128 kB.
pub mod Records
pub mod Files
use h9d.Prelude.{
  ℕ, zero, suc, ◌+◌, ◌-◌, ◌*◌, ◌%◌, Bool, true, false, ◌&&◌, not, List, [], ◌∷◌, Option, some, none,
  ◌>>=◌, drop, leb, ltb, ◌==◌, set?, u8, u32, if◌then◌else◌,
}

-- The value of a character, before it is masked.
unfoldable pub digit : ℕ → ℕ
digit c =
    if leb 48 c && leb c 57
    then c - 48
    else if leb 97 c && leb c 102
    then c - 97 + 10
    else if leb 65 c && leb c 70
    then c - 65 + 10
    else c

unfoldable pub hex2bin : List ℕ → Option ℕ
hex2bin [] = none
hex2bin (c ∷ []) = if c == 0 then some 0 else none
hex2bin (c ∷ d ∷ rest) =
    if c == 0
    then some 0
    else if d == 0
    then some (digit c % 16)
    else some (u8 (digit c % 16 * 16 + digit d % 16))

pub record Image : Type 0 where
  pub fw_data : List ℕ
  pub data_length : ℕ
  pub extended_address : ℕ

-- The loop over the bytes of a data record: what is left of the line, and the checksum, too.
unfoldable pub read_bytes : ℕ → List ℕ → Image → ℕ → Option (Image × List ℕ × ℕ)
read_bytes zero line s tmp_crc = some (s, line, tmp_crc)
read_bytes (suc n) line s tmp_crc = do
  tmp ← hex2bin line
  memory ← set? s.fw_data s.data_length tmp
  read_bytes n (drop 2 line) (record s { fw_data = memory; data_length = s.data_length + 1 })
      (u8 (tmp_crc + tmp))

-- A wrong checksum ends the loop, with nothing read.
unfoldable pub check_crc : ℕ → ℕ → Image → Image × Bool
check_crc tmp_crc crc s =
    if u8 (256 - tmp_crc) == crc then (s, false) else (record s { data_length = 0 }, true)

unfoldable pub read_data : ℕ → ℕ → List ℕ → Image → ℕ → Option (Image × Bool)
read_data size address line s tmp_crc = do
  r ←
      read_bytes size (drop 9 line)
        (if ltb s.data_length address then record s { data_length = address } else s) tmp_crc
  crc ← hex2bin (r.1)
  some (check_crc (r.2) crc (r.0))

unfoldable pub read_extended : List ℕ → Image → ℕ → Option (Image × Bool)
read_extended line s tmp_crc = do
  high ← hex2bin (drop 9 line)
  low ← hex2bin (drop 11 line)
  crc ← hex2bin (drop 13 line)
  let extended = record s { extended_address = u32 ((high * 256 + low) * 65536) }
  let checked = check_crc (u8 (u8 (tmp_crc + high) + low)) crc extended
  some (if checked.1 then checked else (extended, ltb 65536 extended.extended_address))

-- The body of the loop over the lines; the flag says that the loop is left.
unfoldable pub read_line : List ℕ → Image → Option (Image × Bool)
read_line [] s = none
read_line (c ∷ text) s =
    let on_record = do
      size ← hex2bin text
      high ← hex2bin (drop 2 text)
      low ← hex2bin (drop 4 text)
      rtype ← hex2bin (drop 6 text)
      let address = u32 (s.extended_address + high * 256 + low)
      let tmp_crc = u8 (u8 (u8 (size + high) + low) + rtype)
      (if rtype == 0
          then read_data size address (c ∷ text) s tmp_crc
          else if rtype == 4
          then read_extended (c ∷ text) s tmp_crc
          else some (s, false))
    in if c == 58 then on_record else some (s, false)

unfoldable pub read_lines : List (List ℕ) → Image → Option Image
read_lines [] s = some s
read_lines (line ∷ lines) s = do
  r ← read_line line s
  (if r.1 then some (r.0) else read_lines lines (r.0))

-- The whole file, into memory that holds 0xff: the image, `data_length` of which is returned.
unfoldable pub read_ihex : List ℕ → List (List ℕ) → Option Image
read_ihex memory lines =
    read_lines lines (record { fw_data = memory; data_length = 0; extended_address = 0 })
