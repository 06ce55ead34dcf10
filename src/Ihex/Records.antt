-- ===== src/Ihex/Records.antt =====
-- Data records of an Intel HEX file, as a linker writes them, and what h9fwupload/h9fwupload.cc reads.
use h9d.Prelude.{
  ℕ, ◌+◌, ◌-◌, ◌*◌, ◌/◌, ◌%◌, ◌≤◌, ◌<◌, ◌≡◌, refl, arith, true, false, List, [], ◌∷◌, ◌++◌,
  AllBelow, some, drop, append_nil, append_assoc, length, length-append, ltb, ◌==◌, set?,
  if◌then◌else◌,
}
use h9d.Ihex.{digit, hex2bin, Image, read_bytes, check_crc, read_data, read_line}

abbrev pub hex_digit : ℕ → ℕ
hex_digit d = if ltb d 10 then 48 + d else 55 + d

-- A byte in two digits.
abbrev pub hex_byte : ℕ → List ℕ → List ℕ
hex_byte b rest = hex_digit (b / 16) ∷ hex_digit (b % 16) ∷ rest

abbrev pub hex_bytes : List ℕ → List ℕ → List ℕ
hex_bytes [] rest = rest
hex_bytes (b ∷ bs) rest = hex_byte b (hex_bytes bs rest)

abbrev pub sum : List ℕ → ℕ
sum [] = 0
sum (b ∷ bs) = b + sum bs

-- A record of type 0 at an address of 16 bits, with a byte at its end.
abbrev pub line_with : ℕ → ℕ → List ℕ → List ℕ
line_with check address bytes =
    58
    ∷ hex_bytes (length bytes ∷ address / 256 ∷ address % 256 ∷ 0 ∷ [])
        (hex_bytes bytes (hex_byte check (10 ∷ 0 ∷ [])))

-- The byte with which all bytes of the record add up to 0.
abbrev pub checksum : ℕ → List ℕ → ℕ
checksum address bytes =
    (256 - (length bytes + (address / 256 + (address % 256 + 0)) + sum bytes) % 256) % 256

abbrev pub data_line : ℕ → List ℕ → List ℕ
data_line address bytes = line_with (checksum address bytes) address bytes

digit-hex_digit : (d : ℕ) → d < 16 → (digit (hex_digit d) % 16 ≡ d) × (hex_digit d == 0 ≡ false)
unfolding digit
digit-hex_digit d small = ground arith

hex2bin-hex_byte : (b : ℕ) (rest : List ℕ) → b < 256 → hex2bin (hex_byte b rest) ≡ some b
unfolding hex2bin
hex2bin-hex_byte b rest small =
    let (high, begun) = digit-hex_digit (b / 16) (omega arith) in
    let (low, more) = digit-hex_digit (b % 16) (omega arith) in
    let whole : (b / 16 * 16 + b % 16) % 256 ≡ b = omega arith in
    simp (begun, more, high, low, whole) refl

set?-append :
    (filled rest : List ℕ) (r b : ℕ)
    → set? (filled ++ r ∷ rest) (length filled) b ≡ some (filled ++ b ∷ rest)
set?-append [] rest r b = refl
set?-append (x ∷ filled) rest r b = rw (set?-append filled rest r b) refl

-- The image when so much of the memory is filled.
abbrev pub image : List ℕ → List ℕ → Image
image filled rest = record {
  fw_data = filled ++ rest;
  data_length = length filled;
  extended_address = 0;
}

image-append_one :
    (filled rest : List ℕ) (b : ℕ)
    → record { fw_data = filled ++ b ∷ rest; data_length = length filled + 1; extended_address = 0 }
      ≡ image (filled ++ b ∷ []) rest
image-append_one filled rest b =
    rw (append_assoc filled (b ∷ []) rest, length-append filled (b ∷ [])) refl

read_bytes-hex_bytes :
    (bytes tail filled rest : List ℕ) (crc : ℕ)
    → AllBelow 256 bytes
    → length bytes ≤ length rest
    → crc < 256
    → read_bytes (length bytes) (hex_bytes bytes tail) (image filled rest) crc
      ≡ some (image (filled ++ bytes) (drop (length bytes) rest), tail, (crc + sum bytes) % 256)
unfolding read_bytes
read_bytes-hex_bytes [] tail filled rest crc small fits low =
    let same : (crc + 0) % 256 ≡ crc = omega arith in rw (append_nil filled, same) refl
read_bytes-hex_bytes (b ∷ bytes) tail filled [] crc small fits low = absurd (omega arith)
read_bytes-hex_bytes (b ∷ bytes) tail filled (r ∷ rest) crc small fits low =
    let later =
      read_bytes-hex_bytes bytes tail (filled ++ b ∷ []) rest ((crc + b) % 256) (small.1)
        (omega arith) (omega arith) in
    rw (hex2bin-hex_byte b (hex_bytes bytes tail) (small.0), set?-append filled rest r b)
      (let total : ((crc + b) % 256 + sum bytes) % 256 ≡ (crc + (b + sum bytes)) % 256 =
          omega arith in
        rw (image-append_one filled rest b, later, append_assoc filled (b ∷ []) bytes, total) refl)

-- The end of a record, from its data on, when the bytes before them add up to `crc`.
read_data-hex_bytes :
    (a b c d e f g h i check : ℕ) (bytes filled rest : List ℕ) (crc : ℕ)
    → AllBelow 256 bytes
    → length bytes ≤ length rest
    → crc < 256
    → check < 256
    → read_data
        (length bytes)
        (length filled)
        (a ∷ b ∷ c ∷ d ∷ e ∷ f ∷ g ∷ h ∷ i ∷ hex_bytes bytes (hex_byte check (10 ∷ 0 ∷ [])))
        (image filled rest)
        crc
      ≡ some (
          check_crc
            ((crc + sum bytes) % 256)
            check
            (image (filled ++ bytes) (drop (length bytes) rest)))
unfolding read_data
read_data-hex_bytes a b c d e f g h i check bytes filled rest crc small fits low byte =
    let here : ltb (length filled) (length filled) ≡ false = ground arith in
    rw
      (
        here,
        read_bytes-hex_bytes bytes (hex_byte check (10 ∷ 0 ∷ [])) filled rest crc small fits low,
        hex2bin-hex_byte check (10 ∷ 0 ∷ []) byte,
      )
      refl

-- A record that goes on where the image ends is read, and its last byte is compared.
pub read_line-line_with :
    (filled bytes rest : List ℕ) (check : ℕ)
    → AllBelow 256 bytes
    → length bytes < 256
    → length filled < 65536
    → length bytes ≤ length rest
    → check < 256
    → (crc : ℕ) × ((256 - crc) % 256 ≡ checksum (length filled) bytes)
      × (read_line (line_with check (length filled) bytes) (image filled rest)
          ≡ some (check_crc crc check (image (filled ++ bytes) (drop (length bytes) rest))))
unfolding read_line
read_line-line_with filled bytes rest check small short near fits byte =
    let n = length filled in
    let size = hex2bin-hex_byte (length bytes) in
    let high = hex2bin-hex_byte (n / 256) in
    let low = hex2bin-hex_byte (n % 256) in
    let kind = hex2bin-hex_byte 0 in
    let before = (length bytes + (n / 256 + (n % 256 + 0))) % 256 in
    let address : (0 + n / 256 * 256 + n % 256) % 4294967296 ≡ n = omega arith in
    let head : (((length bytes + n / 256) % 256 + n % 256) % 256 + 0) % 256 ≡ before =
      omega arith in
    (
      (before + sum bytes) % 256,
      omega arith,
      rw
          (
            size _ short,
            high _ (omega arith),
            low _ (omega arith),
            kind _ (omega arith),
            address,
            head,
          )
          (read_data-hex_bytes _ _ _ _ _ _ _ _ _ check bytes filled rest before small fits
            (omega arith) byte),
    )

pub read_line-data_line :
    (filled bytes rest : List ℕ)
    → AllBelow 256 bytes
    → length bytes < 256
    → length filled < 65536
    → length bytes ≤ length rest
    → read_line (data_line (length filled) bytes) (image filled rest)
      ≡ some (image (filled ++ bytes) (drop (length bytes) rest), false)
unfolding check_crc
read_line-data_line filled bytes rest small short near fits =
    let (crc, right, read) =
      read_line-line_with filled bytes rest (checksum (length filled) bytes) small short near fits
        (omega arith) in
    let agrees : (256 - crc) % 256 == checksum (length filled) bytes ≡ true = ground arith in
    rw (read, agrees) refl
