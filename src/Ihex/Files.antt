-- ===== src/Ihex/Files.antt =====
-- Files of data records, and what `read_ihex` of h9fwupload/h9fwupload.cc reads of them.
use h9d.Prelude.{
  ℕ, ◌+◌, ◌-◌, ◌%◌, ◌≤◌, ◌<◌, ◌≡◌, ◌≢◌, refl, arith, false, List, [], ◌∷◌, ◌++◌, AllBelow, some,
  drop, drop-drop, length-drop, append_nil, append_assoc, length, length-append, ◌==◌, sym,
}
use h9d.Ihex.{digit, hex2bin, Image, check_crc, read_line, read_lines, read_ihex}
use h9d.Ihex.Records.{
  hex_bytes, line_with, data_line, checksum, image, read_line-line_with, read_line-data_line,
}

-- The record at the end of a file.
abbrev pub end_line : List ℕ
end_line = 58 ∷ hex_bytes (0 ∷ 0 ∷ 0 ∷ 1 ∷ 255 ∷ []) (10 ∷ 0 ∷ [])

read_line-end_line : (s : Image) → read_line end_line s ≡ some (s, false)
unfolding read_line hex2bin digit
read_line-end_line s = refl

-- The lines of a file whose records lie one after the other.
abbrev pub lines_of : ℕ → List (List ℕ) → List (List ℕ)
lines_of start [] = end_line ∷ []
lines_of start (c ∷ cs) = data_line start c ∷ lines_of (start + length c) cs

abbrev pub concat : List (List ℕ) → List ℕ
concat [] = []
concat (c ∷ cs) = c ++ concat cs

-- Records of fewer than 256 bytes.
abbrev pub AllRecords : List (List ℕ) → Type 0
AllRecords [] = Unit {0}
AllRecords (c ∷ cs) = AllBelow 256 c × (length c < 256) × AllRecords cs

read_lines-lines_of :
    (chunks : List (List ℕ)) (filled rest : List ℕ)
    → AllRecords chunks
    → length filled + length (concat chunks) < 65536
    → length (concat chunks) ≤ length rest
    → read_lines (lines_of (length filled) chunks) (image filled rest)
      ≡ some (image (filled ++ concat chunks) (drop (length (concat chunks)) rest))
unfolding read_lines
read_lines-lines_of [] filled rest small near fits =
    rw (read_line-end_line (image filled rest), append_nil filled) refl
read_lines-lines_of (c ∷ cs) filled rest (small, short, others) near fits =
    let size = length-append c (concat cs) in
    let later =
      read_lines-lines_of cs (filled ++ c) (drop (length c) rest) others
        (omega (arith, length-append filled c)) (omega (arith, length-drop (length c) rest)) in
    rw
      (
        read_line-data_line filled c rest small short (omega arith) (omega arith),
        sym (length-append filled c),
        later,
        drop-drop (length c) (length (concat cs)) rest,
        append_assoc filled c (concat cs),
        size,
      )
      refl

-- A file of data records that lie one after the other from the address 0 on, fewer than 64 kB in
-- all, each of fewer than 256 bytes and with its checksum, and of the record that ends it, is read
-- back into memory that is long enough: the
-- length is that of the data, and the memory holds the data and, after it, what it held before.
pub read_ihex-lines_of :
    (chunks : List (List ℕ)) (memory : List ℕ)
    → AllRecords chunks
    → length (concat chunks) < 65536
    → length (concat chunks) ≤ length memory
    → read_ihex memory (lines_of 0 chunks)
      ≡ some (record {
        fw_data = concat chunks ++ drop (length (concat chunks)) memory;
        data_length = length (concat chunks);
        extended_address = 0;
      })
unfolding read_ihex
read_ihex-lines_of chunks memory small near fits =
    read_lines-lines_of chunks [] memory small (omega arith) fits

-- A data record of fewer than 256 bytes that goes on where the image ends, below 64 kB and within
-- the memory, but whose checksum is wrong, leaves no image:
-- reading ends there, whatever lines follow, with the length 0.
pub read_lines-corrupt :
    (check : ℕ) (filled bytes rest : List ℕ) (lines : List (List ℕ))
    → AllBelow 256 bytes
    → length bytes < 256
    → length filled < 65536
    → length bytes ≤ length rest
    → check < 256
    → check ≢ checksum (length filled) bytes
    → (t : Image) × (read_lines
          (line_with check (length filled) bytes ∷ lines)
          (record { fw_data = filled ++ rest; data_length = length filled; extended_address = 0 })
        ≡ some t)
      × (t.data_length ≡ 0)
unfolding read_lines check_crc
read_lines-corrupt check filled bytes rest lines small short near fits byte wrong =
    let (crc, right, read) =
      read_line-line_with filled bytes rest check small short near fits byte in
    let differs : (256 - crc) % 256 == check ≡ false = ground arith in
    (
      record (image (filled ++ bytes) (drop (length bytes) rest)) { data_length = 0 },
      rw (read, differs) refl,
      refl,
    )
