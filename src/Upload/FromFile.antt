-- ===== src/Upload/FromFile.antt =====
-- `main` of h9fwupload/h9fwupload.cc: a file is read, and its image is sent.
use h9d.Prelude.{
  ℕ, ◌≤◌, ◌<◌, ◌≡◌, refl, arith, true, List, [], ◌∷◌, ◌++◌, some, take, drop, length, length-append,
  sym, ap, ap₂, ◌∙◌,
}
use mathlib.Core.Option.{some-injective}
use h9d.H9def.{H9Def, IsTypeTable}
use h9d.Frame.{H9Frame}
use h9d.Ihex.{Image, read_ihex}
use h9d.Ihex.Files.{AllRecords, concat, lines_of, read_ihex-lines_of}
use h9d.Upload.{FirmwareUploader, new_uploader, upload, payload}
use h9d.Upload.Image.{upload-image}

take_prefix :
    (xs rest cs ds : List ℕ)
    → xs ++ rest ≡ cs ++ ds
    → length cs ≤ length xs
    → take (length cs) xs ≡ cs
take_prefix xs rest [] ds same fits = refl
take_prefix [] rest (c ∷ cs) ds same fits = absurd (omega arith)
take_prefix (x ∷ xs) rest (c ∷ cs) ds same fits =
    let first : x ≡ c = cc in
    let others : xs ++ rest ≡ cs ++ ds = cc in
    ap₂ ◌∷◌ first (take_prefix xs rest cs ds others (omega arith))

-- From the file to the bus: when the upload of the image that was read from a file of data records,
-- one after the other from the address 0 on, fewer than 64 kB in all, returns, the bytes of the PAGE_FILL frames
-- that were sent begin with the data of the file.
pub upload-read_ihex :
    (h : H9Def) (table : IsTypeTable h) (garbage : H9Frame) (chunks : List (List ℕ))
    (memory : List ℕ) (image : Image) (dst : ℕ) (fs out : List H9Frame) (t : FirmwareUploader)
    → AllRecords chunks
    → length (concat chunks) < 65536
    → length (concat chunks) ≤ length memory
    → read_ihex memory (lines_of 0 chunks) ≡ some image
    → upload h garbage fs (new_uploader image.fw_data image.data_length dst) ≡ some (t, out, true)
    → take (length (concat chunks)) (payload h garbage out) ≡ concat chunks
upload-read_ihex h table garbage chunks memory image dst fs out t small near fits reads returns =
    let bytes = concat chunks in
    let left = drop (length bytes) memory in
    let it : record { fw_data = bytes ++ left; data_length = length bytes; extended_address = 0 }
        ≡ image =
      some-injective _ _ (sym (read_ihex-lines_of chunks memory small near fits) ∙ reads) in
    let whole : bytes ++ left ≡ image.fw_data = ap (λ (i : Image). i.fw_data) it in
    let size : length bytes ≡ image.data_length = ap (λ (i : Image). i.data_length) it in
    let (rest, sends, all) =
      upload-image h table garbage image.fw_data image.data_length dst fs t out
        (omega (arith, size, ap length whole, length-append bytes left)) returns in
    take_prefix (payload h garbage out) rest bytes left (sends ∙ sym whole) (omega (arith, size))
