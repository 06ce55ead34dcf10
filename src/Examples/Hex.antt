-- ===== src/Examples/Hex.antt =====
-- h9fwupload/h9fwupload.cc with a file of two records.
use h9d.Prelude.{ℕ, ◌≡◌, refl, arith, List, [], ◌∷◌, some, take}
use h9d.H9def.{frame_md, frame_md-IsTypeTable}
use h9d.Frame.{set_data, set_data_raw}
use h9d.Ihex.{Image, read_ihex}
use h9d.Ihex.Files.{AllRecords, lines_of, concat, read_ihex-lines_of}
use h9d.Upload.{
  FirmwareUploader, sent, new_uploader, new_frame, send_page_start, send_quit, send_page_fill,
  on_frame, upload, payload,
}
use h9d.Upload.FromFile.{upload-read_ihex}
use h9d.Examples.{blank}
use h9d.Examples.Uploads.{received, outcome}

abbrev chunks : List (List ℕ)
chunks = (1 ∷ 2 ∷ 3 ∷ 4 ∷ 5 ∷ 6 ∷ 7 ∷ []) ∷ (8 ∷ 9 ∷ 10 ∷ 11 ∷ 12 ∷ []) ∷ []

abbrev memory : List ℕ
memory =
    255 ∷ 255 ∷ 255 ∷ 255 ∷ 255 ∷ 255 ∷ 255 ∷ 255 ∷ 255 ∷ 255 ∷ 255 ∷ 255 ∷ 255 ∷ 255 ∷ 255 ∷ 255
    ∷ 255 ∷ []

abbrev image : Image
image = record {
  fw_data = 1 ∷ 2 ∷ 3 ∷ 4 ∷ 5 ∷ 6 ∷ 7 ∷ 8 ∷ 9 ∷ 10 ∷ 11 ∷ 12 ∷ 255 ∷ 255 ∷ 255 ∷ 255 ∷ 255 ∷ [];
  data_length = 12;
  extended_address = 0;
}

chunks-AllRecords : AllRecords chunks
chunks-AllRecords = (
  (
    omega arith,
    (omega arith, (omega arith, (omega arith, (omega arith, (omega arith, (omega arith, tt)))))),
  ),
  omega arith,
  ((omega arith, (omega arith, (omega arith, (omega arith, (omega arith, tt))))), omega arith, tt),
)

read_ihex-lines_of_example : read_ihex memory (lines_of 0 chunks) ≡ some image
read_ihex-lines_of_example =
    read_ihex-lines_of chunks memory chunks-AllRecords (omega arith) (omega arith)

abbrev after : FirmwareUploader
after = record {
  firmware = image.fw_data;
  fw_size = 12;
  node_id = 3;
  recv_frame_count = 5;
  sent_frame_count = 5;
  fw_idx = 16;
  page = 1;
}

upload-read_ihex_example : take 12 (payload frame_md blank (outcome.1)) ≡ concat chunks
unfolding upload on_frame new_uploader send_page_start send_quit send_page_fill sent new_frame
    set_data set_data_raw
upload-read_ihex_example =
    upload-read_ihex frame_md frame_md-IsTypeTable blank chunks memory image 3 received (outcome.1)
      after chunks-AllRecords (omega arith) (omega arith)
      (read_ihex-lines_of chunks memory chunks-AllRecords (omega arith) (omega arith)) refl
