-- ===== src/Examples/Uploads.antt =====
-- h9fwupload/firmware_uploader.cc with a small firmware.
use h9d.Prelude.{ℕ, ◌≡◌, refl, arith, List, [], ◌∷◌, Option, none, some, true}
use h9d.H9def.{frame_md, frame_md-IsTypeTable}
use h9d.Frame.{H9Frame, set_data, set_data_raw}
use h9d.Upload.{
  FirmwareUploader, sent, new_uploader, new_frame, send_page_start, send_quit, send_page_fill,
  on_frame, upload,
}
use h9d.Upload.Session.{pages, upload_finishes}
use h9d.Examples.{blank}

-- Twelve bytes, and the rest of the buffer.
abbrev firmware : List ℕ
firmware = 1 ∷ 2 ∷ 3 ∷ 4 ∷ 5 ∷ 6 ∷ 7 ∷ 8 ∷ 9 ∷ 10 ∷ 11 ∷ 12 ∷ 255 ∷ 255 ∷ 255 ∷ 255 ∷ 255 ∷ []

abbrev pub from_node : ℕ → H9Frame
from_node type = record blank { type = type; source_id = 3 }

abbrev pub received : List H9Frame
received = from_node 23 ∷ pages (from_node 5) (from_node 6) 1 2

abbrev before : FirmwareUploader
before = new_uploader firmware 12 3

abbrev pub outcome : Option FirmwareUploader × List H9Frame
unfolding upload on_frame new_uploader send_page_start send_quit send_page_fill sent new_frame
    set_data set_data_raw
outcome = elim (upload frame_md blank received before) [
  | none ↦ (none, [])
  | some r ↦ (some (r.0), r.1)
]

upload_finishes_example :
    (t : FirmwareUploader) × (out : List H9Frame) × (upload frame_md blank received before
      ≡ some (t, out, true))
    × (t.fw_idx ≡ 16)
upload_finishes_example =
    upload_finishes frame_md frame_md-IsTypeTable blank (from_node 23) (from_node 5) (from_node 6)
      firmware 12 3 1 1 refl refl refl refl refl refl (omega arith) (omega arith) (omega arith)
      (omega arith)

abbrev after : FirmwareUploader
after = record {
  firmware = firmware;
  fw_size = 12;
  node_id = 3;
  recv_frame_count = 5;
  sent_frame_count = 5;
  fw_idx = 16;
  page = 1;
}
