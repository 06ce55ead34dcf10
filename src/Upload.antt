-- ===== src/Upload.antt =====
-- h9fwupload/firmware_uploader.cc and firmware_uploader.h: the firmware is sent to the bootloader of
-- a node, page by page, as the node asks for it. The firmware is the buffer that the pointer points
-- at. A `none` is a division by zero, or a read outside the buffer. What is printed is left out.
pub mod Image
pub mod Session
pub mod FromFile
use h9d.Prelude.{
  ℕ, ◌+◌, ◌/◌, ◌%◌, Bool, true, false, ◌&&◌, ◌||◌, not, List, [], ◌∷◌, ◌++◌, Option, some, none,
  ◌>>=◌, take, drop, length, leb, ◌==◌, u8, u16, u32, if◌then◌else◌,
}
use h9d.H9def.{H9Def}
use h9d.Frame.{H9Frame, set_data, set_data_raw}

pub record FirmwareUploader : Type 0 where
  pub firmware : List ℕ
  pub fw_size : ℕ
  pub node_id : ℕ
  pub recv_frame_count : ℕ
  pub sent_frame_count : ℕ
  pub fw_idx : ℕ
  pub page : ℕ

-- The constructor, and the first lines of `upload`.
unfoldable pub new_uploader : List ℕ → ℕ → ℕ → FirmwareUploader
new_uploader firmware fw_size dst = record {
  firmware = firmware;
  fw_size = fw_size;
  node_id = u16 dst;
  recv_frame_count = 0;
  sent_frame_count = 0;
  fw_idx = 0;
  page = 0;
}

-- A frame has been sent; the flag says that the upload has returned.
abbrev pub Turn : Type 0
Turn = FirmwareUploader × List H9Frame × Bool

unfoldable pub sent : H9Frame → Bool → FirmwareUploader → Turn
sent f done s = (record s { sent_frame_count = u32 (s.sent_frame_count + 1) }, f ∷ [], done)

module _ (h : H9Def) (garbage : H9Frame) where
  -- `H9Frame frame;` on memory that holds `garbage`, with the fields that are set.
  unfoldable pub new_frame : ℕ → ℕ → ℕ → H9Frame
  new_frame type dst dlc = record garbage {
    origin = "";
    type = type;
    destination_id = u8 dst;
    dlc = dlc;
  }

  unfoldable pub send_page_start : FirmwareUploader → Turn
  unfolding new_frame set_data sent
  send_page_start s =
      let f = set_data (s.page / 256 ∷ s.page % 256 ∷ []) (new_frame h.page_start s.node_id 2) in
      sent f false s

  unfoldable pub send_quit : FirmwareUploader → Turn
  unfolding new_frame sent
  send_quit s = sent (new_frame h.quit_bootloader s.node_id 0) true s

  unfoldable pub send_page_fill : FirmwareUploader → Option Turn
  unfolding new_frame set_data_raw sent
  send_page_fill s =
      let f = set_data_raw (drop s.fw_idx s.firmware) (new_frame h.page_fill s.node_id 8) in
      if leb (s.fw_idx + 8) (length s.firmware)
      then some (sent f false (record s { fw_idx = s.fw_idx + 8 }))
      else none

  -- The body of the loop of `upload`, on a frame that was received.
  unfoldable pub on_frame : H9Frame → FirmwareUploader → Option Turn
  on_frame f s =
      let counted = record s { recv_frame_count = u32 (s.recv_frame_count + 1) } in
      let next = record counted { page = u16 (s.page + 1) } in
      if not (f.source_id == s.node_id)
      then some (s, [], false)
      else if f.type == h.bootloader_turned_on || f.type == h.page_writed
      then if f.type == h.page_writed
        then if s.fw_size == 0
          then none
          else if leb s.fw_size s.fw_idx
          then some (send_quit counted)
          else some (send_page_start next)
        else some (send_page_start counted)
      else if f.type == h.page_fill_next
      then send_page_fill counted
      else some (counted, [], false)

  -- The loop, on the frames that are received one after the other: all frames that it sends.
  unfoldable pub upload : List H9Frame → FirmwareUploader → Option Turn
  upload [] s = some (s, [], false)
  upload (f ∷ fs) s = do
    r ← on_frame f s
    (if r.2 then some r else do rest ← upload fs (r.0); some (rest.0, r.1 ++ rest.1, rest.2))

  -- The bytes of the firmware among the frames that were sent.
  unfoldable pub payload : List H9Frame → List ℕ
  payload [] = []
  payload (f ∷ fs) =
      let rest = payload fs in if f.type == h.page_fill then f.data_bytes ++ rest else rest
