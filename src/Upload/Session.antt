-- ===== src/Upload/Session.antt =====
-- h9fwupload/firmware_uploader.cc with a bootloader that asks for one page after the other.
use h9d.Prelude.{
  ℕ, ◌+◌, ◌*◌, ◌%◌, ◌≤◌, ◌<◌, ◌≡◌, refl, arith, zero, suc, true, false, List, [], ◌∷◌, ◌++◌, some,
  length, leb, ◌==◌, sym, subst, ap, ◌∙◌,
}
use h9d.H9def.{H9Def, IsTypeTable}
use h9d.Frame.{H9Frame}
use h9d.Upload.{
  FirmwareUploader, sent, new_uploader, send_page_start, send_quit, send_page_fill, on_frame,
  upload,
}

-- A bootloader asks for a page with as many frames as the page takes.
abbrev pub fills : H9Frame → ℕ → List H9Frame → List H9Frame
fills fill zero rest = rest
fills fill (suc k) rest = fill ∷ fills fill k rest

-- So many pages of `k` frames each, each followed by the report that it is written.
abbrev pub pages : H9Frame → H9Frame → ℕ → ℕ → List H9Frame
pages fill written k zero = []
pages fill written k (suc n) = fills fill k (written ∷ pages fill written k n)

module _ (h : H9Def) (table : IsTypeTable h) (garbage : H9Frame) where
  -- The upload returns, having sent the firmware up to `target`.
  abbrev Finishes : ℕ → List H9Frame → FirmwareUploader → Type 0
  Finishes target fs s =
      (t : FirmwareUploader) × (out : List H9Frame) × (upload h garbage fs s ≡ some (t, out, true))
      × (t.fw_idx ≡ target)

  -- A state of the same upload, so far on.
  abbrev IsLater : FirmwareUploader → ℕ → FirmwareUploader → Type 0
  IsLater s idx t =
      (t.firmware ≡ s.firmware)
      × (t.fw_size ≡ s.fw_size)
      × (t.node_id ≡ s.node_id)
      × (t.fw_idx ≡ idx)

  goes_on :
      (target : ℕ) (f : H9Frame) (fs : List H9Frame) (s t : FirmwareUploader) (out : List H9Frame)
      → on_frame h garbage f s ≡ some (t, out, false)
      → Finishes target fs t
      → Finishes target (f ∷ fs) s
  unfolding upload
  goes_on target f fs s t out turned (u, more, returns, reached) =
      (u, out ++ more, rw (turned, returns) refl, reached)

  ask :
      (f : H9Frame) (s : FirmwareUploader)
      → f.type ≡ h.page_fill_next
      → f.source_id ≡ s.node_id
      → s.fw_idx + 8 ≤ length s.firmware
      → (t : FirmwareUploader) × (out : List H9Frame) × (on_frame h garbage f s
          ≡ some (t, out, false))
        × IsLater s (s.fw_idx + 8) t
  unfolding on_frame send_page_fill sent
  ask f s type source inside =
      let inside' : leb (s.fw_idx + 8) (length s.firmware) ≡ true = ground arith in
      let ours : f.source_id == s.node_id ≡ true = ground arith in
      simp (type, table.at23, table.at6, table.at5, ours, inside')
        (_, _, refl, (refl, refl, refl, refl))

  page_done :
      (f : H9Frame) (s : FirmwareUploader)
      → f.type ≡ h.page_writed
      → f.source_id ≡ s.node_id
      → s.fw_idx < s.fw_size
      → (t : FirmwareUploader) × (out : List H9Frame) × (on_frame h garbage f s
          ≡ some (t, out, false))
        × IsLater s s.fw_idx t
  unfolding on_frame send_page_start sent
  page_done f s type source more =
      let more' : leb s.fw_size s.fw_idx ≡ false = ground arith in
      let some_bytes : s.fw_size == 0 ≡ false = ground arith in
      let ours : f.source_id == s.node_id ≡ true = ground arith in
      simp (type, table.at23, table.at6, ours, some_bytes, more')
        (_, _, refl, (refl, refl, refl, refl))

  all_done :
      (f : H9Frame) (fs : List H9Frame) (s : FirmwareUploader)
      → f.type ≡ h.page_writed
      → f.source_id ≡ s.node_id
      → 0 < s.fw_size
      → s.fw_size ≤ s.fw_idx
      → Finishes s.fw_idx (f ∷ fs) s
  unfolding upload on_frame send_quit sent
  all_done f fs s type source bytes all =
      let all' : leb s.fw_size s.fw_idx ≡ true = ground arith in
      let some_bytes : s.fw_size == 0 ≡ false = ground arith in
      let ours : f.source_id == s.node_id ≡ true = ground arith in
      simp (type, table.at23, table.at6, ours, some_bytes, all') (_, _, refl, refl)

  turn_on :
      (f : H9Frame) (s : FirmwareUploader)
      → f.type ≡ h.bootloader_turned_on
      → f.source_id ≡ s.node_id
      → (t : FirmwareUploader) × (out : List H9Frame) × (on_frame h garbage f s
          ≡ some (t, out, false))
        × IsLater s s.fw_idx t
  unfolding on_frame send_page_start sent
  turn_on f s type source =
      let ours : f.source_id == s.node_id ≡ true = ground arith in
      simp (type, table.at23, table.at6, ours) (_, _, refl, (refl, refl, refl, refl))

  module _ (target : ℕ) (fill written : H9Frame) (fill_type : fill.type ≡ h.page_fill_next)
      (written_type : written.type ≡ h.page_writed) where
    fills_finish :
        (k : ℕ) (fs : List H9Frame) (s : FirmwareUploader)
        → fill.source_id ≡ s.node_id
        → s.fw_idx + k * 8 ≤ length s.firmware
        → ((t : FirmwareUploader) → IsLater s (s.fw_idx + k * 8) t → Finishes target fs t)
        → Finishes target (fills fill k fs) s
    fills_finish zero fs s source inside goes = goes s (refl, refl, refl, omega arith)
    fills_finish (suc k) fs s source inside goes =
        let (t, out, turned, (same, size, node, idx)) = ask fill s fill_type source (omega arith) in
        goes_on target fill (fills fill k fs) s t out turned (
          fills_finish k fs t (source ∙ sym node) (omega (arith, idx, ap length same))
            (λ u (same', size', node', idx').
              goes u (same' ∙ same, size' ∙ size, node' ∙ node, omega (arith, idx, idx'))))

    pages_finish :
        (k n : ℕ) (s : FirmwareUploader)
        → fill.source_id ≡ s.node_id
        → written.source_id ≡ s.node_id
        → 0 < s.fw_size
        → s.fw_idx + n * (k * 8) < s.fw_size
        → s.fw_size ≤ s.fw_idx + suc n * (k * 8)
        → s.fw_idx + suc n * (k * 8) ≤ length s.firmware
        → target ≡ s.fw_idx + suc n * (k * 8)
        → Finishes target (pages fill written k (suc n)) s
    pages_finish k zero s fills_ours ours bytes more all inside reached =
        fills_finish k (written ∷ []) s fills_ours (omega arith) (λ t (same, size, node, idx).
          subst (λ (m : ℕ). Finishes m (written ∷ []) t) (omega (arith, idx))
            (all_done written [] t written_type (ours ∙ sym node) (omega (arith, size))
              (omega (arith, size, idx))))
    pages_finish k (suc n) s fills_ours ours bytes more all inside reached =
        fills_finish k (written ∷ pages fill written k (suc n)) s fills_ours (omega arith)
          (λ t (same, size, node, idx).
            let (u, out, turned, (same', size', node', idx')) =
              page_done written t written_type (ours ∙ sym node) (omega (arith, size, idx)) in
            goes_on target written (pages fill written k (suc n)) t u out turned (
              pages_finish k n u (fills_ours ∙ sym (node' ∙ node)) (ours ∙ sym (node' ∙ node))
                (omega (arith, size, size')) (omega (arith, size, size', idx, idx'))
                (omega (arith, size, size', idx, idx'))
                (omega (arith, idx, idx', ap length same, ap length same'))
                (omega (arith, idx, idx'))))

  -- With the bootloader of a node whose id is a byte, which reports once that it is on and then asks
  -- for page after page of `k` frames, as many pages as the firmware takes, the upload of a firmware
  -- that is not empty returns, at the end of the last page, if the buffer of the firmware reaches as
  -- far.
  pub upload_finishes :
      (turned_on fill written : H9Frame) (firmware : List ℕ) (fw_size dst k n : ℕ)
      → turned_on.type ≡ h.bootloader_turned_on
      → fill.type ≡ h.page_fill_next
      → written.type ≡ h.page_writed
      → turned_on.source_id ≡ dst
      → fill.source_id ≡ dst
      → written.source_id ≡ dst
      → dst < 256
      → n * (k * 8) < fw_size
      → fw_size ≤ suc n * (k * 8)
      → suc n * (k * 8) ≤ length firmware
      → (t : FirmwareUploader) × (out : List H9Frame) × (upload h garbage
            (turned_on ∷ pages fill written k (suc n))
            (new_uploader firmware fw_size dst)
          ≡ some (t, out, true))
        × (t.fw_idx ≡ suc n * (k * 8))
  unfolding new_uploader
  upload_finishes turned_on fill written firmware fw_size dst k n on fills_page writes on_ours
        fill_ours ours small more all inside =
      let s = new_uploader firmware fw_size dst in
      let node : dst % 65536 ≡ dst = omega arith in
      let (t, out, turned, (same, size, id, idx)) = turn_on turned_on s on (on_ours ∙ sym node) in
      goes_on (suc n * (k * 8)) turned_on (pages fill written k (suc n)) s t out turned (
        pages_finish (suc n * (k * 8)) fill written fills_page writes k n t
          (fill_ours ∙ sym (id ∙ node)) (ours ∙ sym (id ∙ node)) (omega (arith, size))
          (omega (arith, size, idx)) (omega (arith, size, idx)) (omega (arith, idx, ap length same))
          (omega (arith, idx)))
