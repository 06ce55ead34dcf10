-- ===== src/Upload/Image.antt =====
-- What h9fwupload/firmware_uploader.cc has sent of the firmware.
use h9d.Prelude.{
  ℕ, ◌+◌, ◌≤◌, ◌≡◌, refl, arith, zero, suc, Bool, Bool-cases, inl, inr, true, false, ◌||◌, List, [],
  ◌∷◌, ◌++◌, Option, Option-cases, some, none, take, drop, drop-drop, append_nil, append_assoc,
  length, length-append, length-drop, leb, leb→le, ◌==◌, u16, u32, sym, subst, ap, ◌∙◌,
}
use h9d.H9def.{H9Def, IsTypeTable}
use h9d.Frame.{H9Frame, set_data, set_data_raw}
use h9d.Upload.{
  FirmwareUploader, Turn, sent, new_uploader, new_frame, send_page_start, send_quit, send_page_fill,
  on_frame, upload, payload,
}

take-drop : (n : ℕ) (xs : List ℕ) → take n xs ++ drop n xs ≡ xs
take-drop zero xs = refl
take-drop (suc n) [] = refl
take-drop (suc n) (x ∷ xs) = ap (◌∷◌ x) (take-drop n xs)

or_true : (a b : Bool) → b ≡ true → (a || b) ≡ true
or_true true b e = refl
or_true false b e = e

abbrev IfReturned : (Turn → Type 0) → Option Turn → Type 0
IfReturned P none = Unit {0}
IfReturned P (some r) = P r

-- What a turn leaves: the firmware as it is, and sent what has been passed over of it; and it ends
-- only where all of the firmware has been sent.
abbrev IsTurn : H9Def → H9Frame → FirmwareUploader → Turn → Type 0
IsTurn h garbage s r =
    (payload h garbage r.1 ++ drop r.0.fw_idx s.firmware ≡ drop s.fw_idx s.firmware)
    × (r.0.firmware ≡ s.firmware)
    × (r.0.fw_size ≡ s.fw_size)
    × (r.2 ≡ true → r.0.fw_size ≤ r.0.fw_idx)

module _ (h : H9Def) (table : IsTypeTable h) (garbage : H9Frame) where
  payload-append :
      (fs gs : List H9Frame)
      → payload h garbage (fs ++ gs) ≡ payload h garbage fs ++ payload h garbage gs
  unfolding payload
  payload-append [] gs = refl
  payload-append (f ∷ fs) gs = elim (Bool-cases (f.type == h.page_fill)) [
    | inl fills ↦ rw (fills, payload-append fs gs) (sym (append_assoc f.data_bytes _ _))
    | inr other ↦ rw other (payload-append fs gs)
  ]

  send_page_start-IsTurn : (s : FirmwareUploader) → IsTurn h garbage s (send_page_start h garbage s)
  unfolding send_page_start payload sent set_data new_frame
  send_page_start-IsTurn s = rw (table.at1, table.at3) (refl, refl, refl, (λ done. cc))

  send_quit-IsTurn :
      (s : FirmwareUploader) → s.fw_size ≤ s.fw_idx → IsTurn h garbage s (send_quit h garbage s)
  unfolding send_quit payload sent new_frame
  send_quit-IsTurn s all = rw (table.at2, table.at3) (refl, refl, refl, (λ done. all))

  send_page_fill-IsTurn :
      (s : FirmwareUploader) → IfReturned (IsTurn h garbage s) (send_page_fill h garbage s)
  unfolding send_page_fill payload sent new_frame set_data_raw
  send_page_fill-IsTurn s = elim (Bool-cases (leb (s.fw_idx + 8) (length s.firmware))) [
    | inl inside ↦
        rw (inside, table.at3)
          (
            ap (λ (xs : List ℕ). xs ++ drop (s.fw_idx + 8) s.firmware) (append_nil _)
                ∙ ap (λ (xs : List ℕ). take 8 (drop s.fw_idx s.firmware) ++ xs)
                    (sym (drop-drop s.fw_idx 8 s.firmware))
                ∙ take-drop 8 (drop s.fw_idx s.firmware),
            refl,
            refl,
            (λ done. cc),
          )
    | inr outside ↦ rw outside tt
  ]

  abbrev counted : FirmwareUploader → FirmwareUploader
  counted s = record s { recv_frame_count = u32 (s.recv_frame_count + 1) }

  abbrev next : FirmwareUploader → FirmwareUploader
  next s = record s { page = u16 (s.page + 1) }

  on_frame-IsTurn :
      (f : H9Frame) (s : FirmwareUploader)
      → IfReturned (IsTurn h garbage s) (on_frame h garbage f s)
  unfolding on_frame payload
  on_frame-IsTurn f s = elim (Bool-cases (f.source_id == s.node_id)) [
    | inl ours ↦ elim (Bool-cases (f.type == h.page_writed)) [
      | inl writed ↦ elim (Bool-cases (s.fw_size == 0)) [
        | inl nothing ↦
            rw
              (
                ours,
                or_true (f.type == h.bootloader_turned_on) (f.type == h.page_writed) writed,
                writed,
                nothing,
              )
              tt
        | inr some_bytes ↦ elim (Bool-cases (leb s.fw_size s.fw_idx)) [
          | inl all ↦
              rw
                (
                  ours,
                  or_true (f.type == h.bootloader_turned_on) (f.type == h.page_writed) writed,
                  writed,
                  some_bytes,
                  all,
                )
                (send_quit-IsTurn (counted s) (leb→le s.fw_size s.fw_idx all))
          | inr more ↦
              rw
                (
                  ours,
                  or_true (f.type == h.bootloader_turned_on) (f.type == h.page_writed) writed,
                  writed,
                  some_bytes,
                  more,
                )
                (send_page_start-IsTurn (next (counted s)))
        ]
      ]
      | inr not_writed ↦ elim (Bool-cases (f.type == h.bootloader_turned_on)) [
        | inl turned_on ↦ simp (ours, not_writed, turned_on) (send_page_start-IsTurn (counted s))
        | inr running ↦ elim (Bool-cases (f.type == h.page_fill_next)) [
          | inl fills ↦ simp (ours, not_writed, running, fills) (send_page_fill-IsTurn (counted s))
          | inr other ↦ simp (ours, not_writed, running, other) (refl, refl, refl, (λ done. cc))
        ]
      ]
    ]
    | inr theirs ↦ rw theirs (refl, refl, refl, (λ done. cc))
  ]

  IsTurn-then :
      (s : FirmwareUploader) (r q : Turn)
      → IsTurn h garbage s r
      → IsTurn h garbage (r.0) q
      → IsTurn h garbage s (q.0, r.1 ++ q.1, q.2)
  IsTurn-then s (t, out, done) (u, more, ended) (sent_now, same, size, all)
        (sent_later, same', size', all') =
      (
        ap (λ (xs : List ℕ). xs ++ drop u.fw_idx s.firmware) (payload-append out more)
            ∙ append_assoc (payload h garbage out) (payload h garbage more)
                (drop u.fw_idx s.firmware)
            ∙ ap (λ (xs : List ℕ). payload h garbage out ++ xs)
                (subst
                  (λ (fw : List ℕ). payload h garbage more ++ drop u.fw_idx fw ≡ drop t.fw_idx fw)
                  same sent_later)
            ∙ sent_now,
        same' ∙ same,
        size' ∙ size,
        all',
      )

  upload-IsTurn :
      (fs : List H9Frame) (s : FirmwareUploader)
      → IfReturned (IsTurn h garbage s) (upload h garbage fs s)
  unfolding upload payload
  upload-IsTurn [] s = (refl, refl, refl, (λ done. cc))
  upload-IsTurn (f ∷ fs) s = elim (Option-cases (on_frame h garbage f s)) [
    | inl fails ↦ rw fails tt
    | inr ((t, out, done), sends) ↦
        let turned : IsTurn h garbage s (t, out, done) =
          subst (IfReturned (IsTurn h garbage s)) sends (on_frame-IsTurn f s) in
        elim (Bool-cases done) [
          | inl ends ↦ rw (sends, ends) (turned.0, turned.1, turned.2, (λ _. turned.3 ends))
          | inr goes ↦ elim (Option-cases (upload h garbage fs t)) [
            | inl fails ↦ rw (sends, goes, fails) tt
            | inr (rest, continues) ↦
                rw (sends, goes, continues)
                  (IsTurn-then s (t, out, done) rest turned
                    (subst (IfReturned (IsTurn h garbage t)) continues (upload-IsTurn fs t)))
          ]
        ]
  ]

  -- The upload returns only once it has sent all of the firmware: the bytes of the PAGE_FILL frames,
  -- in the order in which they were sent, are the beginning of the firmware, and at least the
  -- `fw_size` bytes that were asked for, whatever was received, in whatever order.
  pub upload-image :
      (firmware : List ℕ) (fw_size dst : ℕ) (fs : List H9Frame) (t : FirmwareUploader)
      (out : List H9Frame)
      → fw_size ≤ length firmware
      → upload h garbage fs (new_uploader firmware fw_size dst) ≡ some (t, out, true)
      → (rest : List ℕ) × (payload h garbage out ++ rest ≡ firmware)
        × (fw_size ≤ length (payload h garbage out))
  unfolding new_uploader
  upload-image firmware fw_size dst fs t out fits returns =
      let (sends, same, size, all) : IsTurn h garbage (new_uploader firmware fw_size dst)
          (t, out, true) =
        subst (IfReturned (IsTurn h garbage (new_uploader firmware fw_size dst))) returns
          (upload-IsTurn fs (new_uploader firmware fw_size dst)) in
      (
        drop t.fw_idx firmware,
        sends,
        omega (
          arith,
          all refl,
          size,
          ap length sends,
          length-append (payload h garbage out) (drop t.fw_idx firmware),
          length-drop t.fw_idx firmware,
        ),
      )
