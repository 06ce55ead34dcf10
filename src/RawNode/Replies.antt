-- ===== src/RawNode/Replies.antt =====
-- Which frames answer a request of h9d/raw_node.cc, and what the request returns.
use h9d.Prelude.{
  ℕ, zero, suc, ◌-◌, ◌≤◌, ◌<◌, ◌≡◌, ◌≢◌, ◌↔◌, ◌⊎◌, inl, inr, refl, arith, Bool-cases, Bool, true,
  false, subst, ◌&&◌, List, [], ◌∷◌, ◌++◌, Option, none, some, String, get_or, take, find?, length,
  length-drop, drop, overwrite, copy_bytes_in_bounds, ℤ, pos, neg, ltb, ◌==◌, if◌then◌else◌,
}
use h9d.H9def.{H9Def}
use h9d.Frame.{H9Frame, unicast_frame}
use h9d.Comparator.{
  H9FrameComparator, matches, eq, eq_alternate_set, compares, set_seqnum, seqnum_flag,
}
use h9d.RawNode.Delivery.{exchange_lem}
use h9d.RawNode.Request.{
  Memory, Traffic, reply_comparator, reset_comparator, ask, register_response, error_code, get_reg,
  set_reg, bit_operation, at_most, timeout_error,
}

module _ (h : H9Def) where
  -- A frame that answers a register request of the sequence number `s`.
  abbrev pub IsReply : ℕ → ℕ → ℕ → H9Frame → Type 0
  IsReply node reg s f =
      (f.source_id ≡ node)
      × (f.seqnum ≡ s)
      × (((f.type ≡ h.reg_value) × (1 ≤ f.dlc) × (get_or f.data_bytes 0 0 ≡ reg))
          ⊎ (f.type ≡ h.command_error))

  -- The comparator of the register requests selects exactly the frames of that node and sequence
  -- number that are a value of that register or an error.
  pub matches-reply_comparator :
      (garbage node reg s : ℕ) (f : H9Frame)
      → (matches (set_seqnum s (reply_comparator h garbage node reg)) f ≡ true)
        ↔ IsReply node reg s f
  unfolding matches eq eq_alternate_set compares set_seqnum reply_comparator
  matches-reply_comparator garbage node reg s f = ground arith

  abbrev pub IsResetReply : ℕ → ℕ → H9Frame → Type 0
  IsResetReply node s f =
      (f.source_id ≡ node)
      × (((f.seqnum ≡ s) × (f.type ≡ h.command_error))
          ⊎ ((f.seqnum ≡ 0) × (f.type ≡ h.node_turned_on)))

  -- The comparator of `reset` selects exactly the errors of that node under the request's
  -- sequence number and its NODE_TURNED_ON frames under the sequence number 0.
  pub matches-reset_comparator :
      (garbage node s : ℕ) (f : H9Frame)
      → (matches (set_seqnum s (reset_comparator h garbage node)) f ≡ true) ↔ IsResetReply node s f
  unfolding matches eq eq_alternate_set compares set_seqnum reset_comparator
  matches-reset_comparator garbage node s f = ground arith

-- A frame as the drivers make it: at most eight bytes, in an array of eight.
abbrev pub IsWellFormed : H9Frame → Type 0
IsWellFormed f = (f.dlc ≤ 8) × (length f.data_bytes ≡ 8) × (get_or f.data_bytes 0 0 < 256)

abbrev pub AllWellFormed : List H9Frame → Type 0
AllWellFormed [] = Unit {0}
AllWellFormed (f ∷ fs) = IsWellFormed f × AllWellFormed fs

find?-IsWellFormed :
    (p : H9Frame → Bool) (fs : List H9Frame) (f : H9Frame)
    → AllWellFormed fs
    → find? p fs ≡ some f
    → IsWellFormed f
find?-IsWellFormed p [] f w e = cc
find?-IsWellFormed p (x ∷ fs) f w e = elim (Bool-cases (p x)) [
  | inl hit ↦ let same : x ≡ f = ground arith in subst IsWellFormed same (w.0)
  | inr miss ↦ find?-IsWellFormed p fs f (w.1) (rw miss at e)
]

-- Waiting for a promise gives the first frame of the traffic that the comparator with the sequence
-- number matches, and nothing if there is none.
ask_lem :
    (m : Memory) (bus : H9Frame → Traffic) (c : H9FrameComparator) (req : H9Frame)
    → compares c seqnum_flag ≡ false
    → ask m bus c (some req)
      ≡ some (find? (matches (set_seqnum (bus req).seqnum c)) ((bus req).early ++ (bus req).late))
unfolding ask
ask_lem m bus c req free =
    let (p, done, v, r) =
      exchange_lem m.pointer c (bus req).early (bus req).late (bus req).seqnum free in
    rw (done, v)

neg-ne-timeout_error : (n : ℕ) → n < 256 → neg n ≢ timeout_error
neg-ne-timeout_error zero small e = cc
neg-ne-timeout_error (suc n) small e = ground arith

module _ (h : H9Def) where
  -- What a register request returns and leaves in its buffer, for the frame that answers it.
  unfoldable pub register_outcome : ℕ → List ℕ → Option H9Frame → ℤ × List ℕ
  register_outcome length buf none = (timeout_error, buf)
  register_outcome length buf (some f) =
      if f.type == h.reg_value && ltb 1 f.dlc
      then (
        pos (f.dlc - 1),
        overwrite (take (at_most length (f.dlc - 1)) (drop 1 f.data_bytes)) buf,
      )
      else (error_code h f, buf)

  register_response-outcome :
      (n : ℕ) (buf : List ℕ) (o : Option H9Frame)
      → n ≤ length buf
      → ((f : H9Frame) → o ≡ some f → IsWellFormed f)
      → register_response h (at_most n) buf o ≡ some (register_outcome n buf o)
  unfolding register_response register_outcome
  register_response-outcome n buf none fits w = refl
  register_response-outcome n buf (some f) fits w = ground (
    arith,
    w f refl,
    length-drop 1 f.data_bytes,
    copy_bytes_in_bounds (at_most n (f.dlc - 1)) (drop 1 f.data_bytes) buf,
  )

  abbrev pub first_reply : ℕ → ℕ → ℕ → Traffic → Option H9Frame
  first_reply garbage node reg t =
      find? (matches (set_seqnum t.seqnum (reply_comparator h garbage node reg)))
        (t.early ++ t.late)

  reply_comparator-free :
      (garbage node reg : ℕ) → compares (reply_comparator h garbage node reg) seqnum_flag ≡ false
  unfolding compares reply_comparator
  reply_comparator-free garbage node reg = refl

  -- `get_reg` with a buffer of the length that it is given, on traffic of well-formed frames: it
  -- accesses nothing out of bounds, and answers by the first frame that matches the request's
  -- comparator with its sequence number, whether it came before or after that number was known.
  pub get_reg_lem :
      (m : Memory) (bus : H9Frame → Traffic) (origin : String) (node reg n : ℕ) (buf : List ℕ)
      (req : H9Frame)
      → unicast_frame h origin h.get_reg h.singe_frame node (reg ∷ []) m.frame ≡ some req
      → n ≤ length buf
      → AllWellFormed ((bus req).early ++ (bus req).late)
      → get_reg h m bus origin node reg n buf
        ≡ some (register_outcome n buf (first_reply m.group node reg (bus req)))
  unfolding get_reg
  get_reg_lem m bus origin node reg n buf req e fits w =
      rw
        (
          e,
          ask_lem m bus (reply_comparator h m.group node reg) req
              (reply_comparator-free m.group node reg),
        )
        (register_response-outcome n buf _ fits (λ f found. find?-IsWellFormed _ _ f w found))

  -- A register request times out exactly if no frame answers it: neither an error byte nor a
  -- malformed frame is taken for a timeout.
  pub register_outcome_timeout :
      (n : ℕ) (buf : List ℕ) (o : Option H9Frame)
      → ((f : H9Frame) → o ≡ some f → IsWellFormed f)
      → ((register_outcome n buf o).0 ≡ timeout_error) ↔ (o ≡ none)
  unfolding register_outcome error_code
  register_outcome_timeout n buf none w = ((λ _. refl), (λ _. refl))
  register_outcome_timeout n buf (some f) w = (
    (λ e. absurd (ground (arith, w f refl, neg-ne-timeout_error (get_or f.data_bytes 0 0)))),
    (λ e. cc),
  )

  -- SET_BIT and CLEAR_BIT answer in the same way.
  pub bit_operation_lem :
      (m : Memory) (bus : H9Frame → Traffic) (origin : String) (type node reg bit n : ℕ)
      (buf : List ℕ) (req : H9Frame)
      → unicast_frame h origin type h.singe_frame node (reg ∷ bit ∷ []) m.frame ≡ some req
      → n ≤ length buf
      → AllWellFormed ((bus req).early ++ (bus req).late)
      → bit_operation h m bus origin type node reg bit n buf
        ≡ some (register_outcome n buf (first_reply m.group node reg (bus req)))
  unfolding bit_operation
  bit_operation_lem m bus origin type node reg bit n buf req e fits w =
      rw
        (
          e,
          ask_lem m bus (reply_comparator h m.group node reg) req
              (reply_comparator-free m.group node reg),
        )
        (register_response-outcome n buf _ fits (λ f found. find?-IsWellFormed _ _ f w found))

  -- So does `set_reg` with a buffer of the length that it sends, when no other length is given.
  pub set_reg_lem :
      (m : Memory) (bus : H9Frame → Traffic) (origin : String) (node reg n : ℕ) (value buf : List ℕ)
      (req : H9Frame)
      → unicast_frame h origin h.set_reg h.singe_frame node (reg ∷ take n value) m.frame ≡ some req
      → n ≤ length buf
      → AllWellFormed ((bus req).early ++ (bus req).late)
      → set_reg h m bus origin node reg n value buf none
        ≡ some (register_outcome n buf (first_reply m.group node reg (bus req)))
  unfolding set_reg
  set_reg_lem m bus origin node reg n value buf req e fits w =
      rw
        (
          e,
          ask_lem m bus (reply_comparator h m.group node reg) req
              (reply_comparator-free m.group node reg),
        )
        (register_response-outcome n buf _ fits (λ f found. find?-IsWellFormed _ _ f w found))
