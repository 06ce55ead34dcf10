-- ===== src/Frame/Json.antt =====
-- `to_json` and `from_json` of common/h9_frame.cc: a frame as the API of the daemon shows and takes it.
pub mod RoundTrip
use h9d.Prelude.{
  ℕ, ◌^◌, ◌≤◌, ◌<◌, ◌≡◌, refl, arith, inl, inr, Bool-cases, true, List, [], ◌∷◌, Option, some, none,
  ◌>>=◌, String, take, length, overwrite, AllBelow, leb, u8, length-take, take_all, zero, suc, ltb,
  ap, ◌∙◌, if◌then◌else◌,
}
use h9d.H9def.{H9Def}
use h9d.Frame.{H9Frame, is_unicast, set_data}
use h9d.Frame.Identifier.{HeaderInRange, with_header}
use h9d.Json.{JsonLib, IsJson, find_key}

module _ {J A : Type 0} where
  unfoldable pub set_found :
      (J → Option A) → (A → H9Frame → H9Frame) → Option J → H9Frame → Option H9Frame
  set_found get setter none f = some f
  set_found get setter (some v) f = do a ← get v; some (setter a f)

  -- `if (j.count(k)) f.set(j.at(k).get<A>())`; `none` is a type_error.
  unfoldable pub set_if :
      JsonLib J → String → (J → Option A) → (A → H9Frame → H9Frame) → J → H9Frame → Option H9Frame
  set_if lib k get setter j f = set_found get setter (lib.member k j) f

module _ {J : Type 0} (lib : JsonLib J) where
  -- `none` is a read past the eight bytes of the data.
  unfoldable pub to_json : H9Def → H9Frame → Option J
  to_json h f =
      let bytes = lib.of_bytes (take f.dlc f.data_bytes) in
      if leb f.dlc (length f.data_bytes)
      then some (
          if is_unicast h f
          then lib.of_object (
              ("origin", lib.of_string f.origin)
              ∷ ("type", lib.of_number f.type)
              ∷ ("source_id", lib.of_number f.source_id)
              ∷ ("seqnum", lib.of_number f.seqnum)
              ∷ ("destination_id", lib.of_number f.destination_id)
              ∷ ("flags", lib.of_number f.flags)
              ∷ ("dlc", lib.of_number f.dlc)
              ∷ ("data", bytes)
              ∷ [])
          else lib.of_object (
              ("origin", lib.of_string f.origin)
              ∷ ("type", lib.of_number f.type)
              ∷ ("source_id", lib.of_number f.source_id)
              ∷ ("broadcast_group", lib.of_number f.group)
              ∷ ("dlc", lib.of_number f.dlc)
              ∷ ("data", bytes)
              ∷ []))
      else none

  unfoldable pub from_json : J → H9Frame → Option H9Frame
  from_json j f = do
    f ← set_if lib "type" lib.get_u8 (λ v f. record f { type = v }) j f
    f ← set_if lib "source_id" lib.get_u8 (λ v f. record f { source_id = v }) j f
    f ← set_if lib "seqnum" lib.get_u8 (λ v f. record f { seqnum = v }) j f
    f ← set_if lib "destination_id" lib.get_u8 (λ v f. record f { destination_id = v }) j f
    f ← set_if lib "flags" lib.get_u8 (λ v f. record f { flags = v }) j f
    f ← set_if lib "broadcast_group" lib.get_u16 (λ v f. record f { group = v }) j f
    f ← set_if lib "dlc" lib.get_u8 (λ v f. record f { dlc = v }) j f
    set_if lib "data" lib.get_bytes set_data j f
