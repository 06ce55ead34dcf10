-- ===== src/Frame/Json/RoundTrip.antt =====
-- A frame through `to_json` and `from_json` of common/h9_frame.cc.
use h9d.Prelude.{
  ℕ, ◌^◌, ◌≤◌, ◌<◌, ◌≡◌, refl, arith, inl, inr, Bool-cases, true, List, [], ◌∷◌, Option, some, none,
  String, take, length, overwrite, AllBelow, leb, u8, length-take, take_all, zero, suc, ltb, ap,
  ◌∙◌,
}
use h9d.H9def.{H9Def}
use h9d.Frame.{H9Frame, is_unicast, set_data}
use h9d.Frame.Identifier.{HeaderInRange, with_header}
use h9d.Json.{JsonLib, IsJson, find_key}
use h9d.Frame.Json.{set_found, set_if, to_json, from_json}

AllBelow-take : (k n : ℕ) (xs : List ℕ) → AllBelow n xs → AllBelow n (take k xs)
AllBelow-take zero n xs h = record {}
AllBelow-take (suc k) n [] h = record {}
AllBelow-take (suc k) n (x ∷ xs) h = (h.0, AllBelow-take k n xs (h.1))

set_data_taken :
    (k : ℕ) (bs : List ℕ) (g : H9Frame)
    → k ≤ 8
    → length bs ≡ 8
    → set_data (take k bs) g ≡ record g { dlc = k; data_bytes = overwrite (take k bs) g.data_bytes }
unfolding set_data
set_data_taken k bs g short eight =
    let n : length (take k bs) ≡ k = omega (arith, length-take k bs) in
    let small : u8 k ≡ k = omega arith in rw (take_all 8 (take k bs) (omega arith), n, small) refl

module _ {J : Type 0} (lib : JsonLib J) (law : IsJson J lib) where
  put_u8 :
      (k : String) (setter : ℕ → H9Frame → H9Frame) (m : List (String × J)) (n : ℕ) (f : H9Frame)
      → n < 256
      → find_key k m ≡ some (lib.of_number n)
      → set_if lib k lib.get_u8 setter (lib.of_object m) f ≡ some (setter n f)
  unfolding set_if set_found
  put_u8 k setter m n f small found =
      rw (law.member-of_object k m, found, law.get_u8-of_number n small) refl

  put_u16 :
      (k : String) (setter : ℕ → H9Frame → H9Frame) (m : List (String × J)) (n : ℕ) (f : H9Frame)
      → n < 2 ^ 16
      → find_key k m ≡ some (lib.of_number n)
      → set_if lib k lib.get_u16 setter (lib.of_object m) f ≡ some (setter n f)
  unfolding set_if set_found
  put_u16 k setter m n f small found =
      rw (law.member-of_object k m, found, law.get_u16-of_number n small) refl

  put_bytes :
      (k : String) (m : List (String × J)) (bs : List ℕ) (f : H9Frame)
      → AllBelow 256 bs
      → find_key k m ≡ some (lib.of_bytes bs)
      → set_if lib k lib.get_bytes set_data (lib.of_object m) f ≡ some (set_data bs f)
  unfolding set_if set_found
  put_bytes k m bs f small found =
      rw (law.member-of_object k m, found, law.get_bytes-of_bytes bs small) refl

  skip :
      {A : Type 0} (k : String) (get : J → Option A) (setter : A → H9Frame → H9Frame)
      (m : List (String × J)) (f : H9Frame)
      → find_key k m ≡ none
      → set_if lib k get setter (lib.of_object m) f ≡ some f
  unfolding set_if set_found
  skip k get setter m f missing = rw (law.member-of_object k m, missing) refl

  abbrev unicast_fields : H9Frame → List (String × J)
  unicast_fields f =
      ("origin", lib.of_string f.origin)
      ∷ ("type", lib.of_number f.type)
      ∷ ("source_id", lib.of_number f.source_id)
      ∷ ("seqnum", lib.of_number f.seqnum)
      ∷ ("destination_id", lib.of_number f.destination_id)
      ∷ ("flags", lib.of_number f.flags)
      ∷ ("dlc", lib.of_number f.dlc)
      ∷ ("data", lib.of_bytes (take f.dlc f.data_bytes))
      ∷ []

  abbrev broadcast_fields : H9Frame → List (String × J)
  broadcast_fields f =
      ("origin", lib.of_string f.origin)
      ∷ ("type", lib.of_number f.type)
      ∷ ("source_id", lib.of_number f.source_id)
      ∷ ("broadcast_group", lib.of_number f.group)
      ∷ ("dlc", lib.of_number f.dlc)
      ∷ ("data", lib.of_bytes (take f.dlc f.data_bytes))
      ∷ []

  module _ (f g : H9Frame) (r : HeaderInRange f) (short : f.dlc < 256)
      (below : AllBelow 256 (take f.dlc f.data_bytes)) where
    from_unicast :
        from_json lib (lib.of_object (unicast_fields f)) g
        ≡ some (
            set_data (take f.dlc f.data_bytes) (record g {
              type = f.type;
              source_id = f.source_id;
              seqnum = f.seqnum;
              destination_id = f.destination_id;
              flags = f.flags;
              dlc = f.dlc;
            }))
    unfolding from_json
    from_unicast =
        let m = unicast_fields f in
        let g1 = record g { type = f.type } in
        let g2 = record g1 { source_id = f.source_id } in
        let g3 = record g2 { seqnum = f.seqnum } in
        let g4 = record g3 { destination_id = f.destination_id } in
        let g5 = record g4 { flags = f.flags } in
        let g6 = record g5 { dlc = f.dlc } in
        rw
          (
            put_u8 "type" (λ v f. record f { type = v }) m f.type g (omega (arith, r.type_fits))
                refl,
            put_u8 "source_id" (λ v f. record f { source_id = v }) m f.source_id g1 r.source_fits
                refl,
            put_u8 "seqnum" (λ v f. record f { seqnum = v }) m f.seqnum g2
                (omega (arith, r.seqnum_fits)) refl,
            put_u8 "destination_id" (λ v f. record f { destination_id = v }) m f.destination_id g3
                r.destination_fits refl,
            put_u8 "flags" (λ v f. record f { flags = v }) m f.flags g4 (omega (arith, r.flags_fit))
                refl,
            skip "broadcast_group" lib.get_u16 (λ v f. record f { group = v }) m g5 refl,
            put_u8 "dlc" (λ v f. record f { dlc = v }) m f.dlc g5 short refl,
            put_bytes "data" m (take f.dlc f.data_bytes) g6 below refl,
          )
          refl

    from_broadcast :
        from_json lib (lib.of_object (broadcast_fields f)) g
        ≡ some (
            set_data
              (take f.dlc f.data_bytes)
              (record g { type = f.type; source_id = f.source_id; group = f.group; dlc = f.dlc }))
    unfolding from_json
    from_broadcast =
        let m = broadcast_fields f in
        let g1 = record g { type = f.type } in
        let g2 = record g1 { source_id = f.source_id } in
        let g3 = record g2 { group = f.group } in
        let g4 = record g3 { dlc = f.dlc } in
        rw
          (
            put_u8 "type" (λ v f. record f { type = v }) m f.type g (omega (arith, r.type_fits))
                refl,
            put_u8 "source_id" (λ v f. record f { source_id = v }) m f.source_id g1 r.source_fits
                refl,
            skip "seqnum" lib.get_u8 (λ v f. record f { seqnum = v }) m g2 refl,
            skip "destination_id" lib.get_u8 (λ v f. record f { destination_id = v }) m g2 refl,
            skip "flags" lib.get_u8 (λ v f. record f { flags = v }) m g2 refl,
            put_u16 "broadcast_group" (λ v f. record f { group = v }) m f.group g2 r.group_fits
                refl,
            put_u8 "dlc" (λ v f. record f { dlc = v }) m f.dlc g3 short refl,
            put_bytes "data" m (take f.dlc f.data_bytes) g4 below refl,
          )
          refl

  -- What `to_json` makes of a frame in range, `from_json` puts into a frame `g`: the header of its
  -- kind, the length and the bytes of the data; the origin, the fields of the other kind and the rest
  -- of the data stay those of `g`.
  pub from_json-to_json :
      (h : H9Def) (f g : H9Frame)
      → HeaderInRange f
      → f.dlc ≤ 8
      → length f.data_bytes ≡ 8
      → AllBelow 256 f.data_bytes
      → (j : J) × (to_json lib h f ≡ some j)
        × (from_json lib j g
            ≡ some (record (with_header h f g) {
              dlc = f.dlc;
              data_bytes = overwrite (take f.dlc f.data_bytes) g.data_bytes;
            }))
  unfolding to_json is_unicast with_header
  from_json-to_json h f g r short eight below =
      let fits : leb f.dlc (length f.data_bytes) ≡ true = ground arith in
      let bytes = AllBelow-take f.dlc 256 f.data_bytes below in
      elim (Bool-cases (ltb f.type h.discover)) [
        | inl one ↦ (
          lib.of_object (unicast_fields f),
          rw (fits, one) refl,
          rw one (
              from_unicast f g r (omega arith) bytes
              ∙ ap some (
                  set_data_taken f.dlc f.data_bytes
                    (record g {
                      type = f.type;
                      source_id = f.source_id;
                      seqnum = f.seqnum;
                      destination_id = f.destination_id;
                      flags = f.flags;
                      dlc = f.dlc;
                    })
                    short eight)),
        )
        | inr all ↦ (
          lib.of_object (broadcast_fields f),
          rw (fits, all) refl,
          rw all (
              from_broadcast f g r (omega arith) bytes
              ∙ ap some (
                  set_data_taken f.dlc f.data_bytes
                    (record g {
                      type = f.type;
                      source_id = f.source_id;
                      group = f.group;
                      dlc = f.dlc;
                    })
                    short eight)),
        )
      ]
