-- ===== src/Comparator.antt =====
-- h9d/h9framecomparator.h and .cc: the pattern that selects frames for an observer or a request.
-- `fields_to_compare` is the word of flags that says which fields count. A read outside one of the
-- eight-byte arrays, which C++ leaves undefined, gives 0 here.
pub mod Match
pub mod Order
use h9d.Prelude.{
  ℕ, zero, suc, ◌+◌, bit_and, bit_or, Bool, true, false, not, ◌&&◌, ◌||◌, List, [], ◌∷◌, get_or,
  take, overwrite, u8, ltb, ◌==◌, ◌!=◌, if◌then◌else◌,
}
use h9d.H9def.{H9Def}
use h9d.Frame.{H9Frame}

abbrev pub source_id_flag : ℕ
source_id_flag = 1

abbrev pub broadcast_group_flag : ℕ
broadcast_group_flag = 2

abbrev pub seqnum_flag : ℕ
seqnum_flag = 4

abbrev pub type_set1_flag : ℕ
type_set1_flag = 8

abbrev pub destination_id_set1_flag : ℕ
destination_id_set1_flag = 16

abbrev pub data_set1_flag : ℕ
data_set1_flag = 32

abbrev pub first_data_byte_set1_flag : ℕ
first_data_byte_set1_flag = 64

abbrev pub type_set2_flag : ℕ
type_set2_flag = 128

abbrev pub destination_id_set2_flag : ℕ
destination_id_set2_flag = 256

abbrev pub data_set2_flag : ℕ
data_set2_flag = 512

abbrev pub first_data_byte_set2_flag : ℕ
first_data_byte_set2_flag = 1024

abbrev pub seqnum_override_flag : ℕ
seqnum_override_flag = 2048

pub record H9FrameComparator : Type 0 where
  pub fields_to_compare : ℕ
  pub source_id : ℕ
  pub broadcast_group : ℕ
  pub seqnum : ℕ
  pub seqnum_override : ℕ
  pub type_set1 : ℕ
  pub destination_id_set1 : ℕ
  pub dlc_set1 : ℕ
  pub data_set1 : List ℕ
  pub first_data_byte_set1 : ℕ
  pub type_set2 : ℕ
  pub destination_id_set2 : ℕ
  pub dlc_set2 : ℕ
  pub data_set2 : List ℕ
  pub first_data_byte_set2 : ℕ

abbrev zeros : List ℕ
zeros = 0 ∷ 0 ∷ 0 ∷ 0 ∷ 0 ∷ 0 ∷ 0 ∷ 0 ∷ []

-- The default constructor. It does not set `broadcast_group`, whose value is what the memory held.
unfoldable pub default_comparator : H9Def → ℕ → H9FrameComparator
default_comparator h garbage = record {
  fields_to_compare = 0;
  source_id = 0;
  broadcast_group = garbage;
  seqnum = 0;
  seqnum_override = 0;
  type_set1 = h.res1;
  destination_id_set1 = 0;
  dlc_set1 = 0;
  data_set1 = zeros;
  first_data_byte_set1 = 0;
  type_set2 = h.res1;
  destination_id_set2 = 0;
  dlc_set2 = 0;
  data_set2 = zeros;
  first_data_byte_set2 = 0;
}

-- `fields_to_compare & flag` as a condition.
unfoldable pub compares : H9FrameComparator → ℕ → Bool
compares c flag = bit_and c.fields_to_compare flag != 0

-- `for (i = 0; i < n; ++i) if (a[i] != b[i]) return false;` from index `i`, with `n` rounds left.
unfoldable pub same_bytes : ℕ → ℕ → List ℕ → List ℕ → Bool
same_bytes zero i a b = true
same_bytes (suc n) i a b = get_or a i 0 == get_or b i 0 && same_bytes n (i + 1) a b

unfoldable pub eq : H9FrameComparator → H9Frame → Bool
eq c b =
    if compares c broadcast_group_flag && c.broadcast_group != b.group
    then false
    else if compares c seqnum_flag && c.seqnum != b.seqnum
    then false
    else if compares c type_set1_flag && c.type_set1 != b.type
    then false
    else if compares c destination_id_set1_flag && c.destination_id_set1 != b.destination_id
    then false
    else if compares c data_set1_flag
        && (c.dlc_set1 != b.dlc || not (same_bytes c.dlc_set1 0 c.data_set1 b.data_bytes))
    then false
    else if compares c first_data_byte_set1_flag
        && (ltb b.dlc 1 || c.first_data_byte_set1 != get_or b.data_bytes 0 0)
    then false
    else true

unfoldable pub wrong_seqnum : H9FrameComparator → H9Frame → Bool
wrong_seqnum c b =
    if compares c seqnum_override_flag
    then c.seqnum_override != b.seqnum
    else compares c seqnum_flag && c.seqnum != b.seqnum

unfoldable pub eq_alternate_set : H9FrameComparator → H9Frame → Bool
unfolding wrong_seqnum
eq_alternate_set c b =
    if wrong_seqnum c b
    then false
    else if compares c type_set2_flag && c.type_set2 != b.type
    then false
    else if compares c destination_id_set2_flag && c.destination_id_set2 != b.destination_id
    then false
    else if compares c data_set2_flag
        && (c.dlc_set2 != b.dlc || not (same_bytes c.dlc_set2 0 c.data_set2 b.data_bytes))
    then false
    else if compares c first_data_byte_set2_flag
        && (ltb b.dlc 1 || c.first_data_byte_set2 != get_or b.data_bytes 0 0)
    then false
    else compares c (
        bit_or type_set2_flag
          (bit_or destination_id_set2_flag (bit_or data_set2_flag first_data_byte_set2_flag)))

-- `operator==`.
unfoldable pub matches : H9FrameComparator → H9Frame → Bool
matches c b =
    if compares c source_id_flag && c.source_id != b.source_id
    then false
    else eq c b || eq_alternate_set c b

-- `for (i = 0; i < n; ++i) if (a[i] < b[i]) return true;`
unfoldable pub some_byte_less : ℕ → ℕ → List ℕ → List ℕ → Bool
some_byte_less zero i a b = false
some_byte_less (suc n) i a b = ltb (get_or a i 0) (get_or b i 0) || some_byte_less n (i + 1) a b

-- `operator<`.
unfoldable pub less : H9FrameComparator → H9FrameComparator → Bool
less a b =
    if ltb a.fields_to_compare b.fields_to_compare
    then true
    else if ltb a.source_id b.source_id
    then true
    else if ltb a.seqnum b.seqnum
    then true
    else if ltb a.type_set1 b.type_set1
    then true
    else if ltb a.destination_id_set1 b.destination_id_set1
    then true
    else if ltb a.dlc_set1 b.dlc_set1
    then true
    else if a.dlc_set1 == b.dlc_set1 && some_byte_less a.dlc_set1 0 a.data_set1 b.data_set1
    then true
    else if ltb a.first_data_byte_set1 b.first_data_byte_set1
    then true
    else if ltb a.seqnum_override b.seqnum_override
    then true
    else if ltb a.type_set2 b.type_set2
    then true
    else if ltb a.destination_id_set2 b.destination_id_set2
    then true
    else if ltb a.dlc_set2 b.dlc_set2
    then true
    else if a.dlc_set2 == b.dlc_set2 && some_byte_less a.dlc_set2 0 a.data_set2 b.data_set2
    then true
    else if ltb a.first_data_byte_set2 b.first_data_byte_set2
    then true
    else false

abbrev select : ℕ → H9FrameComparator → H9FrameComparator
select flag c = record c { fields_to_compare = bit_or c.fields_to_compare flag }

unfoldable pub set_seqnum : ℕ → H9FrameComparator → H9FrameComparator
set_seqnum v c = select seqnum_flag (record c { seqnum = v })

unfoldable pub seqnum_override_for_alternate_set : ℕ → H9FrameComparator → H9FrameComparator
seqnum_override_for_alternate_set v c =
    select seqnum_override_flag (record c { seqnum_override = v })

unfoldable pub set_source_id : ℕ → H9FrameComparator → H9FrameComparator
set_source_id v c = select source_id_flag (record c { source_id = v })

unfoldable pub set_broadcast_group : ℕ → H9FrameComparator → H9FrameComparator
set_broadcast_group v c = select broadcast_group_flag (record c { broadcast_group = v })

unfoldable pub set_type : ℕ → H9FrameComparator → H9FrameComparator
set_type v c = select type_set1_flag (record c { type_set1 = v })

unfoldable pub set_type_in_alternate_set : ℕ → H9FrameComparator → H9FrameComparator
set_type_in_alternate_set v c = select type_set2_flag (record c { type_set2 = v })

unfoldable pub set_destination_id : ℕ → H9FrameComparator → H9FrameComparator
set_destination_id v c = select destination_id_set1_flag (record c { destination_id_set1 = v })

unfoldable pub set_destination_id_in_alternate_set : ℕ → H9FrameComparator → H9FrameComparator
set_destination_id_in_alternate_set v c =
    select destination_id_set2_flag (record c { destination_id_set2 = v })

unfoldable pub set_data : List ℕ → ℕ → H9FrameComparator → H9FrameComparator
set_data v nbyte c =
    select data_set1_flag
      (record c { data_set1 = overwrite (take nbyte v) c.data_set1; dlc_set1 = u8 nbyte })

unfoldable pub set_data_in_alternate_set : List ℕ → ℕ → H9FrameComparator → H9FrameComparator
set_data_in_alternate_set v nbyte c =
    select data_set2_flag
      (record c { data_set2 = overwrite (take nbyte v) c.data_set2; dlc_set2 = u8 nbyte })

unfoldable pub set_first_data_byte : ℕ → H9FrameComparator → H9FrameComparator
set_first_data_byte v c = select first_data_byte_set1_flag (record c { first_data_byte_set1 = v })

unfoldable pub set_first_data_byte_in_alternate_set : ℕ → H9FrameComparator → H9FrameComparator
set_first_data_byte_in_alternate_set v c =
    select first_data_byte_set2_flag (record c { first_data_byte_set2 = v })

-- The constructor from a source; its 16-bit argument is cut to the setter's 8 bits.
unfoldable pub source_comparator : H9Def → ℕ → ℕ → H9FrameComparator
unfolding set_source_id default_comparator
source_comparator h garbage v = set_source_id (u8 v) (default_comparator h garbage)
