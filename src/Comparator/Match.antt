-- ===== src/Comparator/Match.antt =====
-- What the comparator of h9d/h9framecomparator.cc selects.
use h9d.Prelude.{ℕ, ◌≡◌, refl, bit_and, bit_and-bit_or_other, true, false, arith}
use h9d.H9def.{H9Def}
use h9d.Frame.{H9Frame}
use h9d.Comparator.{
  H9FrameComparator, default_comparator, compares, eq, eq_alternate_set, matches, set_seqnum,
  seqnum_flag,
}

-- A comparator that was given no field selects every frame.
pub matches-default_comparator :
    (h : H9Def) (garbage : ℕ) (f : H9Frame) → matches (default_comparator h garbage) f ≡ true
unfolding matches default_comparator compares eq
matches-default_comparator h garbage f = refl

compares-set_seqnum_other :
    (s : ℕ) (c : H9FrameComparator) (flag : ℕ)
    → bit_and seqnum_flag flag ≡ 0
    → compares (set_seqnum s c) flag ≡ compares c flag
unfolding compares set_seqnum
compares-set_seqnum_other s c flag e =
    rw (bit_and-bit_or_other c.fields_to_compare seqnum_flag flag e)

eq-narrows :
    (s : ℕ) (c : H9FrameComparator) (f : H9Frame)
    → compares c seqnum_flag ≡ false
    → eq (set_seqnum s c) f ≡ true
    → eq c f ≡ true
unfolding eq set_seqnum
eq-narrows s c f free m = ground (
  arith,
  compares-set_seqnum_other s c 2 refl,
  compares-set_seqnum_other s c 8 refl,
  compares-set_seqnum_other s c 16 refl,
  compares-set_seqnum_other s c 32 refl,
  compares-set_seqnum_other s c 64 refl,
)

eq_alternate_set-narrows :
    (s : ℕ) (c : H9FrameComparator) (f : H9Frame)
    → compares c seqnum_flag ≡ false
    → eq_alternate_set (set_seqnum s c) f ≡ true
    → eq_alternate_set c f ≡ true
unfolding eq_alternate_set set_seqnum
eq_alternate_set-narrows s c f free m = ground (
  arith,
  compares-set_seqnum_other s c 128 refl,
  compares-set_seqnum_other s c 256 refl,
  compares-set_seqnum_other s c 512 refl,
  compares-set_seqnum_other s c 1024 refl,
  compares-set_seqnum_other s c 2048 refl,
  compares-set_seqnum_other s c 1920 refl,
)

-- Adding the sequence number to a comparator that had none only narrows it: what matches
-- afterwards matched before.
pub matches-set_seqnum :
    (s : ℕ) (c : H9FrameComparator) (f : H9Frame)
    → compares c seqnum_flag ≡ false
    → matches (set_seqnum s c) f ≡ true
    → matches c f ≡ true
unfolding matches set_seqnum
matches-set_seqnum s c f free m =
    ground (
      arith,
      compares-set_seqnum_other s c 1 refl,
      eq-narrows s c f,
      eq_alternate_set-narrows s c f,
    )
