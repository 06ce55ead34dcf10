-- ===== src/Comparator/Order.antt =====
-- `operator<` of h9d/h9framecomparator.cc.
use h9d.Prelude.{ℕ, zero, suc, ◌+◌, ◌<◌, ◌≡◌, refl, true, false, List, arith}
use h9d.Comparator.{H9FrameComparator, less, some_byte_less}

-- `operator<` is not asymmetric: when the fields to compare order two comparators one way and the
-- sources the other way, each is less than the other.
less_both_ways :
    (a b : H9FrameComparator)
    → a.fields_to_compare < b.fields_to_compare
    → b.source_id < a.source_id
    → (less a b ≡ true) × (less b a ≡ true)
unfolding less
less_both_ways a b p q = ground arith

pub some_byte_less_irrefl : (n i : ℕ) (a : List ℕ) → some_byte_less n i a a ≡ false
unfolding some_byte_less
some_byte_less_irrefl zero i a = refl
some_byte_less_irrefl (suc n) i a = ground (arith, some_byte_less_irrefl n (i + 1) a)

-- No comparator is less than itself, so equal comparators are one key of an ordered map.
less_irrefl : (a : H9FrameComparator) → less a a ≡ false
unfolding less
less_irrefl a = ground (
  arith,
  some_byte_less_irrefl a.dlc_set1 0 a.data_set1,
  some_byte_less_irrefl a.dlc_set2 0 a.data_set2,
)
