-- ===== src/Subject/Groups.antt =====
-- Observers of broadcast groups in h9d/framesubject.cc, whose keys `operator<` of
-- h9d/h9framecomparator.cc compares.
use h9d.Prelude.{ℕ, ◌≡◌, refl, arith, true, false, [], ◌∷◌}
use h9d.Frame.{H9Frame}
use h9d.Comparator.{H9FrameComparator, less, matches}
use h9d.Comparator.Order.{some_byte_less_irrefl}
use h9d.Subject.{attach_frame_observer, notify_frame_observer}

less-groups : (c : H9FrameComparator) (g : ℕ) → less c (record c { broadcast_group = g }) ≡ false
unfolding less
less-groups c g = ground (
  arith,
  some_byte_less_irrefl c.dlc_set1 0 c.data_set1,
  some_byte_less_irrefl c.dlc_set2 0 c.data_set2,
)

more-groups : (c : H9FrameComparator) (g : ℕ) → less (record c { broadcast_group = g }) c ≡ false
unfolding less
more-groups c g = ground (
  arith,
  some_byte_less_irrefl c.dlc_set1 0 c.data_set1,
  some_byte_less_irrefl c.dlc_set2 0 c.data_set2,
)

-- An observer that is attached with the comparator of the only key, but for another broadcast group,
-- is called for the frames of the group of the first, whatever its own is: `operator<` leaves the
-- group out.
pub notify-other_group :
    (f : H9Frame) (o p g : ℕ) (c : H9FrameComparator)
    → matches c f ≡ true
    → notify_frame_observer f
        (attach_frame_observer p (record c { broadcast_group = g }) (attach_frame_observer o c []))
      ≡ o ∷ p ∷ []
unfolding attach_frame_observer notify_frame_observer
notify-other_group f o p g c hit = rw (less-groups c g, more-groups c g, hit) refl
