-- ===== src/Subject.antt =====
-- h9d/framesubject.cc and frameobserver.cc: the observers of the frames on the bus. Observers are
-- named by numbers. The map of the observers is the list of its entries in their order, which is
-- searched from the front: where `operator<` is no order of its keys, C++ promises nothing.
pub mod Notified
pub mod Groups
use h9d.Prelude.{ℕ, List, [], ◌∷◌, ◌++◌, ◌==◌, if◌then◌else◌}
use h9d.Frame.{H9Frame}
use h9d.Comparator.{H9FrameComparator, matches, less}

abbrev pub FrameSubject : Type 0
FrameSubject = List (H9FrameComparator × List ℕ)

unfoldable pub attach_frame_observer : ℕ → H9FrameComparator → FrameSubject → FrameSubject
attach_frame_observer o c [] = (c, o ∷ []) ∷ []
attach_frame_observer o c ((k, os) ∷ rest) =
    let later = attach_frame_observer o c rest in
    if less k c
    then (k, os) ∷ later
    else if less c k
    then (c, o ∷ []) ∷ (k, os) ∷ rest
    else (k, os ++ o ∷ []) ∷ rest

-- `std::list::remove`.
unfoldable pub remove_observer : ℕ → List ℕ → List ℕ
remove_observer o [] = []
remove_observer o (p ∷ ps) = let later = remove_observer o ps in if p == o then later else p ∷ later

-- An entry without observers is erased.
unfoldable pub unless_empty : H9FrameComparator → List ℕ → FrameSubject → FrameSubject
unless_empty k [] rest = rest
unless_empty k (o ∷ os) rest = (k, o ∷ os) ∷ rest

unfoldable pub detach_frame_observer : ℕ → FrameSubject → FrameSubject
detach_frame_observer o [] = []
detach_frame_observer o ((k, os) ∷ rest) =
    unless_empty k (remove_observer o os) (detach_frame_observer o rest)

-- The observers that `notify_frame_recv_observer` and `notify_frame_send_observer` call, in order.
unfoldable pub notify_frame_observer : H9Frame → FrameSubject → List ℕ
notify_frame_observer f [] = []
notify_frame_observer f ((k, os) ∷ rest) =
    let later = notify_frame_observer f rest in if matches k f then os ++ later else later
