-- ===== src/RawNode/Delivery.antt =====
-- What a promise of h9d/raw_node.h receives when frames come before and after its sequence number.
use h9d.Prelude.{
  ℕ, Bool, true, false, List, [], ◌∷◌, ◌++◌, ◌&&◌, Option, none, some, ◌>>=◌, ◌≡◌, refl, ◌∙◌, arith,
  find?, keep, or_else, find?-append, find?-keep, Bool-cases, inl, inr, if◌then◌else◌,
}
use mathlib.Core.List.{append-nil, append_assoc}
use h9d.Frame.{H9Frame}
use h9d.Comparator.{H9FrameComparator, matches, set_seqnum, compares, seqnum_flag}
use h9d.Comparator.Match.{matches-set_seqnum}
use h9d.RawNode.Promise.{
  FramePromise, create_frame_promise, set_value, on_frame, visit, on_frame_recv, drain,
  set_comparator_seqnum,
}

abbrev pub is_none {ℓ} : {A : Type ℓ} → Option A → Bool
is_none none = true
is_none (some a) = false

-- A promise that is in the set has no value yet.
abbrev pub IsOpen : FramePromise → Type 0
IsOpen p = p.registered ≡ true → p.promise ≡ none

abbrev pub AllOpen : List FramePromise → Type 0
AllOpen [] = Unit {0}
AllOpen (p ∷ ps) = IsOpen p × AllOpen ps

-- What a visit of an open promise does.
visited : H9Frame → FramePromise → FramePromise
visited f p =
    if p.registered && matches p.comparator f
    then if p.comparator_has_seqnum
      then record p { promise = some f; registered = false }
      else record p { frame_storage = p.frame_storage ++ f ∷ [] }
    else p

visit-visited : (f : H9Frame) (p : FramePromise) → IsOpen p → visit f p ≡ some (visited f p)
unfolding visit on_frame set_value visited
visit-visited f p o = ground arith

visited-IsOpen : (f : H9Frame) (p : FramePromise) → IsOpen p → IsOpen (visited f p)
unfolding visited
visited-IsOpen f p o = ground arith

-- A received frame is handed to every promise of the set without an exception, if the promises in
-- the set have no value yet; and then those still in the set have none.
pub on_frame_recv-AllOpen :
    (f : H9Frame) (ps : List FramePromise)
    → AllOpen ps
    → (qs : List FramePromise) × (on_frame_recv f ps ≡ some qs) × AllOpen qs
unfolding on_frame_recv
on_frame_recv-AllOpen f [] o = ([], refl, tt)
on_frame_recv-AllOpen f (p ∷ ps) o =
    let (qs, done, still) = on_frame_recv-AllOpen f ps (o.1) in
    (visited f p ∷ qs, rw (visit-visited f p (o.0), done), (visited-IsOpen f p (o.0), still))

-- Frames in order, for one promise.
pub deliver : List H9Frame → FramePromise → Option FramePromise
deliver [] p = some p
deliver (f ∷ fs) p = visit f p >>= deliver fs

-- A promise that waits for its sequence number, with what it stored.
abbrev waiting : ℕ → H9FrameComparator → List H9Frame → FramePromise
waiting pointer c stored = record {
  pointer = pointer;
  comparator = c;
  comparator_has_seqnum = false;
  frame_storage = stored;
  promise = none;
  registered = true;
}

-- With no sequence number yet, the frames that match are stored in order.
deliver-waiting :
    (pointer : ℕ) (c : H9FrameComparator) (fs stored : List H9Frame)
    → deliver fs (waiting pointer c stored)
      ≡ some (waiting pointer c (stored ++ keep (matches c) fs))
unfolding deliver visited
deliver-waiting pointer c [] stored = rw (append-nil stored)
deliver-waiting pointer c (f ∷ fs) stored =
    rw (visit-visited f (waiting pointer c stored) (λ _. refl)) (elim (Bool-cases (matches c f)) [
      | inl hit ↦ rw hit (
          deliver-waiting pointer c fs (stored ++ f ∷ [])
          ∙ rw (append_assoc stored (f ∷ []) (keep (matches c) fs)))
      | inr miss ↦ rw miss (deliver-waiting pointer c fs stored)
    ])

-- A promise with its sequence number: it is in the set as long as it has no value.
abbrev armed : ℕ → H9FrameComparator → List H9Frame → Option H9Frame → FramePromise
armed pointer c stored v = record {
  pointer = pointer;
  comparator = c;
  comparator_has_seqnum = true;
  frame_storage = stored;
  promise = v;
  registered = is_none v;
}

-- What is left of the storage once a frame matches: that frame and those behind it.
remaining : (H9Frame → Bool) → List H9Frame → List H9Frame
remaining p [] = []
remaining p (f ∷ fs) = if p f then f ∷ fs else remaining p fs

drain-armed :
    (pointer : ℕ) (c : H9FrameComparator) (fs : List H9Frame)
    → drain fs (armed pointer c fs none)
      ≡ some (armed pointer c (remaining (matches c) fs) (find? (matches c) fs))
unfolding drain on_frame set_value remaining
drain-armed pointer c [] = refl
drain-armed pointer c (f ∷ fs) = elim (Bool-cases (matches c f)) [
  | inl hit ↦ rw hit
  | inr miss ↦ rw miss (drain-armed pointer c fs)
]

-- Once it has its sequence number, a promise takes the first frame that matches.
deliver-armed :
    (pointer : ℕ) (c : H9FrameComparator) (fs stored : List H9Frame) (v : Option H9Frame)
    → deliver fs (armed pointer c stored v)
      ≡ some (armed pointer c stored (or_else v (find? (matches c) fs)))
unfolding deliver visited
deliver-armed pointer c [] stored none = refl
deliver-armed pointer c [] stored (some a) = refl
deliver-armed pointer c (f ∷ fs) stored (some a) =
    rw (visit-visited f (armed pointer c stored (some a)) (λ e. cc))
      (deliver-armed pointer c fs stored (some a))
deliver-armed pointer c (f ∷ fs) stored none =
    rw (visit-visited f (armed pointer c stored none) (λ _. refl))
      (elim (Bool-cases (matches c f)) [
        | inl hit ↦ rw hit (deliver-armed pointer c fs stored (some f))
        | inr miss ↦ rw miss (deliver-armed pointer c fs stored none)
      ])

-- A whole request: the frames that come while it is sent, its sequence number, the later frames.
pub exchange : ℕ → H9FrameComparator → List H9Frame → ℕ → List H9Frame → Option FramePromise
exchange pointer c early seqnum late = do
  p ← deliver early (create_frame_promise pointer c)
  q ← set_comparator_seqnum seqnum p
  deliver late q

-- The promise of a comparator that did not select a sequence number ends without an exception,
-- and its value is the first frame, among those before and after the number was set, that the
-- comparator with the number matches; it has left the set exactly if there is such a frame.
pub exchange_lem :
    (pointer : ℕ) (c : H9FrameComparator) (early late : List H9Frame) (seqnum : ℕ)
    → compares c seqnum_flag ≡ false
    → (p : FramePromise) × (exchange pointer c early seqnum late ≡ some p)
      × (p.promise ≡ find? (matches (set_seqnum seqnum c)) (early ++ late))
      × (p.registered ≡ is_none p.promise)
unfolding exchange create_frame_promise set_comparator_seqnum
exchange_lem pointer c early late seqnum free =
    let full = set_seqnum seqnum c in
    let stored = keep (matches c) early in
    let first = find? (matches full) stored in
    (
      armed pointer full (remaining (matches full) stored)
          (or_else first (find? (matches full) late)),
      rw (deliver-waiting pointer c early [], drain-armed pointer full stored)
          (deliver-armed pointer full late (remaining (matches full) stored) first),
      rw (
        find?-keep (matches full) (matches c) early (λ f. matches-set_seqnum seqnum c f free),
        find?-append (matches full) early late,
      ),
      refl,
    )
