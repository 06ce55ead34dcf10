-- ===== src/RawNode/Promise.antt =====
-- `RawNode::FramePromise` and the set of promises of a node (h9d/raw_node.h, raw_node.cc). The lock
-- `frame_promise_set_mtx` makes each operation below one step.
use h9d.Prelude.{
  ℕ, Bool, true, false, List, [], ◌∷◌, ◌++◌, Option, none, some, ◌>>=◌, ◌==◌, if◌then◌else◌,
}
use h9d.Frame.{H9Frame}
use h9d.Comparator.{H9FrameComparator, matches, set_seqnum}

-- `pointer` is the object's address; `registered` says that `frame_promise_set` has it; `promise`
-- is the value of the `std::promise`, once it is set. The front of `frame_storage` is its head.
pub record FramePromise : Type 0 where
  pub pointer : ℕ
  pub comparator : H9FrameComparator
  pub comparator_has_seqnum : Bool
  pub frame_storage : List H9Frame
  pub promise : Option H9Frame
  pub registered : Bool

-- `create_frame_promise`: a new object, in the set.
unfoldable pub create_frame_promise : ℕ → H9FrameComparator → FramePromise
create_frame_promise pointer c = record {
  pointer = pointer;
  comparator = c;
  comparator_has_seqnum = false;
  frame_storage = [];
  promise = none;
  registered = true;
}

-- `promise.set_value`; `none` is the `std::future_error` of a promise that has its value.
unfoldable pub set_value : FramePromise → H9Frame → Option FramePromise
set_value p f = elim p.promise [ none ↦ some (record p { promise = some f }) | some _ ↦ none ]

-- `FramePromise::on_frame`. The flag says that the promise may leave the set.
unfoldable pub on_frame : FramePromise → H9Frame → Option (FramePromise × Bool)
on_frame p f =
    let fulfilled = do q ← set_value p f; some (q, true)
    in if matches p.comparator f
      then if p.comparator_has_seqnum
        then fulfilled
        else some (record p { frame_storage = p.frame_storage ++ f ∷ [] }, false)
      else some (p, false)

abbrev pub unregister_if : FramePromise × Bool → FramePromise
unregister_if (p, true) = record p { registered = false }
unregister_if (p, false) = p

-- One turn of the loop of `on_frame_recv`.
unfoldable pub visit : H9Frame → FramePromise → Option FramePromise
visit f p =
    let visited = do r ← on_frame p f; some (unregister_if r)
    in if p.registered then visited else some p

-- `RawNode::on_frame_recv`, over the promises that are alive.
unfoldable pub on_frame_recv : H9Frame → List FramePromise → Option (List FramePromise)
on_frame_recv f [] = some []
on_frame_recv f (p ∷ ps) = do q ← visit f p; qs ← on_frame_recv f ps; some (q ∷ qs)

-- The loop of `set_comparator_seqnum`, over the frames in the storage: the front is tried, and
-- popped if it does not fulfil the promise.
unfoldable pub drain : List H9Frame → FramePromise → Option FramePromise
drain [] p = some p
drain (f ∷ fs) p =
    let rest = λ (q : FramePromise). drain fs (record q { frame_storage = fs }) in
    on_frame p f >>= λ r. if r.1 then some (record (r.0) { registered = false }) else rest (r.0)

unfoldable pub set_comparator_seqnum : ℕ → FramePromise → Option FramePromise
set_comparator_seqnum seqnum p =
    drain p.frame_storage
      (record p { comparator = set_seqnum seqnum p.comparator; comparator_has_seqnum = true })

-- `destroy_frame_promise`: the object is gone, from the set too.
unfoldable pub destroy_frame_promise : ℕ → List FramePromise → List FramePromise
destroy_frame_promise pointer [] = []
destroy_frame_promise pointer (p ∷ ps) =
    let rest = destroy_frame_promise pointer ps in if p.pointer == pointer then rest else p ∷ rest
