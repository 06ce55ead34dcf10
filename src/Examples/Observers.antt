-- ===== src/Examples/Observers.antt =====
-- h9d/framesubject.cc with two observers of the node 3.
use h9d.Prelude.{ℕ, ◌≡◌, refl, arith, List, [], ◌∷◌, ◌++◌, if◌then◌else◌}
use h9d.H9def.{frame_md}
use h9d.Comparator.{
  H9FrameComparator, source_comparator, set_source_id, default_comparator, matches, eq, compares,
  less,
}
use h9d.Subject.{
  FrameSubject, attach_frame_observer, remove_observer, detach_frame_observer,
  notify_frame_observer,
}
use h9d.Subject.Notified.{notify-detach, notify-attach}
use h9d.Subject.Groups.{notify-other_group}
use h9d.Examples.{reply}

abbrev of_node : ℕ → H9FrameComparator
unfolding source_comparator
of_node id = source_comparator frame_md 0 id

abbrev subject : FrameSubject
subject = (of_node 3, 1 ∷ 2 ∷ []) ∷ (of_node 4, 1 ∷ []) ∷ []

notify-detach_example :
    notify_frame_observer reply (detach_frame_observer 1 subject)
    ≡ remove_observer 1 (notify_frame_observer reply subject)
notify-detach_example = notify-detach reply 1 subject

notify-attach_example :
    (ps qs : List ℕ) × (notify_frame_observer reply subject ≡ ps ++ qs)
    × (notify_frame_observer reply (attach_frame_observer 5 (of_node 3) subject)
        ≡ ps ++ ((if matches (of_node 3) reply then 5 ∷ [] else []) ++ qs))
unfolding source_comparator default_comparator set_source_id less
notify-attach_example =
    notify-attach reply 5 (of_node 3) subject
      ((λ a b f. refl), ((λ a b f. ground (arith, a, b)), tt))

notify-other_group_example :
    notify_frame_observer reply (
      attach_frame_observer 2
        (record (of_node 3) { broadcast_group = 7 })
        (attach_frame_observer 1 (of_node 3) []))
    ≡ 1 ∷ 2 ∷ []
unfolding source_comparator default_comparator set_source_id matches eq compares
notify-other_group_example = notify-other_group reply 1 2 7 (of_node 3) refl
