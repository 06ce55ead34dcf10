-- ===== src/Subject/Notified.antt =====
-- Who is called for a frame after `attach_frame_observer` and `detach_frame_observer` of
-- h9d/framesubject.cc.
use h9d.Prelude.{
  ℕ, ◌≡◌, refl, ap, sym, ◌∙◌, inl, inr, Bool, true, false, Bool-cases, List, [], ◌∷◌, ◌++◌, ◌==◌,
  if◌then◌else◌, append_assoc,
}
use h9d.Frame.{H9Frame}
use h9d.Comparator.{H9FrameComparator, matches, less}
use h9d.Subject.{
  FrameSubject, attach_frame_observer, remove_observer, unless_empty, detach_frame_observer,
  notify_frame_observer,
}

remove_observer-append :
    (o : ℕ) (ps qs : List ℕ)
    → remove_observer o (ps ++ qs) ≡ remove_observer o ps ++ remove_observer o qs
unfolding remove_observer
remove_observer-append o [] qs = refl
remove_observer-append o (p ∷ ps) qs = elim (Bool-cases (p == o)) [
  | inl same ↦ rw same (remove_observer-append o ps qs)
  | inr other ↦ rw other (ap (◌∷◌ p) (remove_observer-append o ps qs))
]

notify-unless_empty :
    (f : H9Frame) (k : H9FrameComparator) (os : List ℕ) (rest : FrameSubject)
    → notify_frame_observer f (unless_empty k os rest) ≡ notify_frame_observer f ((k, os) ∷ rest)
unfolding unless_empty notify_frame_observer
notify-unless_empty f k [] rest = elim (Bool-cases (matches k f)) [
  | inl hit ↦ rw hit refl
  | inr miss ↦ rw miss refl
]
notify-unless_empty f k (o ∷ os) rest = refl

-- After an observer is detached, a frame is told to those to whom it was told before, in the same
-- order, less that observer, whatever frame it is and whoever is attached.
pub notify-detach :
    (f : H9Frame) (o : ℕ) (s : FrameSubject)
    → notify_frame_observer f (detach_frame_observer o s)
      ≡ remove_observer o (notify_frame_observer f s)
unfolding detach_frame_observer notify_frame_observer remove_observer
notify-detach f o [] = refl
notify-detach f o ((k, os) ∷ rest) =
    notify-unless_empty f k (remove_observer o os) (detach_frame_observer o rest)
    ∙ elim (Bool-cases (matches k f)) [
      | inl hit ↦
          rw (hit, notify-detach f o rest)
            (sym (remove_observer-append o os (notify_frame_observer f rest)))
      | inr miss ↦ rw miss (notify-detach f o rest)
    ]

-- A key that `operator<` does not tell from the comparator selects the same frames.
abbrev pub IsTold : H9FrameComparator → FrameSubject → Type 0
IsTold c [] = Unit {0}
IsTold c ((k, os) ∷ rest) =
    (less k c ≡ false → less c k ≡ false → (f : H9Frame) → matches k f ≡ matches c f)
    × IsTold c rest

if-cons :
    (o : ℕ) (ps : List ℕ) (b : Bool) → (if b then o ∷ ps else ps) ≡ (if b then o ∷ [] else []) ++ ps
if-cons o ps true = refl
if-cons o ps false = refl

-- If each key that `operator<` does not tell from the comparator selects the same frames as it does,
-- then once an observer is attached with it, a frame is told to the same observers as before, in the
-- same order, and to the new one once, at some place among them, if the comparator selects the frame.
pub notify-attach :
    (f : H9Frame) (o : ℕ) (c : H9FrameComparator) (s : FrameSubject)
    → IsTold c s
    → (ps qs : List ℕ) × (notify_frame_observer f s ≡ ps ++ qs)
      × (notify_frame_observer f (attach_frame_observer o c s)
          ≡ ps ++ ((if matches c f then o ∷ [] else []) ++ qs))
unfolding attach_frame_observer notify_frame_observer
notify-attach f o c [] told = elim (Bool-cases (matches c f)) [
  | inl hit ↦ ([], [], refl, rw hit refl)
  | inr miss ↦ ([], [], refl, rw miss refl)
]
notify-attach f o c ((k, os) ∷ rest) (same, told) = elim (Bool-cases (less k c)) [
  | inl before ↦
      let (ps, qs, was, now) = notify-attach f o c rest told in
      elim (Bool-cases (matches k f)) [
        | inl hit ↦ (
          os ++ ps,
          qs,
          rw (hit, was, append_assoc os ps qs) refl,
          rw (before, hit, now, append_assoc os ps _) refl,
        )
        | inr miss ↦ (ps, qs, rw (miss, was) refl, rw (before, miss, now) refl)
      ]
  | inr not_before ↦ elim (Bool-cases (less c k)) [
    | inl after ↦ (
      [],
      notify_frame_observer f ((k, os) ∷ rest),
      refl,
      rw (not_before, after) (if-cons o _ (matches c f)),
    )
    | inr here ↦ elim (Bool-cases (matches k f)) [
      | inl hit ↦ (
        os,
        notify_frame_observer f rest,
        rw hit refl,
        rw (not_before, here, hit, ← same not_before here f, hit) (append_assoc os (o ∷ []) _),
      )
      | inr miss ↦ (
        [],
        notify_frame_observer f rest,
        rw miss refl,
        rw (not_before, here, miss, ← same not_before here f, miss) refl,
      )
    ]
  ]
]
