-- ===== src/Bus/Queues.antt =====
-- The queues of h9d/bus.cc, against what lasts of the frames of the heap.
use h9d.Prelude.{
  ℕ, zero, suc, ◌+◌, ◌<◌, ◌≡◌, refl, arith, Bool, true, false, List, [], ◌∷◌, ◌++◌, some, get_elem?,
  get_elem?-set, get_elem?-append, set, length, map, ap, set?_in_bounds, length-set, get_elem?-some,
}
use h9d.Frame.{H9Frame}
use h9d.BusFrame.{BusFrame}
use h9d.Bus.{count_type}
use h9d.Bus.Pending.{occurrences, lasting}
use h9d.Bus.Forward.{IsForeign}

abbrev pub Lasting : Type 0
Lasting = Bool × Bool × ℕ × H9Frame

-- A frame of this process that is not sent yet, of a type of five bits.
abbrev pub IsWaiting : Lasting → Type 0
IsWaiting l = (l.0 ≡ false) × (l.1 ≡ true) × (l.3.type < 32)

abbrev pub Holds : (Lasting → Type 0) → List Lasting → ℕ → Type 0
Holds P fs p = (l : Lasting) × (get_elem? fs p ≡ some l) × P l

-- The queue of the frames to forward.
abbrev pub AllForeign : List Lasting → List ℕ → Type 0
AllForeign fs [] = Unit {0}
AllForeign fs (p ∷ ps) = Holds IsForeign fs p × AllForeign fs ps

-- The queue of the frames to send, each of them there once.
abbrev pub AllWaiting : List Lasting → List ℕ → Type 0
AllWaiting fs [] = Unit {0}
AllWaiting fs (p ∷ ps) = Holds IsWaiting fs p × (occurrences p ps ≡ 0) × AllWaiting fs ps

pub get_elem?-lt :
    (fs : List Lasting) (p : ℕ) (l : Lasting) → get_elem? fs p ≡ some l → p < length fs
get_elem?-lt [] p l e = cc
get_elem?-lt (f ∷ fs) zero l e = omega arith
get_elem?-lt (f ∷ fs) (suc p) l e = omega (arith, get_elem?-lt fs p l e)

pub map-set_any :
    (heap : List BusFrame) (p : ℕ) (v : BusFrame)
    → map lasting (set heap p v) ≡ set (map lasting heap) p (lasting v)
map-set_any [] p v = refl
map-set_any (b ∷ heap) zero v = refl
map-set_any (b ∷ heap) (suc p) v = ap (◌∷◌ (lasting b)) (map-set_any heap p v)

pub map-append_one :
    (heap : List BusFrame) (v : BusFrame)
    → map lasting (heap ++ v ∷ []) ≡ map lasting heap ++ lasting v ∷ []
map-append_one [] v = refl
map-append_one (b ∷ heap) v = ap (◌∷◌ (lasting b)) (map-append_one heap v)

-- Sending a frame of this process takes no frame from the queue of foreign frames.
pub AllForeign-set :
    (fs : List Lasting) (p : ℕ) (l v : Lasting) (qs : List ℕ)
    → get_elem? fs p ≡ some l
    → l.1 ≡ true
    → AllForeign fs qs
    → AllForeign (set fs p v) qs
AllForeign-set fs p l v [] here mine f = tt
AllForeign-set fs p l v (q ∷ qs) here mine ((m, there, foreign), f) =
    let kept : get_elem? (set fs p v) q ≡ some m =
      ground (arith, get_elem?-set fs p q v, get_elem?-lt fs p l here) in
    ((m, kept, foreign), AllForeign-set fs p l v qs here mine f)

pub AllWaiting-set :
    (fs : List Lasting) (p : ℕ) (v : Lasting) (qs : List ℕ)
    → p < length fs
    → occurrences p qs ≡ 0
    → AllWaiting fs qs
    → AllWaiting (set fs p v) qs
AllWaiting-set fs p v [] below once f = tt
AllWaiting-set fs p v (q ∷ qs) below once ((m, there, waits), alone, f) =
    let kept : get_elem? (set fs p v) q ≡ some m = ground (arith, get_elem?-set fs p q v) in
    ((m, kept, waits), alone, AllWaiting-set fs p v qs below (ground arith) f)

Holds-append :
    (P : Lasting → Type 0) (fs : List Lasting) (v : Lasting) (q : ℕ)
    → Holds P fs q
    → Holds P (fs ++ v ∷ []) q
Holds-append P fs v q (l, there, ok) =
    (l, ground (arith, get_elem?-append fs v q, get_elem?-lt fs q l there), ok)

Holds-new :
    (P : Lasting → Type 0) (fs : List Lasting) (v : Lasting)
    → P v
    → Holds P (fs ++ v ∷ []) (length fs)
Holds-new P fs v ok = (v, ground (arith, get_elem?-append fs v (length fs)), ok)

pub AllForeign-append :
    (fs : List Lasting) (v : Lasting) (qs : List ℕ)
    → AllForeign fs qs
    → AllForeign (fs ++ v ∷ []) qs
AllForeign-append fs v [] f = tt
AllForeign-append fs v (q ∷ qs) (h, f) =
    (Holds-append IsForeign fs v q h, AllForeign-append fs v qs f)

pub AllForeign-new :
    (fs : List Lasting) (v : Lasting) (qs : List ℕ)
    → IsForeign v
    → AllForeign fs qs
    → AllForeign (fs ++ v ∷ []) (qs ++ length fs ∷ [])
AllForeign-new fs v [] new f = (Holds-new IsForeign fs v new, tt)
AllForeign-new fs v (q ∷ qs) new (h, f) =
    (Holds-append IsForeign fs v q h, AllForeign-new fs v qs new f)

occurrences-new :
    (q n : ℕ) (qs : List ℕ) → q < n → occurrences q qs ≡ 0 → occurrences q (qs ++ n ∷ []) ≡ 0
occurrences-new q n [] below fresh = ground arith
occurrences-new q n (p ∷ qs) below fresh = ground (arith, occurrences-new q n qs below)

pub AllWaiting-append :
    (fs : List Lasting) (v : Lasting) (qs : List ℕ)
    → AllWaiting fs qs
    → AllWaiting (fs ++ v ∷ []) qs
AllWaiting-append fs v [] f = tt
AllWaiting-append fs v (q ∷ qs) (h, alone, f) =
    (Holds-append IsWaiting fs v q h, alone, AllWaiting-append fs v qs f)

pub AllWaiting-new :
    (fs : List Lasting) (v : Lasting) (qs : List ℕ)
    → IsWaiting v
    → AllWaiting fs qs
    → AllWaiting (fs ++ v ∷ []) (qs ++ length fs ∷ [])
AllWaiting-new fs v [] new f = (Holds-new IsWaiting fs v new, refl, tt)
AllWaiting-new fs v (q ∷ qs) new (h, alone, f) = (
  Holds-append IsWaiting fs v q h,
  occurrences-new q (length fs) qs (get_elem?-lt fs q h.0 h.1) alone,
  AllWaiting-new fs v qs new f,
)

-- A type that has a counter is counted, and the counters stay as many.
pub count_type_lem :
    (counters : List ℕ) (type : ℕ)
    → type < length counters
    → (out : List ℕ) × (count_type counters type ≡ some out) × (length out ≡ length counters)
count_type_lem counters type known =
    let (n, here) = get_elem?-some counters type known in
    (
      set counters type (n + 1),
      rw (here, set?_in_bounds counters type (n + 1) known) refl,
      length-set counters type (n + 1),
    )
