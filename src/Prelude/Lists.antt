-- ===== src/Prelude/Lists.antt =====
-- Lists measured and indexed by native numbers, under the library's names. A C array is such a list.
use Prim.Native.Nat.{ℕ, zero, suc, ◌+◌, ◌-◌, ◌≤◌, ◌<◌, min}
use mathlib.Core.Path.{◌≡◌, refl, ap, ◌∙◌}
use mathlib.Core.List.{List, [], ◌∷◌, ◌++◌, map}
use mathlib.Core.Bool.{Bool, true}
use mathlib.Core.Option.{Option, none, some}
use native.Mathlib.Omega.{arith}
use h9d.Prelude.Tests.{if◌then◌else◌, ◌==◌}

module _ {ℓ} {A : Type ℓ} where
  abbrev pub length : List A → ℕ
  length [] = 0
  length (x ∷ xs) = suc (length xs)

  abbrev pub get_elem? : List A → ℕ → Option A
  get_elem? [] i = none
  get_elem? (x ∷ xs) zero = some x
  get_elem? (x ∷ xs) (suc i) = get_elem? xs i

  abbrev pub get_or : List A → ℕ → A → A
  get_or [] i d = d
  get_or (x ∷ xs) zero d = x
  get_or (x ∷ xs) (suc i) d = get_or xs i d

  -- A write out of bounds changes nothing.
  abbrev pub set : List A → ℕ → A → List A
  set [] i v = []
  set (x ∷ xs) zero v = v ∷ xs
  set (x ∷ xs) (suc i) v = x ∷ set xs i v

  abbrev pub take : ℕ → List A → List A
  take zero xs = []
  take (suc n) [] = []
  take (suc n) (x ∷ xs) = x ∷ take n xs

  abbrev pub drop : ℕ → List A → List A
  drop zero xs = xs
  drop (suc n) [] = []
  drop (suc n) (x ∷ xs) = drop n xs

  -- The second list with the first written over its start.
  abbrev pub overwrite : List A → List A → List A
  overwrite [] ys = ys
  overwrite (x ∷ xs) [] = []
  overwrite (x ∷ xs) (y ∷ ys) = x ∷ overwrite xs ys

module _ {ℓ} {A : Type ℓ} where
  -- A write into an array: `none` is a write out of its bounds.
  abbrev pub set? : List A → ℕ → A → Option (List A)
  set? [] i v = none
  set? (x ∷ xs) zero v = some (v ∷ xs)
  set? (x ∷ xs) (suc i) v = elim (set? xs i v) [ none ↦ none | some ys ↦ some (x ∷ ys) ]

  pub set?_in_bounds :
      (xs : List A) (i : ℕ) (v : A) → i < length xs → set? xs i v ≡ some (set xs i v)
  set?_in_bounds [] i v h = absurd (omega arith)
  set?_in_bounds (x ∷ xs) zero v h = refl
  set?_in_bounds (x ∷ xs) (suc i) v h = rw (set?_in_bounds xs i v (omega arith))

  pub set?_out_of_bounds : (xs : List A) (i : ℕ) (v : A) → length xs ≤ i → set? xs i v ≡ none
  set?_out_of_bounds [] i v h = refl
  set?_out_of_bounds (x ∷ xs) zero v h = absurd (omega arith)
  set?_out_of_bounds (x ∷ xs) (suc i) v h = rw (set?_out_of_bounds xs i v (omega arith))

  pub length-set : (xs : List A) (i : ℕ) (v : A) → length (set xs i v) ≡ length xs
  length-set [] i v = refl
  length-set (x ∷ xs) zero v = refl
  length-set (x ∷ xs) (suc i) v = ap suc (length-set xs i v)

  pub get_elem?_in_bounds :
      (xs : List A) (i : ℕ) (d : A) → i < length xs → get_elem? xs i ≡ some (get_or xs i d)
  get_elem?_in_bounds [] i d h = absurd (omega arith)
  get_elem?_in_bounds (x ∷ xs) zero d h = refl
  get_elem?_in_bounds (x ∷ xs) (suc i) d h = get_elem?_in_bounds xs i d (omega arith)

  pub get_elem?_out_of_bounds : (xs : List A) (i : ℕ) → length xs ≤ i → get_elem? xs i ≡ none
  get_elem?_out_of_bounds [] i h = refl
  get_elem?_out_of_bounds (x ∷ xs) zero h = absurd (omega arith)
  get_elem?_out_of_bounds (x ∷ xs) (suc i) h = get_elem?_out_of_bounds xs i (omega arith)

  -- The first element that passes a test, and those that pass.
  abbrev pub find? : (A → Bool) → List A → Option A
  find? p [] = none
  find? p (x ∷ xs) = if p x then some x else find? p xs

  abbrev pub keep : (A → Bool) → List A → List A
  keep p [] = []
  keep p (x ∷ xs) = if p x then x ∷ keep p xs else keep p xs

  abbrev pub or_else : Option A → Option A → Option A
  or_else none o = o
  or_else (some a) o = some a

  pub find?-append :
      (p : A → Bool) (xs ys : List A) → find? p (xs ++ ys) ≡ or_else (find? p xs) (find? p ys)
  find?-append p [] ys = refl
  find?-append p (x ∷ xs) ys = ground (arith, find?-append p xs ys)

  -- A weaker test may be applied first.
  pub find?-keep :
      (p q : A → Bool) (xs : List A)
      → ((x : A) → p x ≡ true → q x ≡ true)
      → find? p (keep q xs) ≡ find? p xs
  find?-keep p q [] weaker = refl
  find?-keep p q (x ∷ xs) weaker = ground (arith, weaker x, find?-keep p q xs weaker)

module _ {ℓ} {A : Type ℓ} where
  pub length-append : (xs ys : List A) → length (xs ++ ys) ≡ length xs + length ys
  length-append [] ys = omega arith
  length-append (x ∷ xs) ys = omega (arith, length-append xs ys)

  pub length-take : (n : ℕ) (xs : List A) → length (take n xs) ≡ min n (length xs)
  length-take zero xs = omega arith
  length-take (suc n) [] = omega arith
  length-take (suc n) (x ∷ xs) = omega (arith, length-take n xs)

  pub length-drop : (n : ℕ) (xs : List A) → length (drop n xs) ≡ length xs - n
  length-drop zero xs = omega arith
  length-drop (suc n) [] = omega arith
  length-drop (suc n) (x ∷ xs) = omega (arith, length-drop n xs)

  pub length-overwrite : (xs ys : List A) → length (overwrite xs ys) ≡ length ys
  length-overwrite [] ys = refl
  length-overwrite (x ∷ xs) [] = refl
  length-overwrite (x ∷ xs) (y ∷ ys) = ap suc (length-overwrite xs ys)

  pub take_all : (n : ℕ) (xs : List A) → length xs ≤ n → take n xs ≡ xs
  take_all zero [] h = refl
  take_all zero (x ∷ xs) h = absurd (omega arith)
  take_all (suc n) [] h = refl
  take_all (suc n) (x ∷ xs) h = ap (◌∷◌ x) (take_all n xs (omega arith))

  pub overwrite_all : (xs ys : List A) → length xs ≡ length ys → overwrite xs ys ≡ xs
  overwrite_all [] [] h = refl
  overwrite_all [] (y ∷ ys) h = absurd (omega arith)
  overwrite_all (x ∷ xs) [] h = absurd (omega arith)
  overwrite_all (x ∷ xs) (y ∷ ys) h = ap (◌∷◌ x) (overwrite_all xs ys (omega arith))

-- The bytes of an array are below 256.
abbrev pub AllBelow : ℕ → List ℕ → Type 0
AllBelow n [] = Unit {0}
AllBelow n (x ∷ xs) = (x < n) × AllBelow n xs

-- `for (i = 0; i < n; ++i) dst[i] = src[i];`, where `none` is an access out of an array's bounds.
module _ {ℓ} {A : Type ℓ} where
  unfoldable pub copy_bytes : ℕ → List A → List A → Option (List A)
  copy_bytes zero src dst = some dst
  copy_bytes (suc n) [] dst = none
  copy_bytes (suc n) (s ∷ src) [] = none
  copy_bytes (suc n) (s ∷ src) (d ∷ dst) = elim (copy_bytes n src dst) [
    | none ↦ none
    | some out ↦ some (s ∷ out)
  ]

  pub copy_bytes_in_bounds :
      (n : ℕ) (src dst : List A)
      → n ≤ length src
      → n ≤ length dst
      → copy_bytes n src dst ≡ some (overwrite (take n src) dst)
  unfolding copy_bytes
  copy_bytes_in_bounds zero src dst p q = refl
  copy_bytes_in_bounds (suc n) [] dst p q = absurd (omega arith)
  copy_bytes_in_bounds (suc n) (s ∷ src) [] p q = absurd (omega arith)
  copy_bytes_in_bounds (suc n) (s ∷ src) (d ∷ dst) p q =
      rw (copy_bytes_in_bounds n src dst (omega arith) (omega arith))

  pub copy_bytes_overflow :
      (n : ℕ) (src dst : List A) → length dst < n → copy_bytes n src dst ≡ none
  unfolding copy_bytes
  copy_bytes_overflow zero src dst p = absurd (omega arith)
  copy_bytes_overflow (suc n) [] dst p = refl
  copy_bytes_overflow (suc n) (s ∷ src) [] p = refl
  copy_bytes_overflow (suc n) (s ∷ src) (d ∷ dst) p =
      rw (copy_bytes_overflow n src dst (omega arith))

  pub copy_bytes_overread :
      (n : ℕ) (src dst : List A) → length src < n → copy_bytes n src dst ≡ none
  unfolding copy_bytes
  copy_bytes_overread zero src dst p = absurd (omega arith)
  copy_bytes_overread (suc n) [] dst p = refl
  copy_bytes_overread (suc n) (s ∷ src) [] p = refl
  copy_bytes_overread (suc n) (s ∷ src) (d ∷ dst) p =
      rw (copy_bytes_overread n src dst (omega arith))

module _ {ℓ} {A : Type ℓ} where
  pub get_elem?-set :
      (xs : List A) (i j : ℕ) (v : A)
      → i < length xs
      → get_elem? (set xs i v) j ≡ (if i == j then some v else get_elem? xs j)
  get_elem?-set [] i j v h = absurd (omega arith)
  get_elem?-set (x ∷ xs) zero zero v h = ground arith
  get_elem?-set (x ∷ xs) zero (suc j) v h = ground arith
  get_elem?-set (x ∷ xs) (suc i) zero v h = ground arith
  get_elem?-set (x ∷ xs) (suc i) (suc j) v h = get_elem?-set xs i j v (omega arith) ∙ ground arith

  pub get_elem?-append :
      (xs : List A) (v : A) (j : ℕ)
      → get_elem? (xs ++ v ∷ []) j ≡ (if length xs == j then some v else get_elem? xs j)
  get_elem?-append [] v zero = ground arith
  get_elem?-append [] v (suc j) = ground arith
  get_elem?-append (x ∷ xs) v zero = ground arith
  get_elem?-append (x ∷ xs) v (suc j) = get_elem?-append xs v j ∙ ground arith

  pub get_elem?-some : (xs : List A) (i : ℕ) → i < length xs → (x : A) × (get_elem? xs i ≡ some x)
  get_elem?-some [] i h = absurd (omega arith)
  get_elem?-some (x ∷ xs) zero h = (x, refl)
  get_elem?-some (x ∷ xs) (suc i) h = get_elem?-some xs i (omega arith)

pub AllBelow-mono : (n m : ℕ) (xs : List ℕ) → n ≤ m → AllBelow n xs → AllBelow m xs
AllBelow-mono n m [] h b = tt
AllBelow-mono n m (x ∷ xs) h b = (omega arith, AllBelow-mono n m xs h (b.1))

pub AllBelow-append : (n x : ℕ) (xs : List ℕ) → x < n → AllBelow n xs → AllBelow n (xs ++ x ∷ [])
AllBelow-append n x [] h b = (h, tt)
AllBelow-append n x (y ∷ ys) h b = (b.0, AllBelow-append n x ys h (b.1))

module _ {ℓ κ} {A : Type ℓ} {B : Type κ} where
  pub length-map : (f : A → B) (xs : List A) → length (map f xs) ≡ length xs
  length-map f [] = refl
  length-map f (x ∷ xs) = ap suc (length-map f xs)

  pub get_elem?-map :
      (f : A → B) (xs : List A) (i : ℕ) (x : A)
      → get_elem? xs i ≡ some x
      → get_elem? (map f xs) i ≡ some (f x)
  get_elem?-map f [] i x e = cc
  get_elem?-map f (y ∷ ys) zero x e = ground arith
  get_elem?-map f (y ∷ ys) (suc i) x e = get_elem?-map f ys i x e

  -- A write that keeps the image of the entry keeps the image of the list.
  pub map-set :
      (f : A → B) (xs : List A) (i : ℕ) (x v : A)
      → get_elem? xs i ≡ some x
      → f v ≡ f x
      → map f (set xs i v) ≡ map f xs
  map-set f [] i x v e h = refl
  map-set f (y ∷ ys) zero x v e h = ground arith
  map-set f (y ∷ ys) (suc i) x v e h = ap (◌∷◌ (f y)) (map-set f ys i x v e h)
