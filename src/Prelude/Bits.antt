-- ===== src/Prelude/Bits.antt =====
-- `|` of disjoint fields is a sum and `&` with ones is a remainder, at every width.
use Prim.Native.Nat.{
  ℕ, zero, suc, ◌+◌, ◌*◌, ◌/◌, ◌%◌, ◌^◌, ◌≤◌, ◌<◌, min, max, bit_and, bit_or, digits,
  bit_and-bitwise, bit_or-bitwise,
}
use mathlib.Core.Path.{◌≡◌, refl, ap, ◌∙◌}
use native.Mathlib.Nat.{pow-suc, one-le-pow, div-add-mod, mul_comm}
use native.Mathlib.Omega.{arith}
use h9d.Prelude.Words.{◌<<<◌, low_mask}

-- The digit recursions behind the two operations, with any count of digits that is enough.
abbrev or_digits : ℕ → ℕ → ℕ → ℕ
or_digits n a b = digits (λ y. y) max n a b

abbrev and_digits : ℕ → ℕ → ℕ → ℕ
and_digits n a b = digits (λ y. 0) min n a b

or_digits_empty : (n a : ℕ) → a ≤ n → or_digits n a 0 ≡ a
or_digits_empty zero a h = omega arith
or_digits_empty (suc n) zero h = refl
or_digits_empty (suc n) (suc a) h = omega (arith, or_digits_empty n (suc a / 2) (omega arith))

and_digits_empty : (n a : ℕ) → a ≤ n → and_digits n a 0 ≡ 0
and_digits_empty zero a h = refl
and_digits_empty (suc n) zero h = refl
and_digits_empty (suc n) (suc a) h = omega (arith, and_digits_empty n (suc a / 2) (omega arith))

double_pow : (k : ℕ) → 2 ^ suc k ≡ 2 * 2 ^ k
double_pow k = omega (arith, pow-suc 2 k)

double_field : (q k : ℕ) → q * 2 ^ suc k ≡ 2 * (q * 2 ^ k)
double_field q k = omega (arith, ap (λ (p : ℕ). q * p) (double_pow k))

or_digits_fields : (k n a q r : ℕ) → a ≡ q * 2 ^ k → a ≤ n → r < 2 ^ k → or_digits n a r ≡ a + r
or_digits_fields zero n a q r e h f =
    let empty : r ≡ 0 = omega arith in rw empty (omega (arith, or_digits_empty n a h))
or_digits_fields (suc k) zero a q r e h f = omega arith
or_digits_fields (suc k) (suc n) zero q r e h f = omega arith
or_digits_fields (suc k) (suc n) (suc a) q r e h f = omega (
  arith,
  double_field q k,
  double_pow k,
  or_digits_fields k n (suc a / 2) q (r / 2) (omega (arith, double_field q k)) (omega arith)
      (omega (arith, double_pow k)),
)

-- With `m` ones, `a` is split into the digits above and the `r` that stays.
and_digits_ones :
    (k n a q r m : ℕ) → a ≡ q * 2 ^ k + r → r < 2 ^ k → m + 1 ≡ 2 ^ k → a ≤ n → and_digits n a m ≡ r
and_digits_ones zero n a q r m e f o h =
    let empty : m ≡ 0 = omega arith in rw empty (omega (arith, and_digits_empty n a h))
and_digits_ones (suc k) zero a q r m e f o h = omega arith
and_digits_ones (suc k) (suc n) zero q r m e f o h = omega arith
and_digits_ones (suc k) (suc n) (suc a) q r m e f o h = omega (
  arith,
  double_pow k,
  double_field q k,
  one-le-pow k 2,
  and_digits_ones k n (suc a / 2) q (r / 2) (m / 2) (omega (arith, double_field q k))
      (omega (arith, double_pow k)) (omega (arith, double_pow k, one-le-pow k 2)) (omega arith),
)

-- `(q << k) | r`, where `r` fits `k` bits.
pub bit_or_fields : (k q r : ℕ) → r < 2 ^ k → bit_or (q <<< k) r ≡ q * 2 ^ k + r
bit_or_fields k q r f =
    bit_or-bitwise _ r ∙ or_digits_fields k (q * 2 ^ k) (q * 2 ^ k) q r refl (omega arith) f

-- `a & ((1 << k) - 1)`.
pub bit_and-low_mask : (k a : ℕ) → bit_and a (low_mask k) ≡ a % 2 ^ k
bit_and-low_mask k a =
    bit_and-bitwise a _
    ∙ and_digits_ones k a a (a / 2 ^ k) (a % 2 ^ k) (low_mask k)
        (grind (arith, div-add-mod, mul_comm)) (omega (arith, one-le-pow k 2))
        (omega (arith, one-le-pow k 2)) (omega arith)

pub zero-bit_or : (b : ℕ) → bit_or 0 b ≡ b
zero-bit_or b = bit_or-bitwise 0 b

-- More digits than the first number has change nothing.
module _ (z : ℕ → ℕ) (f : ℕ → ℕ → ℕ) where
  digits_enough : (n m a b : ℕ) → a ≤ n → a ≤ m → digits z f n a b ≡ digits z f m a b
  digits_enough n zero zero b h k = at_zero n
    where
      at_zero : (n : ℕ) → digits z f n 0 b ≡ z b
      at_zero zero = refl
      at_zero (suc n) = refl
  digits_enough n zero (suc a) b h k = absurd (omega arith)
  digits_enough zero (suc m) zero b h k = refl
  digits_enough zero (suc m) (suc a) b h k = absurd (omega arith)
  digits_enough (suc n) (suc m) zero b h k = refl
  digits_enough (suc n) (suc m) (suc a) b h k =
      ap (λ (t : ℕ). t * 2 + f (suc a % 2) (b % 2))
        (digits_enough n m (suc a / 2) (b / 2) (omega arith) (omega arith))

-- The lowest digit of each operation.
or_step : (a b : ℕ) → bit_or a b ≡ bit_or (a / 2) (b / 2) * 2 + max (a % 2) (b % 2)
or_step zero b = omega (arith, zero-bit_or b, zero-bit_or (b / 2))
or_step (suc a) b = omega (
  arith,
  bit_or-bitwise (suc a) b,
  bit_or-bitwise (suc a / 2) (b / 2),
  digits_enough (λ y. y) max a (suc a / 2) (suc a / 2) (b / 2) (omega arith) (omega arith),
)

zero-bit_and : (b : ℕ) → bit_and 0 b ≡ 0
zero-bit_and b = bit_and-bitwise 0 b

and_step : (a b : ℕ) → bit_and a b ≡ bit_and (a / 2) (b / 2) * 2 + min (a % 2) (b % 2)
and_step zero b = omega (arith, zero-bit_and b, zero-bit_and (b / 2))
and_step (suc a) b = omega (
  arith,
  bit_and-bitwise (suc a) b,
  bit_and-bitwise (suc a / 2) (b / 2),
  digits_enough (λ y. 0) min a (suc a / 2) (suc a / 2) (b / 2) (omega arith) (omega arith),
)

le-bit_or_below : (n a b : ℕ) → b ≤ n → b ≤ bit_or a b
le-bit_or_below n a zero h = omega arith
le-bit_or_below zero a (suc b) h = absurd (omega arith)
le-bit_or_below (suc n) a (suc b) h =
    omega (arith, or_step a (suc b), le-bit_or_below n (a / 2) (suc b / 2) (omega arith))

-- Setting a flag leaves it set.
pub le-bit_or : (a b : ℕ) → b ≤ bit_or a b
le-bit_or a b = le-bit_or_below b a b (omega arith)

or_half : (a b : ℕ) → bit_or a b / 2 ≡ bit_or (a / 2) (b / 2)
or_half a b = omega (arith, or_step a b)

or_low : (a b : ℕ) → bit_or a b % 2 ≡ max (a % 2) (b % 2)
or_low a b = omega (arith, or_step a b)

and_half : (a b : ℕ) → bit_and a b / 2 ≡ bit_and (a / 2) (b / 2)
and_half a b = omega (arith, and_step a b)

and_low : (a b : ℕ) → bit_and a b % 2 ≡ min (a % 2) (b % 2)
and_low a b = omega (arith, and_step a b)

distrib_below :
    (n a b c : ℕ) → a + b + c ≤ n → bit_and (bit_or a b) c ≡ bit_or (bit_and a c) (bit_and b c)
distrib_below zero a b c h =
    let a0 : a ≡ 0 = omega arith in
    let b0 : b ≡ 0 = omega arith in let c0 : c ≡ 0 = omega arith in rw (a0, b0, c0)
distrib_below (suc n) a b c h =
    let below = distrib_below n (a / 2) (b / 2) (c / 2) (omega arith) in
    let lhs : bit_and (bit_or a b) c
        ≡ bit_and (bit_or (a / 2) (b / 2)) (c / 2) * 2 + min (max (a % 2) (b % 2)) (c % 2) =
      rw (← or_half a b, ← or_low a b) (and_step (bit_or a b) c) in
    let rhs : bit_or (bit_and a c) (bit_and b c)
        ≡ bit_or (bit_and (a / 2) (c / 2)) (bit_and (b / 2) (c / 2)) * 2
          + max (min (a % 2) (c % 2)) (min (b % 2) (c % 2)) =
      rw (← and_half a c, ← and_half b c, ← and_low a c, ← and_low b c)
        (or_step (bit_and a c) (bit_and b c)) in
    omega arith

-- A mask of a flag word.
pub bit_and-bit_or : (a b c : ℕ) → bit_and (bit_or a b) c ≡ bit_or (bit_and a c) (bit_and b c)
bit_and-bit_or a b c = distrib_below (a + b + c) a b c (omega arith)

-- A flag that a word of other flags does not have is not changed by them.
pub bit_and-bit_or_other : (a b c : ℕ) → bit_and b c ≡ 0 → bit_and (bit_or a b) c ≡ bit_and a c
bit_and-bit_or_other a b c e =
    rw (bit_and-bit_or a b c, e)
      (bit_or-bitwise (bit_and a c) 0 ∙ or_digits_empty _ (bit_and a c) (omega arith))

or_digits_zero : (n b : ℕ) → or_digits n 0 b ≡ b
or_digits_zero zero b = refl
or_digits_zero (suc n) b = refl

or_digits_above : (k n r b q : ℕ) → b ≡ q * 2 ^ k → r ≤ n → r < 2 ^ k → or_digits n r b ≡ r + b
or_digits_above zero n r b q e h f =
    let empty : r ≡ 0 = omega arith in rw empty (omega (arith, or_digits_zero n b))
or_digits_above (suc k) zero r b q e h f =
    let empty : r ≡ 0 = omega arith in rw empty (omega (arith, or_digits_zero 0 b))
or_digits_above (suc k) (suc n) zero b q e h f = omega arith
or_digits_above (suc k) (suc n) (suc r) b q e h f = omega (
  arith,
  double_field q k,
  double_pow k,
  or_digits_above k n (suc r / 2) (b / 2) q (omega (arith, double_field q k)) (omega arith)
      (omega (arith, double_pow k)),
)

-- `r | (q << k)`, where `r` fits `k` bits.
pub bit_or_above : (k q r : ℕ) → r < 2 ^ k → bit_or r (q <<< k) ≡ r + q * 2 ^ k
bit_or_above k q r f = bit_or-bitwise r _ ∙ or_digits_above k r r (q * 2 ^ k) q refl (omega arith) f
