-- ===== src/Prelude/Append.antt =====
-- Lists that are appended, and what is dropped of them.
use Prim.Native.Nat.{zero, suc, ◌+◌, ℕ}
use mathlib.Core.Path.{◌≡◌, refl, sym, ap, ◌∙◌}
use mathlib.Core.List.{List, [], ◌∷◌, ◌++◌}
use native.Mathlib.Omega.{arith}
use h9d.Prelude.Lists.{drop}

module _ {ℓ} {A : Type ℓ} where
  pub append_nil : (xs : List A) → xs ++ [] ≡ xs
  append_nil [] = refl
  append_nil (x ∷ xs) = ap (◌∷◌ x) (append_nil xs)

  pub append_assoc : (xs ys zs : List A) → (xs ++ ys) ++ zs ≡ xs ++ (ys ++ zs)
  append_assoc [] ys zs = refl
  append_assoc (x ∷ xs) ys zs = ap (◌∷◌ x) (append_assoc xs ys zs)

  drop_nil : (n : ℕ) → ◌≡◌ {A = List A} (drop n []) []
  drop_nil zero = refl
  drop_nil (suc n) = refl

  drop_eq : (n m : ℕ) (xs : List A) → n ≡ m → drop n xs ≡ drop m xs
  drop_eq n m xs e = ap (λ (k : ℕ). drop k xs) e

  pub drop-drop : (n k : ℕ) (xs : List A) → drop k (drop n xs) ≡ drop (n + k) xs
  drop-drop zero k xs = drop_eq k (0 + k) xs (omega arith)
  drop-drop (suc n) zero [] = sym (drop_nil (suc n + 0))
  drop-drop (suc n) (suc k) [] = sym (drop_nil (suc n + suc k))
  drop-drop (suc n) k (x ∷ xs) =
      drop-drop n k xs ∙ drop_eq (suc (n + k)) (suc n + k) (x ∷ xs) (omega arith)
