-- ===== src/Prelude/Bag.antt =====
-- Bags: lists without their order, as a quotient. Two lists are the same bag when every weight adds
-- up to the same over both.
use mathlib.Core.List.{List, ◌∷◌}
use mathlib.Core.Path.{◌≡◌}
use mathlib.Core.Quot
use mathlib.Core.Quot.{Quot, Quot-set}
use native.Mathlib.Nat.{ℕ_set}
use native.Mathlib.Omega.{arith}
use Prim.Native.Nat.{ℕ, suc}
use xmlrpc_extended.Prelude.Lists.{total}

abbrev pub Same {ℓ} : {A : Type ℓ} → List A → List A → Type ℓ
Same {A} xs ys = (w : A → ℕ) → total w xs ≡ total w ys

abbrev pub Bag {ℓ} : Type ℓ → Type ℓ
Bag A = Quot (Same {A = A})

module _ {ℓ} {A : Type ℓ} where
  abbrev pub to_bag : List A → Bag A
  to_bag xs = Quot.mk xs

  pub to_bag-eq : (xs ys : List A) → Same xs ys → to_bag xs ≡ to_bag ys
  to_bag-eq xs ys h = Quot.sound h

  pub Same-cons : (x : A) (xs ys : List A) → Same xs ys → Same (x ∷ xs) (x ∷ ys)
  unfolding total
  Same-cons x xs ys h w = omega (arith, h w)

  unfoldable pub add : A → Bag A → Bag A
  add x = Quot.lift Quot-set (λ xs. Quot.mk (x ∷ xs)) (λ xs ys h. Quot.sound (Same-cons x xs ys h))

  unfoldable pub size : Bag A → ℕ
  size = Quot.lift ℕ_set (total (λ x. 1)) (λ xs ys h. h (λ x. 1))

  pub size-add : (x : A) (b : Bag A) → size (add x b) ≡ suc (size b)
  unfolding size add total
  size-add x = Quot.ind (λ b. ℕ_set _ _) (λ xs. omega arith)
