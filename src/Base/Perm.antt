-- ===== src/Base/Perm.antt =====
-- Sums and counts over the elements of a list, which a permutation keeps.
use Prim.Native.Nat.{ℕ, ◌+◌}
use mathlib.Core.Logic.{∥∥₁_elim}
use mathlib.Core.Path.{◌≡◌, refl, ◌∙◌}
use mathlib.Core.Bool.{Bool}
use mathlib.Core.List.{List, [], ◌∷◌, ◌++◌, Perm, Permᴰ}
use native.Mathlib.Nat.{ℕ_set}
use native.Mathlib.Omega.{arith}
use ebus.Base.Tests.{if◌then◌else◌}
use ebus.Base.Lists.{length}

module _ {ℓ} {A : Type ℓ} where
  abbrev pub total : (A → ℕ) → List A → ℕ
  total f [] = 0
  total f (x ∷ xs) = f x + total f xs

  abbrev pub count : (A → Bool) → List A → ℕ
  count p xs = total (λ x. if p x then 1 else 0) xs

  pub total-append : (f : A → ℕ) (xs ys : List A) → total f (xs ++ ys) ≡ total f xs + total f ys
  total-append f [] ys = omega arith
  total-append f (x ∷ xs) ys = omega (arith, total-append f xs ys)

  total_dec : (f : A → ℕ) {a b : List A} → Permᴰ a b → total f a ≡ total f b
  total_dec f Permᴰ.nil = refl
  total_dec f (Permᴰ.cons e h) = rw e (omega (arith, total_dec f h))
  total_dec f (Permᴰ.swap e g) = rw (e, g) (omega arith)
  total_dec f (Permᴰ.trans h k) = total_dec f h ∙ total_dec f k

  pub total-Perm : (f : A → ℕ) {a b : List A} → Perm a b → total f a ≡ total f b
  total-Perm f h = ∥∥₁_elim h (ℕ_set _ _) (total_dec f)

  total_ones : (xs : List A) → total (λ x. 1) xs ≡ length xs
  total_ones [] = refl
  total_ones (x ∷ xs) = omega (arith, total_ones xs)

  pub length-Perm : {a b : List A} → Perm a b → length a ≡ length b
  length-Perm {a} {b} h = omega (arith, total_ones a, total_ones b, total-Perm (λ x. 1) h)
