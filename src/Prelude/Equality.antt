-- ===== src/Prelude/Equality.antt =====
-- Equality of keys, as an interface: numbers, lists, pairs and what a module adds.
use Prim.Native.Nat.{ℕ}
use mathlib.Core.Bool.{Bool, true, false, ◌&&◌}
use mathlib.Core.List.{List, [], ◌∷◌}
use mathlib.Core.Logic.{◌↔◌}
use mathlib.Core.Path.{◌≡◌, refl}
use native.Mathlib.Omega.{arith}
use grapevine.Prelude.Tests.{nat_eq, nat_eq→eq}

pub record Eq {ℓ} (K : Type ℓ) : Type ℓ where
  pub same : K → K → Bool
  pub same_iff : (x y : K) → (same x y ≡ true) ↔ (x ≡ y)

module _ {ℓ} {K : Type ℓ} ⦃o : Eq K⦄ where
  infix 50 ◌==◌
  abbrev pub ◌==◌ : K → K → Bool
  x == y = o.same x y

  pub ==_iff : (x y : K) → ((x == y) ≡ true) ↔ (x ≡ y)
  ==_iff = o.same_iff

  pub ==_refl : (x : K) → (x == x) ≡ true
  ==_refl x = (o.same_iff x x).1 refl

pub nat_eq_iff : (m n : ℕ) → (nat_eq m n ≡ true) ↔ (m ≡ n)
nat_eq_iff m n = (nat_eq→eq m n, λ p. ground arith)

instance abbrev pub ℕ-Eq : Eq ℕ
ℕ-Eq = record { same = nat_eq; same_iff = nat_eq_iff }

module _ {ℓ} {A : Type ℓ} ⦃e : Eq A⦄ where
  unfoldable pub list_eq : List A → List A → Bool
  list_eq [] [] = true
  list_eq (x ∷ xs) (y ∷ ys) = (x == y) && list_eq xs ys
  list_eq _ _ = false

  list_eq_sound : (xs ys : List A) → list_eq xs ys ≡ true → xs ≡ ys
  unfolding list_eq
  list_eq_sound [] [] h = refl
  list_eq_sound [] (y ∷ ys) h = ground arith
  list_eq_sound (x ∷ xs) [] h = ground arith
  list_eq_sound (x ∷ xs) (y ∷ ys) h = ground (arith, ==_iff x y, list_eq_sound xs ys)

  list_eq_refl : (xs : List A) → list_eq xs xs ≡ true
  unfolding list_eq
  list_eq_refl [] = refl
  list_eq_refl (x ∷ xs) = ground (arith, ==_refl x, list_eq_refl xs)

  pub list_eq_iff : (xs ys : List A) → (list_eq xs ys ≡ true) ↔ (xs ≡ ys)
  list_eq_iff xs ys = (list_eq_sound xs ys, λ p. cc (p, list_eq_refl xs))

  instance abbrev pub List-Eq : Eq (List A)
  List-Eq = record { same = list_eq; same_iff = list_eq_iff }

module _ {ℓ} {A B : Type ℓ} ⦃e : Eq A⦄ ⦃f : Eq B⦄ where
  pub pair_eq_iff : (p q : A × B) → (((p.0 == q.0) && (p.1 == q.1)) ≡ true) ↔ (p ≡ q)
  pair_eq_iff (a, b) (c, d) =
      (λ h. ground (arith, ==_iff a c, ==_iff b d), λ h. ground (arith, ==_iff a c, ==_iff b d))

  instance abbrev pub Pair-Eq : Eq (A × B)
  Pair-Eq = record { same = λ p q. (p.0 == q.0) && (p.1 == q.1); same_iff = pair_eq_iff }
