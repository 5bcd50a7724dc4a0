-- ===== src/Prelude/InOrder.antt =====
-- Relations that hold between the elements of a list in their order: sorted lists, and what is left
-- of them by `filter`, `take_while` and `reverse`.
use mathlib.Core.Bool.{Bool, true, false, ◌&&◌}
use mathlib.Core.List.{List, [], ◌∷◌, ◌++◌, reverse, reverse-cons}
use mathlib.Core.Path.{◌≡◌, refl, sym, ap, subst}
use native.Mathlib.Omega.{arith}
use mathlib.Core.Logic.{inl, inr}
use grapevine.Prelude.Tests.{if◌then◌else◌, if_both, if_split, Bool-cases}
use grapevine.Prelude.Lists.{filter, All}

-- Every element stands in the relation to every later one.
module _ {ℓ κ} {A : Type ℓ} (R : A → A → Type κ) where
  abbrev pub Pairs : List A → Type κ
  Pairs [] = Unit
  Pairs (x ∷ xs) = All (R x) xs × Pairs xs

module _ {ℓ} {A : Type ℓ} where
  unfoldable pub take_while : (A → Bool) → List A → List A
  take_while p [] = []
  take_while p (x ∷ xs) = let rest = take_while p xs in if p x then x ∷ rest else []

  pub filter-&& : (p q : A → Bool) (l : List A) → filter p (filter q l) ≡ filter (λ x. p x && q x) l
  unfolding filter
  filter-&& p q [] = refl
  filter-&& p q (x ∷ xs) = ground (arith, filter-&& p q xs)

module _ {ℓ κ} {A : Type ℓ} where
  pub All-filter : (P : A → Type κ) (p : A → Bool) (l : List A) → All P l → All P (filter p l)
  unfolding filter
  All-filter P p [] h = tt
  All-filter P p (x ∷ xs) (hx, hs) = ground (arith, hx, All-filter P p xs hs)

  pub Pairs-filter :
      (R : A → A → Type κ) (p : A → Bool) (l : List A) → Pairs R l → Pairs R (filter p l)
  unfolding filter
  Pairs-filter R p [] h = tt
  Pairs-filter R p (x ∷ xs) (hx, hs) =
      if_both (Pairs R) (p x) (x ∷ filter p xs) (filter p xs)
        (All-filter (R x) p xs hx, Pairs-filter R p xs hs) (Pairs-filter R p xs hs)

  All-append : (P : A → Type κ) (l m : List A) → All P l → All P m → All P (l ++ m)
  All-append P [] m h k = k
  All-append P (x ∷ l) m (hx, h) k = (hx, All-append P l m h k)

  pub All-reverse : (P : A → Type κ) (l : List A) → All P l → All P (reverse l)
  All-reverse P [] h = tt
  All-reverse P (x ∷ l) (hx, h) =
      subst (All P) (sym (reverse-cons x l))
        (All-append P (reverse l) (x ∷ []) (All-reverse P l h) (hx, tt))

  Pairs-snoc :
      (R : A → A → Type κ) (l : List A) (x : A)
      → Pairs R l
      → All (λ y. R y x) l
      → Pairs R (l ++ x ∷ [])
  Pairs-snoc R [] x h k = (tt, tt)
  Pairs-snoc R (y ∷ l) x (hy, h) (ky, k) =
      (All-append (R y) l (x ∷ []) hy (ky, tt), Pairs-snoc R l x h k)

  pub Pairs-reverse :
      (R : A → A → Type κ) (l : List A) → Pairs R l → Pairs (λ a b. R b a) (reverse l)
  Pairs-reverse R [] h = tt
  Pairs-reverse R (x ∷ l) (hx, h) =
      subst (Pairs (λ a b. R b a)) (sym (reverse-cons x l))
        (Pairs-snoc (λ a b. R b a) (reverse l) x (Pairs-reverse R l h) (All-reverse (R x) l hx))

module _ {ℓ} {A : Type ℓ} where
  All-apply {κ μ} : {H : Type μ} (P : A → Type κ) (l : List A) → All (λ x. H → P x) l → H → All P l
  All-apply P [] f h = tt
  All-apply P (x ∷ l) (fx, f) h = (fx h, All-apply P l f h)

  none_later : (p : A → Bool) (l : List A) → All (λ x. p x ≡ false) l → filter p l ≡ []
  unfolding filter
  none_later p [] h = refl
  none_later p (x ∷ l) (hx, h) = ground (arith, none_later p l h)

  -- Where a test that has failed once fails for all later elements, the two are one.
  pub take_while-filter :
      (p : A → Bool) (l : List A)
      → Pairs (λ a b. p a ≡ false → p b ≡ false) l
      → take_while p l ≡ filter p l
  unfolding take_while filter
  take_while-filter p [] h = refl
  take_while-filter p (x ∷ l) (hx, h) = elim (Bool-cases (p x)) [
    | inl holds ↦ rw holds (ap (◌∷◌ x) (take_while-filter p l h))
    | inr fails ↦ rw fails (sym (none_later p l (All-apply (λ b. p b ≡ false) l hx fails)))
  ]

  pub All-filter-holds : (p : A → Bool) (l : List A) → All (λ x. p x ≡ true) (filter p l)
  unfolding filter
  All-filter-holds p [] = tt
  All-filter-holds p (x ∷ l) =
      if_split (All (λ y. p y ≡ true)) (p x) (x ∷ filter p l) (filter p l)
        (λ holds. (holds, All-filter-holds p l)) (λ fails. All-filter-holds p l)

  pub All-map {κ μ} :
      {P : A → Type κ} {Q : A → Type μ} (l : List A) → ((x : A) → P x → Q x) → All P l → All Q l
  All-map [] f h = tt
  All-map (x ∷ l) f (hx, h) = (f x hx, All-map l f h)

  All-both {κ μ} :
      (P : A → Type κ) (Q : A → Type μ) (l : List A) → All P l → All Q l → All (λ x. P x × Q x) l
  All-both P Q [] h k = tt
  All-both P Q (x ∷ l) (hx, h) (kx, k) = ((hx, kx), All-both P Q l h k)

  -- A relation may be weakened where all elements have a property.
  pub Pairs-map {κ μ ν} :
      (P : A → Type κ) {R : A → A → Type μ} {S : A → A → Type ν} (l : List A)
      → ((a b : A) → P a → P b → R a b → S a b)
      → All P l
      → Pairs R l
      → Pairs S l
  Pairs-map P [] f h k = tt
  Pairs-map P {R} (x ∷ l) f (hx, h) (kx, k) =
      (All-map l (λ y q. f x y hx q.0 q.1) (All-both P (R x) l h kx), Pairs-map P l f h k)
