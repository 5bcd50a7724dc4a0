-- ===== src/HashSet/Laws.antt =====
-- Membership after each set operation, and that each keeps the representation free of repetitions.
use mathlib.Core.List.{append-nil, append_assoc}
use grapevine.Prelude.{
  sym, ◌∙◌, Bool, true, false, List, [], ◌∷◌, Eq, ◌==◌, ==_iff, ==_refl, ◌||◌, ◌&&◌, not, ◌≡◌, refl,
  filter, ◌++◌, arith,
}
use grapevine.HashSet.{contains, insert, remove, extend, remove_all, difference, Nodup}

module _ {ℓ} {A : Type ℓ} ⦃e : Eq A⦄ where
  pub contains-append :
      (x : A) (s t : List A) → contains x (s ++ t) ≡ (contains x s || contains x t)
  unfolding contains
  contains-append x [] t = refl
  contains-append x (y ∷ s) t = ground (arith, contains-append x s t)

  pub contains-insert :
      (x y : A) (s : List A) → contains x (insert y s) ≡ ((x == y) || contains x s)
  unfolding insert contains
  contains-insert x y s = ground (arith, contains-append x s (y ∷ []), ==_iff x y)

  pub contains-filter :
      (x : A) (p : A → Bool) (s : List A) → contains x (filter p s) ≡ (p x && contains x s)
  unfolding contains filter
  contains-filter x p [] = ground arith
  contains-filter x p (y ∷ s) = ground (arith, contains-filter x p s, ==_iff x y)

  pub contains-remove :
      (x y : A) (s : List A) → contains x (remove y s) ≡ (not (x == y) && contains x s)
  unfolding remove
  contains-remove x y s =
      ground (arith, contains-filter x (λ z. not (y == z)) s, ==_iff x y, ==_iff y x)

  pub contains-extend :
      (x : A) (xs s : List A) → contains x (extend xs s) ≡ (contains x xs || contains x s)
  unfolding extend contains
  contains-extend x [] s = refl
  contains-extend x (y ∷ xs) s =
      ground (arith, contains-extend x xs (insert y s), contains-insert x y s)

  pub contains-remove_all :
      (x : A) (xs s : List A) → contains x (remove_all xs s) ≡ (not (contains x xs) && contains x s)
  unfolding remove_all contains
  contains-remove_all x [] s = refl
  contains-remove_all x (y ∷ xs) s =
      ground (arith, contains-remove_all x xs (remove y s), contains-remove x y s)

  pub contains-difference :
      (x : A) (s t : List A) → contains x (difference s t) ≡ (not (contains x t) && contains x s)
  unfolding difference
  contains-difference x s t = contains-filter x (λ y. not (contains y t)) s

  Nodup-filter : (p : A → Bool) (s : List A) → Nodup s → Nodup (filter p s)
  unfolding filter
  Nodup-filter p [] h = tt
  Nodup-filter p (y ∷ s) h = ground (arith, contains-filter y p s, Nodup-filter p s h.1)

  Nodup-append_one : (s : List A) (x : A) → contains x s ≡ false → Nodup s → Nodup (s ++ x ∷ [])
  unfolding contains
  Nodup-append_one [] x c h = (refl, tt)
  Nodup-append_one (y ∷ s) x c h =
      ground (arith, contains-append y s (x ∷ []), ==_iff x y, ==_iff y x, Nodup-append_one s x)

  pub Nodup-insert : (x : A) (s : List A) → Nodup s → Nodup (insert x s)
  unfolding insert
  Nodup-insert x s h = ground (arith, Nodup-append_one s x)

  pub Nodup-remove : (x : A) (s : List A) → Nodup s → Nodup (remove x s)
  unfolding remove
  Nodup-remove x s h = Nodup-filter (λ z. not (x == z)) s h

  pub Nodup-difference : (s t : List A) → Nodup s → Nodup (difference s t)
  unfolding difference
  Nodup-difference s t h = Nodup-filter (λ x. not (contains x t)) s h

  contains_one : (x y : A) → contains y (x ∷ []) ≡ true → x ≡ y
  unfolding contains
  contains_one x y h = ground (arith, ==_iff y x)

  contains_of_eq : (x y : A) (xs : List A) → contains y xs ≡ true → x ≡ y → contains x xs ≡ true
  contains_of_eq x y xs m e = rw e m

  -- Inserting the elements of a set one by one into a set that has none of them keeps the order.
  pub extend-append :
      (xs s : List A)
      → Nodup xs
      → ((x : A) → contains x xs ≡ true → contains x s ≡ false)
      → extend xs s ≡ s ++ xs
  unfolding extend
  extend-append [] s d h = sym (append-nil s)
  extend-append (x ∷ xs) s d h =
      let fresh : contains x s ≡ false = h x (unfold contains in ground (arith, ==_refl x)) in
      let step : insert x s ≡ s ++ x ∷ [] = unfold insert in rw fresh in
      rw step (
        extend-append xs (s ++ x ∷ []) d.1 (λ y m. ground (
          arith,
          contains-append y s (x ∷ []),
          h y (unfold contains in ground (arith, m)),
          contains_one x y,
          d.0,
          contains_of_eq x y xs m,
        ))
        ∙ append_assoc s (x ∷ []) xs)

  pub extend-nil : (xs : List A) → Nodup xs → extend xs [] ≡ xs
  extend-nil xs d = extend-append xs [] d (λ x m. unfold contains in refl)

  pub Nodup-extend : (xs s : List A) → Nodup s → Nodup (extend xs s)
  unfolding extend
  Nodup-extend [] s h = h
  Nodup-extend (x ∷ xs) s h = Nodup-extend xs (insert x s) (Nodup-insert x s h)

  pub Nodup-remove_all : (xs s : List A) → Nodup s → Nodup (remove_all xs s)
  unfolding remove_all
  Nodup-remove_all [] s h = h
  Nodup-remove_all (x ∷ xs) s h = Nodup-remove_all xs (remove x s) (Nodup-remove x s h)
