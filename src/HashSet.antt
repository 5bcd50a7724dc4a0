-- ===== src/HashSet.antt =====
-- `std::collections::HashSet`: a list without repetitions, in the order of iteration. An element
-- is put at the end, and the order is one that the program cannot rely on.
pub mod Laws
use grapevine.Prelude.{
  Bool, true, false, List, [], ◌∷◌, Eq, ◌==◌, ◌||◌, ◌&&◌, not, ◌≡◌, if◌then◌else◌, filter, ◌++◌,
}

module _ {ℓ} {A : Type ℓ} ⦃e : Eq A⦄ where
  -- set.contains(x)
  unfoldable pub contains : A → List A → Bool
  contains x [] = false
  contains x (y ∷ s) = (x == y) || contains x s

  -- set.insert(x)
  unfoldable pub insert : A → List A → List A
  insert x s = if contains x s then s else s ++ x ∷ []

  -- set.remove(x); whether x was there is `contains x s`
  unfoldable pub remove : A → List A → List A
  remove x s = filter (λ y. not (x == y)) s

  -- set.extend(xs)
  unfoldable pub extend : List A → List A → List A
  extend [] s = s
  extend (x ∷ xs) s = extend xs (insert x s)

  -- for x in xs { set.remove(x) }
  unfoldable pub remove_all : List A → List A → List A
  remove_all [] s = s
  remove_all (x ∷ xs) s = remove_all xs (remove x s)

  -- s.difference(t)
  unfoldable pub difference : List A → List A → List A
  difference s t = filter (λ x. not (contains x t)) s

  -- The representation has no repetition.
  abbrev pub Nodup : List A → Type 0
  Nodup [] = Unit
  Nodup (x ∷ xs) = (contains x xs ≡ false) × Nodup xs

  -- The two sets have the same elements.
  abbrev pub SameSet : List A → List A → Type ℓ
  SameSet s t = (x : A) → contains x s ≡ contains x t
