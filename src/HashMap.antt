-- ===== src/HashMap.antt =====
-- `std::collections::HashMap` and `BTreeMap`: a list of entries, one for each key.
use grapevine.Prelude.{
  List, [], ◌∷◌, Option, none, some, Eq, ◌==◌, ==_iff, ◌≡◌, if◌then◌else◌, filter, not, arith,
}

abbrev pub HashMap {ℓ} : Type ℓ → Type ℓ → Type ℓ
HashMap K V = List (K × V)

module _ {ℓ} {K V : Type ℓ} ⦃e : Eq K⦄ where
  -- map.get(k)
  unfoldable pub get : K → HashMap K V → Option V
  get k [] = none
  get k ((j, v) ∷ m) = if k == j then some v else get k m

  -- map.remove(k)
  unfoldable pub remove : K → HashMap K V → HashMap K V
  remove k m = filter (λ x. not (k == x.0)) m

  -- map.insert(k, v)
  unfoldable pub insert : K → V → HashMap K V → HashMap K V
  insert k v m = (k, v) ∷ remove k m

  pub get-remove :
      (m : HashMap K V) (k j : K) → get j (remove k m) ≡ (if k == j then none else get j m)
  unfolding get remove filter
  get-remove [] k j = ground arith
  get-remove ((i, v) ∷ m) k j = ground (arith, get-remove m k j, ==_iff k i, ==_iff j i, ==_iff k j)

  pub get-insert :
      (m : HashMap K V) (k : K) (v : V) (j : K)
      → get j (insert k v m) ≡ (if k == j then some v else get j m)
  unfolding get insert
  get-insert m k v j = ground (arith, get-remove m k j, ==_iff k j, ==_iff j k)
