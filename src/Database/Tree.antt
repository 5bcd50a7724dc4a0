-- ===== src/Database/Tree.antt =====
-- `KvTree` of src/database/abstraction.rs. The engines behind it are SQLite and RocksDB, so a tree
-- is a parameter: a type of states with the operations of the trait and the laws of a map from
-- keys to values. An engine that fails to read or write is not modelled.
use grapevine.Prelude.{
  Option, none, some, List, [], ◌∷◌, ◌==◌, ==_iff, List-Eq, ℕ-Eq, ◌≡◌, refl, if◌then◌else◌, arith,
  filter, Bool,
}
use grapevine.Utils.{Bytes, starts_with, increment}
use grapevine.Database.Order.{IsSorted, entries_from, page}

-- The value of the first entry with the key.
unfoldable pub find : Bytes → List (Bytes × Bytes) → Option Bytes
find k [] = none
find k ((j, v) ∷ l) = if k == j then some v else find k l

pub record KvTree : Type 1 where
  pub Tree : Type 0
  pub get : Tree → Bytes → Option Bytes
  pub insert : Tree → Bytes → Bytes → Tree
  pub remove : Tree → Bytes → Tree
  pub iter : Tree → List (Bytes × Bytes)
  pub scan_prefix : Tree → Bytes → List (Bytes × Bytes)
  pub get-insert :
      (t : Tree) (k v j : Bytes) → get (insert t k v) j ≡ (if k == j then some v else get t j)
  pub get-remove :
      (t : Tree) (k j : Bytes) → get (remove t k) j ≡ (if k == j then none else get t j)
  -- An iteration has all entries, once each, in the order of their keys.
  pub find-iter : (t : Tree) (j : Bytes) → find j (iter t) ≡ get t j
  pub iter-IsSorted : (t : Tree) → IsSorted (iter t)
  pub scan_prefix-iter :
      (t : Tree) (p : Bytes) → scan_prefix t p ≡ filter (λ e. starts_with p e.0) (iter t)
  -- A scan has exactly the entries whose key starts with the prefix.
  pub find-scan_prefix :
      (t : Tree) (p j : Bytes)
      → find j (scan_prefix t p) ≡ (if starts_with p j then get t j else none)

module _ (E : KvTree) where
  -- tree.iter_from(from, backwards)
  unfoldable pub iter_from : E.Tree → Bytes → Bool → List (Bytes × Bytes)
  unfolding entries_from
  iter_from t from backwards = entries_from (E.iter t) from backwards

  -- tree.iter_from(&(prefix + rest), backwards).take_while(|(k, _)| k.starts_with(&prefix))
  unfoldable pub iter_page : E.Tree → Bytes → Bytes → Bool → List (Bytes × Bytes)
  unfolding page
  iter_page t prefix rest backwards = page (E.iter t) prefix rest backwards

  -- for (key, _) in entries { tree.remove(&key)?; }
  unfoldable pub remove_entries : List (Bytes × Bytes) → E.Tree → E.Tree
  remove_entries [] t = t
  remove_entries ((k, _) ∷ l) t = remove_entries l (E.remove t k)

  -- tree.insert_batch(entries)
  unfoldable pub insert_batch : List (Bytes × Bytes) → E.Tree → E.Tree
  insert_batch [] t = t
  insert_batch ((k, v) ∷ l) t = insert_batch l (E.insert t k v)

  -- tree.increment(key): the new value, and the tree
  unfoldable pub increment_key : E.Tree → Bytes → Bytes × E.Tree
  increment_key t k = let new = increment (E.get t k) in (new, E.insert t k new)

  pub get-remove_entries :
      (l : List (Bytes × Bytes)) (t : E.Tree) (j : Bytes)
      → E.get (remove_entries l t) j ≡ elim (find j l) [ none ↦ E.get t j | some _ ↦ none ]
  unfolding remove_entries find
  get-remove_entries [] t j = refl
  get-remove_entries ((k, v) ∷ l) t j =
      ground
        (arith, get-remove_entries l (E.remove t k) j, E.get-remove t k j, ==_iff k j, ==_iff j k)

  -- Removing what a scan yields removes exactly the keys with the prefix.
  pub get-remove_prefix :
      (t : E.Tree) (p j : Bytes)
      → E.get (remove_entries (E.scan_prefix t p) t) j
        ≡ (if starts_with p j then none else E.get t j)
  get-remove_prefix t p j =
      ground (arith, get-remove_entries (E.scan_prefix t p) t j, E.find-scan_prefix t p j)
