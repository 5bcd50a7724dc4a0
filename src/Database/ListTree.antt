-- ===== src/Database/ListTree.antt =====
-- A tree as a list of entries: the laws of `KvTree` can be met, and the tests run.
use grapevine.Prelude.{
  none, some, List, [], ◌∷◌, ◌==◌, ==_iff, List-Eq, ℕ-Eq, ◌≡◌, if◌then◌else◌, arith, filter, not,
  refl, ◌∙◌, All, true, false, if_split, subst, sym, All-map,
}
use grapevine.Utils.{Bytes, starts_with}
use grapevine.Database.Order.{bytes_le, bytes_le_trans, bytes_le_antisym, IsSorted}
use grapevine.Database.Tree.{KvTree, find}

abbrev Entries : Type 0
Entries = List (Bytes × Bytes)

pub without : Bytes → Entries → Entries
without k = filter (λ e. not (k == e.0))

-- The entry at its place among sorted entries, over one with the same key.
unfoldable pub put_sorted : Bytes → Bytes → Entries → Entries
put_sorted k v [] = (k, v) ∷ []
put_sorted k v ((j, w) ∷ t) =
    let later = put_sorted k v t in
    if k == j then (k, v) ∷ t else if bytes_le k j then (k, v) ∷ (j, w) ∷ t else (j, w) ∷ later

unfoldable pub sorted : Entries → Entries
unfolding put_sorted
sorted [] = []
sorted ((k, v) ∷ t) = put_sorted k v (sorted t)

pub with_prefix : Entries → Bytes → Entries
unfolding sorted
with_prefix t p = filter (λ e. starts_with p e.0) (sorted t)

find-put_sorted :
    (k v : Bytes) (t : Entries) (j : Bytes)
    → find j (put_sorted k v t) ≡ (if k == j then some v else find j t)
unfolding find put_sorted
find-put_sorted k v [] j = ground (arith, ==_iff k j, ==_iff j k)
find-put_sorted k v ((i, w) ∷ t) j =
    ground (arith, find-put_sorted k v t j, ==_iff k j, ==_iff j k, ==_iff j i, ==_iff k i)

pub find-sorted : (t : Entries) (j : Bytes) → find j (sorted t) ≡ find j t
unfolding find sorted
find-sorted [] j = refl
find-sorted ((k, v) ∷ t) j =
    find-put_sorted k v (sorted t) j ∙ ground (arith, find-sorted t j, ==_iff k j, ==_iff j k)

-- Entries above a key stay above it when one above it comes.
put_sorted-above :
    (j k v : Bytes) (t : Entries)
    → bytes_le k j ≡ false
    → All (λ e. bytes_le e.0 j ≡ false) t
    → All (λ e. bytes_le e.0 j ≡ false) (put_sorted k v t)
unfolding put_sorted
put_sorted-above j k v [] h above = (h, tt)
put_sorted-above j k v ((i, w) ∷ t) h (hi, above) =
    ground (arith, hi, above, put_sorted-above j k v t h above)

strictly_above : (k j : Bytes) → (k == j) ≡ false → bytes_le k j ≡ true → bytes_le j k ≡ false
strictly_above k j other below = ground (arith, other, below, bytes_le_antisym k j, ==_iff k j)

still_above : (k j i : Bytes) → bytes_le k j ≡ true → bytes_le i j ≡ false → bytes_le i k ≡ false
still_above k j i below above = ground (arith, below, above, bytes_le_trans i k j)

put_sorted-IsSorted : (k v : Bytes) (t : Entries) → IsSorted t → IsSorted (put_sorted k v t)
unfolding put_sorted
put_sorted-IsSorted k v [] h = (tt, tt)
put_sorted-IsSorted k v ((j, w) ∷ t) (above, h) =
    if_split IsSorted (k == j) ((k, v) ∷ t) _
      (λ same.
        (subst (λ i. All (λ e. bytes_le e.0 i ≡ false) t) (sym ((==_iff k j).0 same)) above, h))
      (λ other.
        if_split IsSorted (bytes_le k j) ((k, v) ∷ (j, w) ∷ t) ((j, w) ∷ put_sorted k v t)
          (λ below. (
            (strictly_above k j other below, All-map t (λ e a. still_above k j e.0 below a) above),
            (above, h),
          ))
          (λ beyond. (put_sorted-above j k v t beyond above, put_sorted-IsSorted k v t h)))

pub sorted-IsSorted : (t : Entries) → IsSorted (sorted t)
unfolding sorted
sorted-IsSorted [] = tt
sorted-IsSorted ((k, v) ∷ t) = put_sorted-IsSorted k v (sorted t) (sorted-IsSorted t)

pub find-without :
    (t : Entries) (k j : Bytes) → find j (without k t) ≡ (if k == j then none else find j t)
unfolding find without filter
find-without [] k j = ground arith
find-without ((i, v) ∷ t) k j =
    ground (arith, find-without t k j, ==_iff k i, ==_iff j i, ==_iff k j)

pub find-put :
    (t : Entries) (k v j : Bytes)
    → find j ((k, v) ∷ without k t) ≡ (if k == j then some v else find j t)
unfolding find
find-put t k v j = ground (arith, find-without t k j, ==_iff k j, ==_iff j k)

find-filter :
    (l : Entries) (p j : Bytes)
    → find j (filter (λ e. starts_with p e.0) l) ≡ (if starts_with p j then find j l else none)
unfolding find filter
find-filter [] p j = ground arith
find-filter ((i, v) ∷ l) p j = ground (arith, find-filter l p j, ==_iff j i)

pub find-with_prefix :
    (t : Entries) (p j : Bytes)
    → find j (with_prefix t p) ≡ (if starts_with p j then find j t else none)
unfolding with_prefix
find-with_prefix t p j = find-filter (sorted t) p j ∙ ground (arith, find-sorted t j)

pub with_prefix-sorted :
    (t : Entries) (p : Bytes) → with_prefix t p ≡ filter (λ e. starts_with p e.0) (sorted t)
unfolding with_prefix
with_prefix-sorted t p = refl

-- A tree of entries.
abbrev pub list_tree : KvTree
list_tree = record {
  Tree = List (Bytes × Bytes);
  get = λ t k. find k t;
  insert = λ t k v. (k, v) ∷ without k t;
  remove = λ t k. without k t;
  iter = sorted;
  scan_prefix = with_prefix;
  find-iter = find-sorted;
  iter-IsSorted = sorted-IsSorted;
  scan_prefix-iter = with_prefix-sorted;
  get-insert = find-put;
  get-remove = find-without;
  find-scan_prefix = find-with_prefix;
}
