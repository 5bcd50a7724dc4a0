-- ===== src/Database/Find.antt =====
-- Where a key is found in what `filter` and `reverse` leave of the entries of a tree.
use mathlib.Core.List.{reverse, reverse-cons}
use grapevine.Prelude.{
  Bool, true, false, ◌&&◌, List, [], ◌∷◌, ◌++◌, none, some, ==_iff, List-Eq, ℕ-Eq, if◌then◌else◌,
  filter, All, ◌≡◌, refl, sym, subst, ap, ◌∙◌, Pairs, Pairs-filter, Pairs-reverse, arith,
}
use grapevine.Utils.{Bytes, starts_with}
use grapevine.Utils.Laws.{starts_with-append}
use grapevine.Database.Tree.{KvTree, find, iter_page}
use grapevine.Database.Order.{
  Entry, IsSorted, bytes_le, bytes_le_refl, bytes_le-append, page-forwards, page-backwards,
}

pub find-filter_key :
    (p : Bytes → Bool) (l : List Entry) (j : Bytes)
    → find j (filter (λ e. p e.0) l) ≡ (if p j then find j l else none)
unfolding find filter
find-filter_key p [] j = ground arith
find-filter_key p ((i, v) ∷ l) j = ground (arith, find-filter_key p l j, ==_iff j i)

find-append :
    (j : Bytes) (l m : List Entry)
    → find j (l ++ m) ≡ elim (find j l) [ none ↦ find j m | some v ↦ some v ]
unfolding find
find-append j [] m = refl
find-append j ((i, v) ∷ l) m = ground (arith, find-append j l m)

-- A key is not found below itself.
pub find_above :
    (j : Bytes) (l : List Entry) → All (λ e. bytes_le e.0 j ≡ false) l → find j l ≡ none
unfolding find
find_above j [] above = refl
find_above j ((i, v) ∷ l) (hi, above) =
    ground (arith, hi, find_above j l above, bytes_le_refl j, ==_iff j i)

pub find-reverse : (j : Bytes) (l : List Entry) → IsSorted l → find j (reverse l) ≡ find j l
unfolding find
find-reverse j [] h = refl
find-reverse j ((i, v) ∷ l) (above, h) =
    ap (find j) (reverse-cons (i, v) l)
    ∙ find-append j (reverse l) ((i, v) ∷ [])
    ∙ ground (arith, find-reverse j l h, ==_iff j i, find_above i l above)

-- What is found in a page: the entries from its key on, or backwards up to it.
pub find-page :
    (E : KvTree) (t : E.Tree) (prefix rest j : Bytes) (backwards : Bool)
    → find (prefix ++ j) (iter_page E t prefix rest backwards) ≡ (
        if (if backwards then bytes_le j rest else bytes_le rest j)
        then E.get t (prefix ++ j)
        else none)
unfolding iter_page
find-page E t prefix rest j true =
    let P = λ (k : Bytes). starts_with prefix k && bytes_le k (prefix ++ rest) in
    ap (find (prefix ++ j)) (page-backwards (E.iter t) (E.iter-IsSorted t) prefix rest)
    ∙ find-filter_key P (reverse (E.iter t)) (prefix ++ j)
    ∙ ground (
      arith,
      find-reverse (prefix ++ j) (E.iter t) (E.iter-IsSorted t),
      E.find-iter t (prefix ++ j),
      starts_with-append prefix j,
      bytes_le-append prefix j rest,
    )
find-page E t prefix rest j false =
    let P = λ (k : Bytes). starts_with prefix k && bytes_le (prefix ++ rest) k in
    ap (find (prefix ++ j)) (page-forwards (E.iter t) (E.iter-IsSorted t) prefix rest)
    ∙ find-filter_key P (E.iter t) (prefix ++ j)
    ∙ ground (
      arith,
      E.find-iter t (prefix ++ j),
      starts_with-append prefix j,
      bytes_le-append prefix rest j,
    )

-- What is found in a page has the prefix, and is in the tree.
pub find-page_stored :
    (E : KvTree) (t : E.Tree) (prefix rest key value : Bytes) (backwards : Bool)
    → find key (iter_page E t prefix rest backwards) ≡ some value
    → (E.get t key ≡ some value) × (starts_with prefix key ≡ true)
unfolding iter_page
find-page_stored E t prefix rest key value true found =
    let P = λ (k : Bytes). starts_with prefix k && bytes_le k (prefix ++ rest) in
    let is =
      sym (find-filter_key P (reverse (E.iter t)) key)
      ∙ sym (ap (find key) (page-backwards (E.iter t) (E.iter-IsSorted t) prefix rest))
      ∙ found in
    let in_tree = find-reverse key (E.iter t) (E.iter-IsSorted t) ∙ E.find-iter t key in
    (ground (arith, is, in_tree), ground (arith, is))
find-page_stored E t prefix rest key value false found =
    let P = λ (k : Bytes). starts_with prefix k && bytes_le (prefix ++ rest) k in
    let is =
      sym (find-filter_key P (E.iter t) key)
      ∙ sym (ap (find key) (page-forwards (E.iter t) (E.iter-IsSorted t) prefix rest))
      ∙ found in
    (ground (arith, is, E.find-iter t key), ground (arith, is))

-- A page is in the order of the keys, or in the opposite one.
pub iter_page-Pairs :
    (E : KvTree) (t : E.Tree) (prefix rest : Bytes)
    → IsSorted (iter_page E t prefix rest false)
      × Pairs (λ e f. bytes_le e.0 f.0 ≡ false) (iter_page E t prefix rest true)
unfolding iter_page
iter_page-Pairs E t prefix rest =
    let l = E.iter t in
    let sorted = E.iter-IsSorted t in
    let ascending = λ (e f : Entry). bytes_le f.0 e.0 ≡ false in
    (
      subst IsSorted (sym (page-forwards l sorted prefix rest)) (
          Pairs-filter ascending (λ e. starts_with prefix e.0 && bytes_le (prefix ++ rest) e.0) l
            sorted),
      subst (Pairs (λ e f. bytes_le e.0 f.0 ≡ false)) (sym (page-backwards l sorted prefix rest)) (
          Pairs-filter (λ e f. bytes_le e.0 f.0 ≡ false)
            (λ e. starts_with prefix e.0 && bytes_le e.0 (prefix ++ rest)) (reverse l)
            (Pairs-reverse ascending l sorted)),
    )
