-- ===== src/Database/Order.antt =====
-- The order of keys, byte by byte, as both engines have it, and what an iteration from a key yields.
use mathlib.Core.List.{reverse}
use grapevine.Prelude.{
  Bool, true, false, ◌&&◌, ◌||◌, List, [], ◌∷◌, ◌++◌, ltb, nat_eq, if◌then◌else◌, filter, Pairs,
  take_while, filter-&&, Pairs-map, All-filter-holds, Pairs-filter, Pairs-reverse,
  take_while-filter, ◌≡◌, refl, ◌∙◌, arith,
}
use grapevine.Utils.{Bytes, starts_with}
use grapevine.Utils.Laws.{starts_with-append}

-- a <= b
unfoldable pub bytes_le : Bytes → Bytes → Bool
bytes_le [] b = true
bytes_le (x ∷ a) [] = false
bytes_le (x ∷ a) (y ∷ b) = ltb x y || (nat_eq x y && bytes_le a b)

abbrev pub Entry : Type 0
Entry = Bytes × Bytes

-- Strictly ascending keys.
abbrev pub IsSorted : List Entry → Type 0
IsSorted = Pairs (λ e f. bytes_le f.0 e.0 ≡ false)

-- tree.iter_from(from, backwards), of the entries of the tree in order
unfoldable pub entries_from : List Entry → Bytes → Bool → List Entry
entries_from l from backwards =
    if backwards
    then filter (λ e. bytes_le e.0 from) (reverse l)
    else filter (λ e. bytes_le from e.0) l

pub bytes_le_total : (a b : Bytes) → bytes_le a b ≡ false → bytes_le b a ≡ true
unfolding bytes_le
bytes_le_total [] b h = ground (arith, h)
bytes_le_total (x ∷ a) [] h = refl
bytes_le_total (x ∷ a) (y ∷ b) h = ground (arith, bytes_le_total a b)

pub bytes_le_refl : (a : Bytes) → bytes_le a a ≡ true
bytes_le_refl a = ground (arith, bytes_le_total a a)

pub bytes_le_antisym : (a b : Bytes) → bytes_le a b ≡ true → bytes_le b a ≡ true → a ≡ b
unfolding bytes_le
bytes_le_antisym [] [] h k = refl
bytes_le_antisym [] (y ∷ b) h k = ground (arith, k)
bytes_le_antisym (x ∷ a) [] h k = ground (arith, h)
bytes_le_antisym (x ∷ a) (y ∷ b) h k = ground (arith, bytes_le_antisym a b)

pub bytes_le_trans :
    (a b c : Bytes) → bytes_le a b ≡ true → bytes_le b c ≡ true → bytes_le a c ≡ true
unfolding bytes_le
bytes_le_trans [] b c h k = refl
bytes_le_trans (x ∷ a) [] c h k = ground (arith, h)
bytes_le_trans (x ∷ a) (y ∷ b) [] h k = ground (arith, k)
bytes_le_trans (x ∷ a) (y ∷ b) (z ∷ c) h k = ground (arith, bytes_le_trans a b c)

pub bytes_le-append : (p a b : Bytes) → bytes_le (p ++ a) (p ++ b) ≡ bytes_le a b
unfolding bytes_le
bytes_le-append [] a b = refl
bytes_le-append (x ∷ p) a b = ground (arith, bytes_le-append p a b)

-- The keys with a prefix stand together.
pub starts_with-between :
    (p a b c : Bytes)
    → starts_with p a ≡ true
    → starts_with p c ≡ true
    → bytes_le a b ≡ true
    → bytes_le b c ≡ true
    → starts_with p b ≡ true
unfolding bytes_le starts_with
starts_with-between [] a b c ha hc h k = refl
starts_with-between (x ∷ p) [] b c ha hc h k = ground (arith, ha)
starts_with-between (x ∷ p) (y ∷ a) b [] ha hc h k = ground (arith, hc)
starts_with-between (x ∷ p) (y ∷ a) [] (z ∷ c) ha hc h k = ground (arith, h)
starts_with-between (x ∷ p) (y ∷ a) (w ∷ b) (z ∷ c) ha hc h k =
    ground (arith, starts_with-between p a b c)

-- An iteration from a key, as long as the keys start with a prefix of that key.
unfoldable pub page : List Entry → Bytes → Bytes → Bool → List Entry
unfolding entries_from
page l prefix rest backwards =
    take_while (λ e. starts_with prefix e.0) (entries_from l (prefix ++ rest) backwards)

module _ (l : List Entry) (sorted : IsSorted l) (prefix rest : Bytes) where
  -- Forwards it has the entries with the prefix from the key on, in order.
  pub page-forwards :
      page l prefix rest false
      ≡ filter (λ e. starts_with prefix e.0 && bytes_le (prefix ++ rest) e.0) l
  unfolding page
  page-forwards =
      take_while-filter (λ e. starts_with prefix e.0)
        (filter (λ e. bytes_le (prefix ++ rest) e.0) l)
        (Pairs-map (λ e. bytes_le (prefix ++ rest) e.0 ≡ true)
          (filter (λ e. bytes_le (prefix ++ rest) e.0) l)
          (λ a b from_a from_b ascending. after a.0 b.0 from_a ascending)
          (All-filter-holds (λ e. bytes_le (prefix ++ rest) e.0) l)
          (Pairs-filter (λ e f. bytes_le f.0 e.0 ≡ false) (λ e. bytes_le (prefix ++ rest) e.0) l
            sorted))
      ∙ filter-&& (λ e. starts_with prefix e.0) (λ e. bytes_le (prefix ++ rest) e.0) l
    where
      after :
          (a b : Bytes)
          → bytes_le (prefix ++ rest) a ≡ true
          → bytes_le b a ≡ false
          → starts_with prefix a ≡ false
          → starts_with prefix b ≡ false
      after a b from ascending fails = ground (
        arith,
        starts_with-append prefix rest,
        bytes_le_total b a,
        starts_with-between prefix (prefix ++ rest) a b,
      )

  -- Backwards it has those up to the key, in the opposite order.
  pub page-backwards :
      page l prefix rest true
      ≡ filter (λ e. starts_with prefix e.0 && bytes_le e.0 (prefix ++ rest)) (reverse l)
  unfolding page
  page-backwards =
      take_while-filter (λ e. starts_with prefix e.0)
        (filter (λ e. bytes_le e.0 (prefix ++ rest)) (reverse l))
        (Pairs-map (λ e. bytes_le e.0 (prefix ++ rest) ≡ true)
          (filter (λ e. bytes_le e.0 (prefix ++ rest)) (reverse l))
          (λ a b to_a to_b descending. before a.0 b.0 to_a descending)
          (All-filter-holds (λ e. bytes_le e.0 (prefix ++ rest)) (reverse l))
          (Pairs-filter (λ e f. bytes_le e.0 f.0 ≡ false) (λ e. bytes_le e.0 (prefix ++ rest))
            (reverse l) (Pairs-reverse (λ e f. bytes_le f.0 e.0 ≡ false) l sorted)))
      ∙ filter-&& (λ e. starts_with prefix e.0) (λ e. bytes_le e.0 (prefix ++ rest)) (reverse l)
    where
      before :
          (a b : Bytes)
          → bytes_le a (prefix ++ rest) ≡ true
          → bytes_le a b ≡ false
          → starts_with prefix a ≡ false
          → starts_with prefix b ≡ false
      before a b to descending fails = ground (
        arith,
        starts_with-append prefix rest,
        bytes_le_total a b,
        starts_with-between prefix b a (prefix ++ rest),
      )
