-- ===== src/Utils/BigEndian.antt =====
-- Big-endian byte strings are in the order of their numbers.
use mathlib.Core.List.{foldl}
use grapevine.Prelude.{
  ℕ, ◌+◌, ◌*◌, ◌<◌, leb, [], ◌∷◌, ◌++◌, length, ◌==◌, List-Eq, ℕ-Eq, list_eq, if◌then◌else◌, ◌≡◌,
  sym, ◌∙◌, ap₂, arith,
}
use grapevine.Utils.{Bytes, IsBytes, u64_mod, to_be_bytes, from_be_bytes}
use grapevine.Utils.Laws.{from-to_be_bytes, length-to_be_bytes, to_be_bytes-IsBytes}
use grapevine.Database.Order.{bytes_le}

-- The number that an accumulator comes to over the bytes.
value_from : ℕ → Bytes → ℕ
value_from acc = foldl (λ a b. a * 256 + b) acc

value_from-lt :
    (m n : ℕ) (a b : Bytes)
    → m < n
    → IsBytes a
    → length a ≡ length b
    → value_from m a < value_from n b
unfolding value_from
value_from-lt m n [] [] h u e = h
value_from-lt m n [] (y ∷ b) h u e = absurd (omega arith)
value_from-lt m n (x ∷ a) [] h u e = absurd (omega arith)
value_from-lt m n (x ∷ a) (y ∷ b) h (ux, u) e =
    value_from-lt (m * 256 + x) (n * 256 + y) a b (omega arith) u (omega arith)

bytes_le-value_from :
    (m : ℕ) (a b : Bytes)
    → IsBytes a
    → IsBytes b
    → length a ≡ length b
    → bytes_le a b ≡ leb (value_from m a) (value_from m b)
unfolding bytes_le value_from
bytes_le-value_from m [] [] u v e = ground arith
bytes_le-value_from m [] (y ∷ b) u v e = absurd (omega arith)
bytes_le-value_from m (x ∷ a) [] u v e = absurd (omega arith)
bytes_le-value_from m (x ∷ a) (y ∷ b) (ux, u) (vy, v) e = ground (
  arith,
  bytes_le-value_from (m * 256 + x) a b u v (omega arith),
  value_from-lt (m * 256 + x) (m * 256 + y) a b,
  value_from-lt (m * 256 + y) (m * 256 + x) b a,
)

-- The byte order of two u64 is their order.
pub bytes_le-to_be_bytes :
    (m n : ℕ) → m < u64_mod → n < u64_mod → bytes_le (to_be_bytes m) (to_be_bytes n) ≡ leb m n
unfolding from_be_bytes value_from
bytes_le-to_be_bytes m n hm hn =
    bytes_le-value_from 0 (to_be_bytes m) (to_be_bytes n) (to_be_bytes-IsBytes m)
      (to_be_bytes-IsBytes n) (length-to_be_bytes m ∙ sym (length-to_be_bytes n))
    ∙ ap₂ leb (from-to_be_bytes m hm) (from-to_be_bytes n hn)

-- Keys that start with strings of one length are ordered by these first.
pub bytes_le-first :
    (a b s t : Bytes)
    → length a ≡ length b
    → bytes_le (a ++ s) (b ++ t) ≡ (if a == b then bytes_le s t else bytes_le a b)
unfolding bytes_le list_eq
bytes_le-first [] [] s t e = ground arith
bytes_le-first [] (y ∷ b) s t e = absurd (omega arith)
bytes_le-first (x ∷ a) [] s t e = absurd (omega arith)
bytes_le-first (x ∷ a) (y ∷ b) s t e = ground (arith, bytes_le-first a b s t)
