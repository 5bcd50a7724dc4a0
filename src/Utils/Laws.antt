-- ===== src/Utils/Laws.antt =====
-- The byte strings of numbers are read back, and what is joined is told apart.
use grapevine.Prelude.{ℕ, ◌<◌, [], ◌∷◌, ◌++◌, some, length, arith, ◌≡◌, refl, ap, true}
use grapevine.Utils.{
  Bytes, IsBytes, u64_mod, to_be_bytes, from_be_bytes, u64_from_bytes, starts_with,
}

pub from-to_be_bytes : (n : ℕ) → n < u64_mod → from_be_bytes (to_be_bytes n) ≡ n
unfolding from_be_bytes to_be_bytes
from-to_be_bytes n h = omega arith

pub length-to_be_bytes : (n : ℕ) → length (to_be_bytes n) ≡ 8
unfolding to_be_bytes
length-to_be_bytes n = refl

-- A `u64` that was written to the database is read back.
pub u64_from_bytes-to_be_bytes : (n : ℕ) → n < u64_mod → u64_from_bytes (to_be_bytes n) ≡ some n
unfolding u64_from_bytes to_be_bytes
u64_from_bytes-to_be_bytes n h = ap some (unfold to_be_bytes from_be_bytes in omega arith)

pub to_be_bytes-injective :
    (m n : ℕ) → m < u64_mod → n < u64_mod → to_be_bytes m ≡ to_be_bytes n → m ≡ n
to_be_bytes-injective m n hm hn e =
    cc (ap from_be_bytes e, from-to_be_bytes m hm, from-to_be_bytes n hn)

pub to_be_bytes-IsBytes : (n : ℕ) → IsBytes (to_be_bytes n)
unfolding to_be_bytes
to_be_bytes-IsBytes n = omega arith

-- A number starts with eight zero bytes exactly if it is zero.
pub starts_with-append : (p q : Bytes) → starts_with p (p ++ q) ≡ true
unfolding starts_with
starts_with-append [] q = refl
starts_with-append (b ∷ p) q = ground (arith, starts_with-append p q)
