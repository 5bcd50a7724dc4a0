-- ===== src/Utils.antt =====
-- src/utils.rs: the big-endian byte strings that the database's keys and values are made of, and
-- `calculate_hash`. A byte is a number below 256, and a `u64` a number below 2 ^ 64.
pub mod Laws
pub mod Utf8
pub mod BigEndian
pub mod Decimal
use mathlib.Core.List.{foldl}
use grapevine.Prelude.{
  ℕ, zero, suc, ◌+◌, ◌*◌, ◌/◌, ◌%◌, ◌^◌, ◌<◌, List, [], ◌∷◌, ◌++◌, Option, none, some, All, length,
  nat_eq, if◌then◌else◌, ℕ-Eq, ◌==◌, Bool, true, false, ◌&&◌,
}

abbrev pub Bytes : Type 0
Bytes = List ℕ

-- Every element is a byte.
abbrev pub IsBytes : Bytes → Type 0
IsBytes = All (λ b. b < 256)

abbrev pub u64_mod : ℕ
u64_mod = 2 ^ 64

-- n.to_be_bytes()
unfoldable pub to_be_bytes : ℕ → Bytes
to_be_bytes n =
    (n / 2 ^ 56 % 256)
    ∷ (n / 2 ^ 48 % 256)
    ∷ (n / 2 ^ 40 % 256)
    ∷ (n / 2 ^ 32 % 256)
    ∷ (n / 2 ^ 24 % 256)
    ∷ (n / 2 ^ 16 % 256)
    ∷ (n / 2 ^ 8 % 256)
    ∷ (n % 256)
    ∷ []

-- u64::from_be_bytes(bytes), on the eight bytes of the array
unfoldable pub from_be_bytes : Bytes → ℕ
from_be_bytes = foldl (λ acc b. acc * 256 + b) 0

-- `none` is the `TryFromSliceError` of a slice that has not eight bytes.
unfoldable pub u64_from_bytes : Bytes → Option ℕ
unfolding from_be_bytes
u64_from_bytes bytes = if nat_eq (length bytes) 8 then some (from_be_bytes bytes) else none

-- The number that `increment` starts from: `None` for a missing or a malformed value.
unfoldable pub old_number : Option Bytes → Option ℕ
unfolding u64_from_bytes
old_number none = none
old_number (some bytes) = u64_from_bytes bytes

-- `number + 1` wraps in a release build.
unfoldable pub increment : Option Bytes → Bytes
unfolding old_number to_be_bytes
increment old = to_be_bytes (elim (old_number old) [ some n ↦ (n + 1) % u64_mod | none ↦ 1 ])

-- slice.starts_with(prefix)
unfoldable pub starts_with : Bytes → Bytes → Bool
starts_with [] bs = true
starts_with (p ∷ ps) [] = false
starts_with (p ∷ ps) (b ∷ bs) = (p == b) && starts_with ps bs

-- keys.join(&0xFF)
unfoldable pub join : List Bytes → Bytes
join [] = []
join (k ∷ []) = k
join (k ∷ k' ∷ ks) = k ++ 0xff ∷ join (k' ∷ ks)

-- The digest is the one of the library `ring`, a parameter.
unfoldable pub calculate_hash : (Bytes → Bytes) → List Bytes → Bytes
calculate_hash sha256 keys = sha256 (join keys)
