-- ===== src/Database/Parts.antt =====
-- Keys of several parts, each but the last followed by the byte 0xFF.
use grapevine.Prelude.{
  ℕ, true, false, ◌&&◌, [], ◌∷◌, ◌++◌, ◌==◌, nat_eq, list_eq, List-Eq, ℕ-Eq, ◌≡◌, refl, arith,
  if◌then◌else◌, Option, none, some,
}
use grapevine.Utils.{Bytes, starts_with}
use grapevine.HashSet.{contains}

-- A part, and what follows its separator.
abbrev pub part : Bytes → Bytes → Bytes
part a k = a ++ 0xff ∷ k

-- A part has no separator in it, as every text in UTF-8.
abbrev pub IsPart : Bytes → Type 0
IsPart a = contains 0xff a ≡ false

pub IsPart-nil : IsPart []
unfolding contains
IsPart-nil = refl

pub IsPart-cons : (b : ℕ) (a : Bytes) → nat_eq 0xff b ≡ false → IsPart a → IsPart (b ∷ a)
unfolding contains
IsPart-cons b a h i = ground arith

-- The bytes up to the first 0xFF, and those behind it if there is one: one step of `splitn`.
unfoldable pub split_ff : Bytes → Bytes × Option Bytes
split_ff [] = ([], none)
split_ff (b ∷ bs) =
    let rest = split_ff bs in if nat_eq b 0xff then ([], some bs) else (b ∷ rest.0, rest.1)

-- The part of a key up to its separator is split off.
pub split_ff-part : (a k : Bytes) → IsPart a → split_ff (part a k) ≡ (a, some k)
unfolding split_ff contains
split_ff-part [] k h = refl
split_ff-part (b ∷ a) k h = ground (arith, split_ff-part a k)

-- A last part is whole.
pub split_ff-IsPart : (a : Bytes) → IsPart a → (split_ff a).0 ≡ a
unfolding split_ff contains
split_ff-IsPart [] h = refl
split_ff-IsPart (b ∷ a) h = ground (arith, split_ff-IsPart a)

-- A prefix of a key agrees with it in the first part, and in what follows.
pub starts_with-part :
    (a b p k : Bytes)
    → IsPart a
    → IsPart b
    → starts_with (part a p) (part b k) ≡ ((a == b) && starts_with p k)
unfolding contains starts_with list_eq
starts_with-part [] [] p k h i = ground arith
starts_with-part [] (y ∷ b) p k h i = ground arith
starts_with-part (x ∷ a) [] p k h i = ground arith
starts_with-part (x ∷ a) (y ∷ b) p k h i = ground (arith, starts_with-part a b p k)

-- Two keys are the same if their first parts are, and what follows.
pub same-part :
    (a b p k : Bytes) → IsPart a → IsPart b → (part a p == part b k) ≡ ((a == b) && (p == k))
unfolding contains list_eq
same-part [] [] p k h i = ground arith
same-part [] (y ∷ b) p k h i = ground arith
same-part (x ∷ a) [] p k h i = ground arith
same-part (x ∷ a) (y ∷ b) p k h i = ground (arith, same-part a b p k)

pub starts_with_longer :
    (p k rest : Bytes) → starts_with p k ≡ true → starts_with p (k ++ rest) ≡ true
unfolding starts_with
starts_with_longer [] k rest h = refl
starts_with_longer (x ∷ p) [] rest h = ground (arith, h)
starts_with_longer (x ∷ p) (y ∷ k) rest h = ground (arith, starts_with_longer p k rest)
