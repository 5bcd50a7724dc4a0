-- ===== src/Utils/Decimal.antt =====
-- Numbers as decimal text: `u64::to_string`, and `str::parse::<u64>`.
use native.Mathlib.Nat.{pow-suc}
use grapevine.Prelude.{
  ℕ, zero, suc, ◌+◌, ◌-◌, ◌*◌, ◌/◌, ◌%◌, ◌^◌, ◌<◌, Bool, true, false, ltb, leb, ◌&&◌, [], ◌∷◌, ◌++◌,
  Option, none, some, if◌then◌else◌, nat_eq, ◌≡◌, refl, ◌∙◌, arith,
}
use grapevine.Utils.{Bytes, u64_mod, starts_with}

-- As many digits at most as the fuel.
unfoldable pub decimal : ℕ → ℕ → Bytes
decimal zero n = []
decimal (suc digits) n =
    let before = decimal digits (n / 10) in
    if ltb n 10 then (b'0' + n) ∷ [] else before ++ (b'0' + n % 10) ∷ []

-- A u64 has twenty digits at most.
unfoldable pub to_string : ℕ → Bytes
unfolding decimal
to_string n = decimal 20 n

-- One more digit, if the number stays a u64.
unfoldable pub push_digit : ℕ → ℕ → Option ℕ
push_digit acc c =
    if leb b'0' c && leb c b'9'
    then (if ltb (acc * 10 + (c - b'0')) u64_mod then some (acc * 10 + (c - b'0')) else none)
    else none

unfoldable pub parse_digits : ℕ → Bytes → Option ℕ
unfolding push_digit
parse_digits acc [] = some acc
parse_digits acc (c ∷ text) = elim (push_digit acc c) [
  | none ↦ none
  | some next ↦ parse_digits next text
]

-- A plus sign may stand before the digits, of which there is one at least.
unfoldable pub parse_u64 : Bytes → Option ℕ
unfolding parse_digits
parse_u64 [] = none
parse_u64 (c ∷ []) = if nat_eq c b'+' then none else parse_digits 0 (c ∷ [])
parse_u64 (c ∷ d ∷ text) =
    if nat_eq c b'+' then parse_digits 0 (d ∷ text) else parse_digits 0 (c ∷ d ∷ text)

parse_digits-snoc :
    (acc : ℕ) (text : Bytes) (c n : ℕ)
    → parse_digits acc text ≡ some n
    → parse_digits acc (text ++ c ∷ []) ≡ push_digit n c
unfolding parse_digits
parse_digits-snoc acc [] c n h = ground (arith, h)
parse_digits-snoc acc (d ∷ text) c n h =
    ground (arith, h, parse_digits-snoc (acc * 10 + (d - b'0')) text c n)

parse_digits-decimal :
    (fuel n : ℕ) → n < 10 ^ fuel → n < u64_mod → parse_digits 0 (decimal fuel n) ≡ some n
unfolding decimal parse_digits
parse_digits-decimal zero n h u = ground (arith, h)
parse_digits-decimal (suc fuel) n h u =
    let shorter : n / 10 < 10 ^ fuel = omega (arith, h, pow-suc 10 fuel) in
    let before = parse_digits-decimal fuel (n / 10) shorter (omega arith) in
    ground (arith, before, parse_digits-snoc 0 (decimal fuel (n / 10)) (b'0' + n % 10) (n / 10))

-- The text of a number has a digit at its start.
starts_digit : Bytes → Bool
starts_digit [] = false
starts_digit (c ∷ text) = leb b'0' c && leb c b'9'

starts_digit-append : (a b : Bytes) → starts_digit a ≡ true → starts_digit (a ++ b) ≡ true
unfolding starts_digit
starts_digit-append [] b h = ground (arith, h)
starts_digit-append (c ∷ a) b h = h

starts_digit-decimal : (fuel n : ℕ) → starts_digit (decimal (suc fuel) n) ≡ true
unfolding starts_digit decimal
starts_digit-decimal zero n = ground arith
starts_digit-decimal (suc fuel) n = ground (
  arith,
  starts_digit-decimal fuel (n / 10),
  starts_digit-append (decimal (suc fuel) (n / 10)) ((b'0' + n % 10) ∷ []),
)

parse_u64-digits : (text : Bytes) → starts_digit text ≡ true → parse_u64 text ≡ parse_digits 0 text
unfolding starts_digit parse_u64
parse_u64-digits [] h = ground (arith, h)
parse_u64-digits (c ∷ []) h = ground (arith, h)
parse_u64-digits (c ∷ d ∷ text) h = ground (arith, h)

pub parse_u64-to_string : (n : ℕ) → n < u64_mod → parse_u64 (to_string n) ≡ some n
unfolding to_string
parse_u64-to_string n h =
    parse_u64-digits (decimal 20 n) (starts_digit-decimal 19 n)
    ∙ parse_digits-decimal 20 n (omega arith) h

no_dash : (text : Bytes) → starts_digit text ≡ true → starts_with (b'-' ∷ []) text ≡ false
unfolding starts_digit starts_with
no_dash [] h = refl
no_dash (c ∷ text) h = ground (arith, h)

-- No text of a number starts with a minus sign.
pub to_string_no_dash : (n : ℕ) → starts_with (b'-' ∷ []) (to_string n) ≡ false
unfolding to_string
to_string_no_dash n = no_dash (decimal 20 n) (starts_digit-decimal 19 n)
