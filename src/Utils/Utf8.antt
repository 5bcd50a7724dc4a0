-- ===== src/Utils/Utf8.antt =====
-- `String::from_utf8`: which byte strings are UTF-8. The bytes that must follow a lead byte are a
-- list of ranges.
use grapevine.Prelude.{
  ℕ, Bool, true, false, ◌&&◌, List, [], ◌∷◌, Option, none, some, ltb, leb, nat_eq, if◌then◌else◌,
  ◌≡◌, refl, arith, ℕ-Eq, Option-cases, inl, inr, Result, ok, err, bad_database,
}
use grapevine.Utils.{Bytes}
use grapevine.HashSet.{contains}

abbrev tail : ℕ × ℕ
tail = (0x80, 0xbf)

follow : ℕ → Option (List (ℕ × ℕ))
follow b =
    if ltb b 0x80
    then some []
    else if ltb b 0xc2
    then none
    else if ltb b 0xe0
    then some (tail ∷ [])
    else if nat_eq b 0xe0
    then some ((0xa0, 0xbf) ∷ tail ∷ [])
    else if nat_eq b 0xed
    then some ((0x80, 0x9f) ∷ tail ∷ [])
    else if ltb b 0xf0
    then some (tail ∷ tail ∷ [])
    else if nat_eq b 0xf0
    then some ((0x90, 0xbf) ∷ tail ∷ tail ∷ [])
    else if ltb b 0xf4
    then some (tail ∷ tail ∷ tail ∷ [])
    else if nat_eq b 0xf4
    then some ((0x80, 0x8f) ∷ tail ∷ tail ∷ [])
    else none

utf8_from : List (ℕ × ℕ) → Bytes → Bool
utf8_from [] [] = true
utf8_from (r ∷ rs) [] = false
utf8_from ((lo, hi) ∷ rs) (b ∷ bs) = leb lo b && (leb b hi && utf8_from rs bs)
utf8_from [] (b ∷ bs) = elim (follow b) [ none ↦ false | some rs ↦ utf8_from rs bs ]

unfoldable pub is_utf8 : Bytes → Bool
unfolding utf8_from follow
is_utf8 = utf8_from []

below_ff : List (ℕ × ℕ) → Bool
below_ff [] = true
below_ff ((lo, hi) ∷ rs) = ltb hi 0xff && below_ff rs

followed_ok : ℕ → Option (List (ℕ × ℕ)) → Bool
followed_ok b none = true
followed_ok b (some rs) = ltb b 0xff && below_ff rs

follow_ok : (b : ℕ) → followed_ok b (follow b) ≡ true
unfolding follow followed_ok below_ff
follow_ok b = ground arith

-- The byte that separates the parts of a key stands in no text.
utf8_no_ff :
    (rs : List (ℕ × ℕ)) (bs : Bytes)
    → below_ff rs ≡ true
    → utf8_from rs bs ≡ true
    → contains 0xff bs ≡ false
unfolding utf8_from contains below_ff followed_ok
utf8_no_ff [] [] below h = refl
utf8_no_ff (r ∷ rs) [] below h = refl
utf8_no_ff ((lo, hi) ∷ rs) (b ∷ bs) below h = ground (arith, utf8_no_ff rs bs)
utf8_no_ff [] (b ∷ bs) below h = elim (Option-cases (follow b)) [
  | inl e ↦ absurd (ground arith)
  | inr (rs, e) ↦ ground (arith, follow_ok b, utf8_no_ff rs bs)
]

pub is_utf8_no_ff : (bs : Bytes) → is_utf8 bs ≡ true → contains 0xff bs ≡ false
unfolding is_utf8 below_ff
is_utf8_no_ff bs h = utf8_no_ff [] bs refl h

-- utils::string_from_bytes, with the error of its callers
unfoldable pub string_from_bytes : Bytes → Result Bytes
string_from_bytes bs = if is_utf8 bs then ok bs else err bad_database
