-- ===== src/Timeline.antt =====
-- src/service/rooms/timeline.rs over src/database/key_value/rooms/timeline.rs: the positions of
-- events, their ids and the tokens of them that clients hold, and the stored timeline.
pub mod Token
pub mod Id
pub mod Store
use grapevine.Prelude.{
  ℕ, ◌+◌, ◌-◌, ◌%◌, Bool, true, false, ltb, leb, nat_eq, List, [], ◌∷◌, ◌++◌, Option, none, some,
  Result, ok, err, bad_request, invalid_param, bad_database, panic, Eq, ℕ-Eq, ==_iff, ◌≡◌, ◌↔◌,
  arith, if◌then◌else◌, length, drop, take,
}
use grapevine.Utils.{Bytes, u64_mod, to_be_bytes, from_be_bytes, starts_with}
use grapevine.Utils.Decimal.{to_string, parse_u64}

pub data PduCount : Type 0 where
  backfilled normal : ℕ → PduCount

unfoldable pub same_count : PduCount → PduCount → Bool
same_count (backfilled a) (backfilled b) = nat_eq a b
same_count (normal a) (normal b) = nat_eq a b
same_count _ _ = false

pub same_count_iff : (a b : PduCount) → (same_count a b ≡ true) ↔ (a ≡ b)
unfolding same_count
same_count_iff (backfilled a) (backfilled b) =
    (λ h. ground (arith, ==_iff a b), λ h. ground (arith, ==_iff a b))
same_count_iff (normal a) (normal b) =
    (λ h. ground (arith, ==_iff a b), λ h. ground (arith, ==_iff a b))
same_count_iff (backfilled a) (normal b) = (λ h. cc, λ h. cc)
same_count_iff (normal a) (backfilled b) = (λ h. cc, λ h. cc)

instance abbrev pub PduCount-Eq : Eq PduCount
PduCount-Eq = record { same = same_count; same_iff = same_count_iff }

-- Ord::cmp, as the test a <= b: later backfilled events are earlier in the room.
unfoldable pub count_le : PduCount → PduCount → Bool
count_le (normal s) (normal o) = leb s o
count_le (backfilled s) (backfilled o) = leb o s
count_le (normal s) (backfilled o) = false
count_le (backfilled s) (normal o) = true

-- PduCount::MAX
abbrev pub max_count : PduCount
max_count = normal (u64_mod - 1)

-- PduCount::MIN
abbrev pub min_count : PduCount
min_count = backfilled (u64_mod - 1)

unfoldable pub stringify : PduCount → Bytes
stringify (backfilled x) = b'-' ∷ to_string x
stringify (normal x) = to_string x

unfoldable pub try_from_string : Bytes → Result PduCount
try_from_string token =
    if starts_with (b'-' ∷ []) token
    then elim (parse_u64 (drop 1 token)) [
      | none ↦ err (bad_request invalid_param)
      | some x ↦ ok (backfilled x)
    ]
    else elim (parse_u64 token) [ none ↦ err (bad_request invalid_param) | some x ↦ ok (normal x) ]

-- What follows the short room id in the id of an event.
unfoldable pub position_bytes : PduCount → Bytes
position_bytes (normal count) = to_be_bytes count
position_bytes (backfilled count) = to_be_bytes 0 ++ to_be_bytes (u64_mod - 1 - count)

-- The id under which append_pdu or backfill_pdu stores an event of a room, by its short room id.
unfoldable pub pdu_id : ℕ → PduCount → Bytes
unfolding position_bytes
pdu_id shortroomid count = to_be_bytes shortroomid ++ position_bytes count

-- A slice that starts before the id is a panic.
unfoldable pub pdu_count : Bytes → Result PduCount
unfolding from_be_bytes
pdu_count id =
    let last = from_be_bytes (drop (length id - 8) id) in
    let second_last = from_be_bytes (take 8 (drop (length id - 16) id)) in
    if ltb (length id) 16
    then err panic
    else ok (if nat_eq second_last 0 then backfilled (u64_mod - 1 - last) else normal last)

-- x - offset and x + offset wrap in a release build.
unfoldable pub count_raw : PduCount → ℕ → Bool → ℕ
count_raw (normal x) offset subtract =
    if subtract then (x + u64_mod - offset) % u64_mod else (x + offset) % u64_mod
count_raw (backfilled x) offset subtract =
    let num = u64_mod - 1 - x in
    if subtract
    then (if ltb 0 num then (num + u64_mod - offset) % u64_mod else num)
    else (num + offset) % u64_mod

-- What follows the prefix in the id that `count_to_id` makes.
unfoldable pub id_rest : PduCount → ℕ → Bool → Bytes
unfolding count_raw
id_rest (normal x) offset subtract = to_be_bytes (count_raw (normal x) offset subtract)
id_rest (backfilled x) offset subtract =
    to_be_bytes 0 ++ to_be_bytes (count_raw (backfilled x) offset subtract)

-- count_to_id: the prefix of the room and the rest of the id; `room` is the answer of
-- get_shortroomid.
unfoldable pub count_to_id : Option ℕ → PduCount → ℕ → Bool → Result (Bytes × Bytes)
unfolding id_rest
count_to_id none count offset subtract = err bad_database
count_to_id (some shortroomid) count offset subtract =
    ok (to_be_bytes shortroomid, id_rest count offset subtract)
