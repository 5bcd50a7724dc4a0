-- ===== src/Timeline/Id.antt =====
-- The ids of events: they are read back as their positions, and are in their order.
use mathlib.Core.List.{append-nil}
use grapevine.Prelude.{
  ℕ, ◌<◌, ◌-◌, ◌+◌, true, false, nat_eq, [], ◌++◌, ok, drop, take, length, ◌==◌, List-Eq, ℕ-Eq,
  ==_iff, ◌≡◌, sym, ◌∙◌, ap, arith, if◌then◌else◌, length-append, drop-past, drop-append_length,
  take-append_length, drop-past, drop-append_length, take-append_length,
}
use grapevine.Utils.{Bytes, u64_mod, to_be_bytes, from_be_bytes}
use grapevine.Utils.Laws.{from-to_be_bytes, length-to_be_bytes, to_be_bytes-injective}
use grapevine.Utils.BigEndian.{bytes_le-to_be_bytes, bytes_le-first}
use grapevine.Database.Order.{bytes_le, bytes_le-append}
use grapevine.Timeline.{PduCount, backfilled, normal, pdu_id, position_bytes, pdu_count, count_le}
use grapevine.Timeline.Token.{IsCount}

-- pdu_count looks at the last sixteen bytes.
pdu_count-last :
    (r a b : Bytes)
    → length a ≡ 8
    → length b ≡ 8
    → pdu_count (r ++ (a ++ b))
      ≡ ok (
          if nat_eq (from_be_bytes a) 0
          then backfilled (u64_mod - 1 - from_be_bytes b)
          else normal (from_be_bytes b))
unfolding pdu_count drop
pdu_count-last r a b la lb =
    let total : length (r ++ (a ++ b)) ≡ length r + 16 =
      omega (arith, length-append r (a ++ b), length-append a b, la, lb) in
    let last : drop (length (r ++ (a ++ b)) - 8) (r ++ (a ++ b)) ≡ b =
      ap (λ n. drop n (r ++ (a ++ b))) (omega (arith, total, la))
      ∙ drop-past r (a ++ b) (length a)
      ∙ drop-append_length a b in
    let second : take 8 (drop (length (r ++ (a ++ b)) - 16) (r ++ (a ++ b))) ≡ a =
      ap (λ n. take 8 (drop n (r ++ (a ++ b)))) (omega (arith, total))
      ∙ ap (take 8) (drop-past r (a ++ b) 0)
      ∙ ap (λ n. take n (a ++ b)) (sym la)
      ∙ take-append_length a b in
    ground (arith, total, last, second)

-- pdu_count reads the position from the id of an event in a room with a positive short id.
pub pdu_count-pdu_id :
    (shortroomid : ℕ) (count : PduCount)
    → 0 < shortroomid
    → shortroomid < u64_mod
    → IsCount count
    → pdu_count (pdu_id shortroomid count) ≡ ok count
unfolding pdu_id
pdu_count-pdu_id shortroomid (normal x) pos h u =
    pdu_count-last [] (to_be_bytes shortroomid) (to_be_bytes x) (length-to_be_bytes shortroomid)
      (length-to_be_bytes x)
    ∙ ground (arith, from-to_be_bytes x u, from-to_be_bytes shortroomid h)
pdu_count-pdu_id shortroomid (backfilled x) pos h u =
    pdu_count-last (to_be_bytes shortroomid) (to_be_bytes 0) (to_be_bytes (u64_mod - 1 - x))
      (length-to_be_bytes 0) (length-to_be_bytes (u64_mod - 1 - x))
    ∙ ground
        (arith, from-to_be_bytes (u64_mod - 1 - x) (omega arith), from-to_be_bytes 0 (omega arith))

-- A position that is no zero: the ids of such positions are in their order.
abbrev pub IsPosition : PduCount → Type 0
IsPosition (backfilled x) = x < u64_mod
IsPosition (normal x) = (0 < x) × (x < u64_mod)

zero_bytes : (x : ℕ) → 0 < x → x < u64_mod → (to_be_bytes 0 == to_be_bytes x) ≡ false
zero_bytes x pos h =
    ground
      (arith, ==_iff (to_be_bytes 0) (to_be_bytes x), to_be_bytes-injective 0 x (omega arith) h)

backfilled_first :
    (x : ℕ) (rest : Bytes)
    → 0 < x
    → x < u64_mod
    → bytes_le (to_be_bytes 0 ++ rest) (to_be_bytes x) ≡ true
backfilled_first x rest pos h =
    ap (bytes_le (to_be_bytes 0 ++ rest)) (sym (append-nil (to_be_bytes x)))
    ∙ bytes_le-first (to_be_bytes 0) (to_be_bytes x) rest []
        (length-to_be_bytes 0 ∙ sym (length-to_be_bytes x))
    ∙ ground (arith, zero_bytes x pos h, bytes_le-to_be_bytes 0 x (omega arith) h)

normal_last :
    (x : ℕ) (rest : Bytes)
    → 0 < x
    → x < u64_mod
    → bytes_le (to_be_bytes x) (to_be_bytes 0 ++ rest) ≡ false
normal_last x rest pos h =
    ap (λ s. bytes_le s (to_be_bytes 0 ++ rest)) (sym (append-nil (to_be_bytes x)))
    ∙ bytes_le-first (to_be_bytes x) (to_be_bytes 0) [] rest
        (length-to_be_bytes x ∙ sym (length-to_be_bytes 0))
    ∙ ground (
      arith,
      zero_bytes x pos h,
      ==_iff (to_be_bytes 0) (to_be_bytes x),
      ==_iff (to_be_bytes x) (to_be_bytes 0),
      bytes_le-to_be_bytes x 0 h (omega arith),
    )

pub bytes_le-position_bytes :
    (a b : PduCount)
    → IsPosition a
    → IsPosition b
    → bytes_le (position_bytes a) (position_bytes b) ≡ count_le a b
unfolding position_bytes count_le
bytes_le-position_bytes (normal x) (normal y) (px, hx) (py, hy) = bytes_le-to_be_bytes x y hx hy
bytes_le-position_bytes (backfilled x) (backfilled y) hx hy =
    let last = u64_mod - 1 in
    bytes_le-append (to_be_bytes 0) (to_be_bytes (last - x)) (to_be_bytes (last - y))
    ∙ bytes_le-to_be_bytes (last - x) (last - y) (omega arith) (omega arith)
    ∙ ground arith
bytes_le-position_bytes (normal x) (backfilled y) (px, hx) hy =
    normal_last x (to_be_bytes (u64_mod - 1 - y)) px hx
bytes_le-position_bytes (backfilled x) (normal y) hx (py, hy) =
    backfilled_first y (to_be_bytes (u64_mod - 1 - x)) py hy

-- In one room the byte order of the ids is the order of the positions.
pub bytes_le-pdu_id :
    (shortroomid : ℕ) (a b : PduCount)
    → IsPosition a
    → IsPosition b
    → bytes_le (pdu_id shortroomid a) (pdu_id shortroomid b) ≡ count_le a b
unfolding pdu_id
bytes_le-pdu_id r a b ha hb =
    bytes_le-append (to_be_bytes r) (position_bytes a) (position_bytes b)
    ∙ bytes_le-position_bytes a b ha hb
