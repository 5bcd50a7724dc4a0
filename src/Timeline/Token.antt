-- ===== src/Timeline/Token.antt =====
-- The tokens that clients get are read back.
use grapevine.Prelude.{◌<◌, ok, drop, ◌≡◌, arith}
use grapevine.Utils.{u64_mod, starts_with}
use grapevine.Utils.Decimal.{parse_u64-to_string, to_string_no_dash}
use grapevine.Timeline.{PduCount, backfilled, normal, stringify, try_from_string}

-- The number of a count is a u64.
abbrev pub IsCount : PduCount → Type 0
IsCount (backfilled x) = x < u64_mod
IsCount (normal x) = x < u64_mod

-- A pagination token is read back as the position that it was made of.
pub try_from_string-stringify :
    (count : PduCount) → IsCount count → try_from_string (stringify count) ≡ ok count
unfolding try_from_string stringify starts_with drop
try_from_string-stringify (backfilled x) h = ground (arith, parse_u64-to_string x h)
try_from_string-stringify (normal x) h =
    ground (arith, parse_u64-to_string x h, to_string_no_dash x)
