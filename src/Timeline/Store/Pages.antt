-- ===== src/Timeline/Store/Pages.antt =====
-- What `pdus_until` and `pdus_after` go through: exactly the events of the room before, or after, a
-- position, in the order of the room.
use mathlib.Core.List.{append-nil}
use grapevine.Utils.BigEndian.{bytes_le-to_be_bytes}
use grapevine.Prelude.{
  sym, [], ℕ, ◌<◌, ◌+◌, ◌-◌, true, false, not, List, ◌++◌, map, none, some, ok, List-Eq, ℕ-Eq,
  if◌then◌else◌, Pairs, ◌≡◌, refl, ap, ◌∙◌, arith,
}
use grapevine.Utils.{Bytes, u64_mod, to_be_bytes, starts_with}
use grapevine.LruCache.{LruCache}
use grapevine.Database.Tree.{KvTree, find, iter_page}
use grapevine.Database.Find.{find-page, find-page_stored, iter_page-Pairs}
use grapevine.Database.Order.{Entry, IsSorted, bytes_le, bytes_le-append}
use grapevine.Timeline.{
  PduCount, backfilled, normal, count_le, pdu_id, position_bytes, id_rest, count_raw, count_to_id,
}
use grapevine.Timeline.Id.{IsPosition, bytes_le-position_bytes}
use grapevine.Timeline.Store.{Events, Timeline, pdus_until, pdus_after, read_entry}

-- The positions that `pdus_until` can go back from: -1 must be a position again.
abbrev pub HasBefore : PduCount → Type 0
HasBefore (normal x) = (1 < x) × (x < u64_mod)
HasBefore (backfilled x) = x + 1 < u64_mod

before : PduCount → PduCount
before (normal x) = normal (x - 1)
before (backfilled x) = backfilled (x + 1)

before-IsPosition : (c : PduCount) → HasBefore c → IsPosition (before c)
unfolding before
before-IsPosition (normal x) h = omega arith
before-IsPosition (backfilled x) h = omega arith

id_rest-before : (c : PduCount) → HasBefore c → id_rest c 1 true ≡ position_bytes (before c)
unfolding before id_rest position_bytes
id_rest-before (normal x) h = ap to_be_bytes (omega arith)
id_rest-before (backfilled x) h =
    ap (λ n. to_be_bytes 0 ++ to_be_bytes n) {y = u64_mod - 1 - (x + 1)} (ground arith)

count_le-before : (c d : PduCount) → HasBefore d → count_le c (before d) ≡ not (count_le d c)
unfolding before count_le
count_le-before (normal x) (normal y) h = ground arith
count_le-before (normal x) (backfilled y) h = ground arith
count_le-before (backfilled x) (normal y) h = ground arith
count_le-before (backfilled x) (backfilled y) h = ground arith

-- The positions that `pdus_after` can go on from.
abbrev pub HasAfter : PduCount → Type 0
HasAfter (normal x) = x + 1 < u64_mod
HasAfter (backfilled x) = (0 < x) × (x < u64_mod)

after : PduCount → PduCount
after (normal x) = normal (x + 1)
after (backfilled x) = backfilled (x - 1)

after-IsPosition : (c : PduCount) → HasAfter c → IsPosition (after c)
unfolding after
after-IsPosition (normal x) h = omega arith
after-IsPosition (backfilled x) h = omega arith

id_rest-after : (c : PduCount) → HasAfter c → id_rest c 1 false ≡ position_bytes (after c)
unfolding after id_rest position_bytes
id_rest-after (normal x) h = ap to_be_bytes (omega arith)
id_rest-after (backfilled x) h =
    ap (λ n. to_be_bytes 0 ++ to_be_bytes n) {y = u64_mod - 1 - (x - 1)} (omega arith)

count_le-after : (c d : PduCount) → HasAfter c → count_le (after c) d ≡ not (count_le d c)
unfolding after count_le
count_le-after (normal x) (normal y) h = ground arith
count_le-after (normal x) (backfilled y) h = ground arith
count_le-after (backfilled x) (normal y) h = ground arith
count_le-after (backfilled x) (backfilled y) h = ground arith

first_rest : id_rest (normal 1) 1 true ≡ to_be_bytes 0
unfolding id_rest count_raw
first_rest = ap to_be_bytes (omega arith)

-- No position is at or below the place before the first normal one.
above_first :
    (c : PduCount) → IsPosition c → bytes_le (position_bytes c) (id_rest (normal 1) 1 true) ≡ false
unfolding position_bytes
above_first (normal x) (positive, below) =
    ap (bytes_le (to_be_bytes x)) first_rest
    ∙ ground (arith, bytes_le-to_be_bytes x 0 below (omega arith))
above_first (backfilled x) below =
    let last = to_be_bytes (u64_mod - 1 - x) in
    ap (bytes_le (to_be_bytes 0 ++ last)) (first_rest ∙ sym (append-nil (to_be_bytes 0)))
    ∙ bytes_le-append (to_be_bytes 0) last []
    ∙ (unfold bytes_le in unfold to_be_bytes in refl)

module _ (E : KvTree) (V : Events) (C : LruCache Bytes V.Pdu) (s : Timeline E V C) (user : Bytes)
    (r : ℕ) where
  -- For a normal position above 1, or a backfilled one below 2 ^ 64 - 1, pdus_until reads entries of
  -- the timeline, latest first: for the positions of the room exactly those before `until`, and none
  -- of another room.
  pub pdus_until_lem :
      (until : PduCount)
      → HasBefore until
      → (entries : List Entry) × (pdus_until E V C s user (some r) until
          ≡ ok (map (read_entry E V C user) entries))
        × Pairs (λ e f. bytes_le e.0 f.0 ≡ false) entries
        × ((c : PduCount)
            → IsPosition c
            → find (pdu_id r c) entries
              ≡ (if count_le until c then none else E.get s.pduid_pdu (pdu_id r c)))
        × ((key value : Bytes)
            → find key entries ≡ some value
            → (E.get s.pduid_pdu key ≡ some value) × (starts_with (to_be_bytes r) key ≡ true))
  unfolding pdus_until count_to_id pdu_id
  pdus_until_lem until has = (
    iter_page E s.pduid_pdu (to_be_bytes r) (id_rest until 1 true) true,
    refl,
    (iter_page-Pairs E s.pduid_pdu (to_be_bytes r) (id_rest until 1 true)).1,
    λ c position.
        find-page E s.pduid_pdu (to_be_bytes r) (id_rest until 1 true) (position_bytes c) true
        ∙ ground (
          arith,
          id_rest-before until has,
          bytes_le-position_bytes c (before until) position (before-IsPosition until has),
          count_le-before c until has,
        ),
    λ key value.
        find-page_stored E s.pduid_pdu (to_be_bytes r) (id_rest until 1 true) key value true,
  )

  -- For a normal position below 2 ^ 64 - 1, or a backfilled one above 0, pdus_after reads entries of
  -- the timeline, earliest first: for the positions of the room exactly those after `from`, and none
  -- of another room.
  pub pdus_after_lem :
      (from : PduCount)
      → HasAfter from
      → (entries : List Entry) × (pdus_after E V C s user (some r) from
          ≡ ok (map (read_entry E V C user) entries))
        × IsSorted entries
        × ((c : PduCount)
            → IsPosition c
            → find (pdu_id r c) entries
              ≡ (if count_le c from then none else E.get s.pduid_pdu (pdu_id r c)))
        × ((key value : Bytes)
            → find key entries ≡ some value
            → (E.get s.pduid_pdu key ≡ some value) × (starts_with (to_be_bytes r) key ≡ true))
  unfolding pdus_after count_to_id pdu_id
  pdus_after_lem from has = (
    iter_page E s.pduid_pdu (to_be_bytes r) (id_rest from 1 false) false,
    refl,
    (iter_page-Pairs E s.pduid_pdu (to_be_bytes r) (id_rest from 1 false)).0,
    λ c position.
        find-page E s.pduid_pdu (to_be_bytes r) (id_rest from 1 false) (position_bytes c) false
        ∙ ground (
          arith,
          id_rest-after from has,
          bytes_le-position_bytes (after from) c (after-IsPosition from has) position,
          count_le-after from c has,
        ),
    λ key value.
        find-page_stored E s.pduid_pdu (to_be_bytes r) (id_rest from 1 false) key value false,
  )

  -- Before the first normal position pdus_until finds no position, backfilled or not.
  pub pdus_until_first :
      (entries : List Entry) × (pdus_until E V C s user (some r) (normal 1)
        ≡ ok (map (read_entry E V C user) entries))
      × ((c : PduCount) → IsPosition c → find (pdu_id r c) entries ≡ none)
  unfolding pdus_until count_to_id pdu_id
  pdus_until_first = (
    iter_page E s.pduid_pdu (to_be_bytes r) (id_rest (normal 1) 1 true) true,
    refl,
    λ c position.
        find-page E s.pduid_pdu (to_be_bytes r) (id_rest (normal 1) 1 true) (position_bytes c) true
        ∙ ground (arith, above_first c position),
  )
