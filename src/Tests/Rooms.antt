-- ===== src/Tests/Rooms.antt =====
-- A room with two events, and its members.
use grapevine.Prelude.{
  ◌-◌, true, false, List, [], ◌∷◌, map, none, some, ok, ◌≡◌, ◌≢◌, refl, Pairs, ℕ-Eq, List-Eq,
  if◌then◌else◌, arith,
}
use grapevine.Utils.{Bytes, u64_mod, to_be_bytes, starts_with}
use grapevine.LruCache.{LruCache, one_entry}
use grapevine.Database.ListTree.{list_tree}
use grapevine.Database.Order.{Entry, IsSorted, bytes_le}
use grapevine.Database.Parts.{IsPart-nil, IsPart-cons}
use grapevine.Database.Tree.{find, KvTree}
use grapevine.Timeline.{
  count_raw, PduCount, normal, backfilled, pdu_id, stringify, try_from_string, count_le,
}
use grapevine.Timeline.Token.{try_from_string-stringify}
use grapevine.Timeline.Id.{IsPosition, bytes_le-pdu_id}
use grapevine.Timeline.Store.{
  Events, Timeline, pdus_until, pdus_after, read_entry, append_pdu, get_pdu_count, get_pdu_in_db,
  last_timeline_count,
}
use grapevine.Timeline.Store.Pages.{pdus_until_lem, pdus_after_lem}
use grapevine.Timeline.Store.Append.{append_pdu_lem}
use grapevine.StateCache.{Members, is_joined, is_invited, is_left, has}
use grapevine.StateCache.Membership.{
  Roster, Change, join, invite, leave, forget_room, replay, run, run-Shows, Shows, is_at,
}

-- The token -5.
try_from_string-stringify_example : try_from_string (stringify (backfilled 5)) ≡ ok (backfilled 5)
try_from_string-stringify_example = try_from_string-stringify (backfilled 5) (omega arith)

bytes_le-pdu_id_example :
    bytes_le (pdu_id 3 (backfilled 7)) (pdu_id 3 (normal 300))
    ≡ count_le (backfilled 7) (normal 300)
bytes_le-pdu_id_example =
    bytes_le-pdu_id 3 (backfilled 7) (normal 300) (omega arith) (omega arith, omega arith)

-- The position 0 has no predecessor: the offset wraps around to the end of the room.
before_zero : count_raw (normal 0) 1 true ≡ u64_mod - 1
unfolding count_raw
before_zero = refl

-- An event is its id.
abbrev ids : Events
ids = record {
  Pdu = Bytes;
  from_slice = λ json. some json;
  event_id = λ pdu. pdu;
  room_id = λ pdu. 9 ∷ [];
  sender = λ pdu. 1 ∷ [];
  auth_events = λ pdu. [];
  remove_transaction_id = λ pdu. ok pdu;
  add_age = λ pdu. ok pdu;
}

abbrev pdus : LruCache Bytes Bytes
pdus = one_entry

abbrev room : Timeline list_tree ids pdus
room = record {
  pduid_pdu = (pdu_id 3 (normal 6), 60 ∷ []) ∷ (pdu_id 3 (backfilled 5), 50 ∷ []) ∷ [];
  eventid_pduid = (60 ∷ [], pdu_id 3 (normal 6)) ∷ (50 ∷ [], pdu_id 3 (backfilled 5)) ∷ [];
  eventid_outlierpdu = (70 ∷ [], 70 ∷ []) ∷ [];
  lasttimelinecount_cache = [];
  pdu_cache = none;
  userroomid_notificationcount = [];
  userroomid_highlightcount = [];
}

pdus_until_lem_example :
    (entries : List Entry) × (pdus_until list_tree ids pdus room (1 ∷ []) (some 3) (normal 6)
      ≡ ok (map (read_entry list_tree ids pdus (1 ∷ [])) entries))
    × Pairs (λ e f. bytes_le e.0 f.0 ≡ false) entries
    × ((c : PduCount)
        → IsPosition c
        → find (pdu_id 3 c) entries ≡ (
            if count_le (normal 6) c
            then none
            else KvTree.get list_tree room.pduid_pdu (pdu_id 3 c)))
    × ((key value : Bytes)
        → find key entries ≡ some value
        → (KvTree.get list_tree room.pduid_pdu key ≡ some value)
          × (starts_with (to_be_bytes 3) key ≡ true))
pdus_until_lem_example =
    pdus_until_lem list_tree ids pdus room (1 ∷ []) 3 (normal 6) (omega arith, omega arith)

pdus_after_lem_example :
    (entries : List Entry) × (pdus_after list_tree ids pdus room (1 ∷ []) (some 3) (backfilled 5)
      ≡ ok (map (read_entry list_tree ids pdus (1 ∷ [])) entries))
    × IsSorted entries
    × ((c : PduCount)
        → IsPosition c
        → find (pdu_id 3 c) entries ≡ (
            if count_le c (backfilled 5)
            then none
            else KvTree.get list_tree room.pduid_pdu (pdu_id 3 c)))
    × ((key value : Bytes)
        → find key entries ≡ some value
        → (KvTree.get list_tree room.pduid_pdu key ≡ some value)
          × (starts_with (to_be_bytes 3) key ≡ true))
pdus_after_lem_example =
    pdus_after_lem list_tree ids pdus room (1 ∷ []) 3 (backfilled 5) (omega arith, omega arith)

abbrev appended : Timeline list_tree ids pdus
appended = append_pdu list_tree ids pdus room (pdu_id 3 (normal 8)) (70 ∷ []) (70 ∷ []) 8

append_pdu_lem_example :
    (get_pdu_count list_tree ids pdus appended (70 ∷ []) ≡ ok (some (normal 8)))
    × (get_pdu_in_db list_tree ids pdus appended (70 ∷ []) ≡ ok (some (70 ∷ [])))
    × ((last_timeline_count list_tree ids pdus appended (1 ∷ []) (9 ∷ []) (some 3)).0
        ≡ ok (normal 8))
    × ((other : Bytes)
        → (70 ∷ []) ≢ other
        → KvTree.get list_tree room.eventid_pduid other ≢ some (pdu_id 3 (normal 8))
        → get_pdu_in_db list_tree ids pdus appended other
          ≡ get_pdu_in_db list_tree ids pdus room other)
append_pdu_lem_example =
    append_pdu_lem list_tree ids pdus room 3 8 (70 ∷ []) (70 ∷ []) (70 ∷ []) (1 ∷ []) (some 3)
      (omega arith) (omega arith) (omega arith) refl

abbrev nobody : Members list_tree
nobody = record {
  userroomid_joined = [];
  roomuserid_joined = [];
  userroomid_invitestate = [];
  roomuserid_invitecount = [];
  userroomid_leftstate = [];
  roomuserid_leftcount = [];
  roomuseroncejoinedids = [];
  global = [];
}

abbrev no_roster : Roster
no_roster u r = none

nobody-Shows : Shows list_tree no_roster nobody
unfolding is_joined is_invited is_left has is_at find
nobody-Shows = record {
  by_user = λ u r hu hr. (refl, refl, refl);
  by_room = λ u r hu hr. (refl, refl, refl);
}

-- One user is invited and joins, another leaves and forgets the room.
abbrev changes : List Change
changes =
    invite (1 ∷ []) (9 ∷ []) (4 ∷ [])
    ∷ join (1 ∷ []) (9 ∷ [])
    ∷ leave (2 ∷ []) (9 ∷ [])
    ∷ forget_room (2 ∷ []) (9 ∷ [])
    ∷ []

run-Shows_example :
    (t : Members list_tree) × (run list_tree changes nobody ≡ ok t)
    × Shows list_tree (replay changes no_roster) t
run-Shows_example =
    run-Shows list_tree changes no_roster nobody
      (
        (IsPart-cons 1 [] refl IsPart-nil, IsPart-cons 9 [] refl IsPart-nil),
        (
          (IsPart-cons 1 [] refl IsPart-nil, IsPart-cons 9 [] refl IsPart-nil),
          (
            (IsPart-cons 2 [] refl IsPart-nil, IsPart-cons 9 [] refl IsPart-nil),
            ((IsPart-cons 2 [] refl IsPart-nil, IsPart-cons 9 [] refl IsPart-nil), tt),
          ),
        ),
      )
      nobody-Shows
