-- ===== src/Timeline/Store.antt =====
-- The trees of the timeline and the methods over them.
pub mod Pages
pub mod Cached
pub mod Append
use grapevine.Prelude.{
  ℕ, Bool, true, false, List, [], ◌∷◌, ◌++◌, map, Option, none, some, Result, ok, err, ◌>>=◌,
  bad_database, bad_request, not_found, Eq, ℕ-Eq, List-Eq, ◌==◌, if◌then◌else◌, ok_or,
}
use grapevine.Utils.{Bytes}
use grapevine.HashMap.{HashMap, get, insert}
use grapevine.LruCache.{LruCache}
use grapevine.Database.Tree.{KvTree, iter_page, increment_key}
use grapevine.Database.Parts.{part}
use grapevine.Timeline.{PduCount, normal, max_count, pdu_count, count_to_id}

-- `PduEvent` and its JSON, which serde_json reads: the fields that the timeline looks at, and the
-- two changes that it makes for a reader, of src/service/pdu.rs.
pub record Events : Type 1 where
  pub Pdu : Type 0
  pub from_slice : Bytes → Option Pdu
  pub event_id : Pdu → Bytes
  pub room_id : Pdu → Bytes
  pub sender : Pdu → Bytes
  pub auth_events : Pdu → List Bytes
  pub remove_transaction_id : Pdu → Result Pdu
  pub add_age : Pdu → Result Pdu

module _ (E : KvTree) (V : Events) (C : LruCache Bytes V.Pdu) where
  pub record Timeline : Type 0 where
    pub pduid_pdu : E.Tree
    pub eventid_pduid : E.Tree
    pub eventid_outlierpdu : E.Tree
    pub lasttimelinecount_cache : HashMap Bytes PduCount
    pub pdu_cache : C.Cache
    pub userroomid_notificationcount : E.Tree
    pub userroomid_highlightcount : E.Tree

  -- serde_json::from_slice, on a value that may be missing
  unfoldable pub parsed_pdu : Option Bytes → Result (Option V.Pdu)
  parsed_pdu none = ok none
  parsed_pdu (some json) = elim (V.from_slice json) [
    | none ↦ err bad_database
    | some pdu ↦ ok (some pdu)
  ]

  unfoldable pub get_pdu_id : Timeline → Bytes → Option Bytes
  get_pdu_id s event_id = E.get s.eventid_pduid event_id

  unfoldable pub get_pdu_count : Timeline → Bytes → Result (Option PduCount)
  unfolding get_pdu_id
  get_pdu_count s event_id = elim (get_pdu_id s event_id) [
    | none ↦ ok none
    | some id ↦ do count ← pdu_count id; ok (some count)
  ]

  unfoldable pub get_pdu_from_id : Timeline → Bytes → Result (Option V.Pdu)
  unfolding parsed_pdu
  get_pdu_from_id s pdu_id = parsed_pdu (E.get s.pduid_pdu pdu_id)

  unfoldable pub get_non_outlier_pdu : Timeline → Bytes → Result (Option V.Pdu)
  unfolding parsed_pdu
  get_non_outlier_pdu s event_id = elim (E.get s.eventid_pduid event_id) [
    | none ↦ ok none
    | some id ↦ elim (E.get s.pduid_pdu id) [
      | none ↦ err bad_database
      | some json ↦ parsed_pdu (some json)
    ]
  ]

  -- The event in the timeline, or among the outliers.
  unfoldable pub get_pdu_in_db : Timeline → Bytes → Result (Option V.Pdu)
  unfolding get_non_outlier_pdu parsed_pdu
  get_pdu_in_db s event_id = do
    found ← get_non_outlier_pdu s event_id
    elim found [
      | some pdu ↦ ok (some pdu)
      | none ↦ parsed_pdu (E.get s.eventid_outlierpdu event_id)
    ]

  -- The answer, and the state with the answer in the cache.
  unfoldable pub get_pdu : Timeline → Bytes → Result (Option V.Pdu) × Timeline
  unfolding get_pdu_in_db
  get_pdu s event_id =
      let (hit, cache) = C.get_mut s.pdu_cache event_id in
      let s' : Timeline = record s { pdu_cache = cache } in
      elim hit [
        | some pdu ↦ (ok (some pdu), s')
        | none ↦ elim (get_pdu_in_db s' event_id) [
          | err e ↦ (err e, s')
          | ok none ↦ (ok none, s')
          | ok (some pdu) ↦
              (ok (some pdu), record s' { pdu_cache = C.insert s'.pdu_cache event_id pdu })
        ]
      ]

  unfoldable pub append_pdu : Timeline → Bytes → V.Pdu → Bytes → ℕ → Timeline
  append_pdu s pdu_id pdu json count = record s {
    pduid_pdu = E.insert s.pduid_pdu pdu_id json;
    lasttimelinecount_cache = insert (V.room_id pdu) (normal count) s.lasttimelinecount_cache;
    eventid_pduid = E.insert s.eventid_pduid (V.event_id pdu) pdu_id;
    eventid_outlierpdu = E.remove s.eventid_outlierpdu (V.event_id pdu);
  }

  unfoldable pub prepend_backfill_pdu : Timeline → Bytes → Bytes → Bytes → Timeline
  prepend_backfill_pdu s pdu_id event_id json = record s {
    pduid_pdu = E.insert s.pduid_pdu pdu_id json;
    eventid_pduid = E.insert s.eventid_pduid event_id pdu_id;
    eventid_outlierpdu = E.remove s.eventid_outlierpdu event_id;
  }

  -- One entry of an iteration, as the user sees it.
  unfoldable pub read_entry : Bytes → Bytes × Bytes → Result (PduCount × V.Pdu)
  read_entry user (pdu_id, json) = do
    pdu ← ok_or (V.from_slice json) bad_database
    shown ← if V.sender pdu == user then ok pdu else V.remove_transaction_id pdu
    aged ← V.add_age shown
    count ← pdu_count pdu_id
    ok (count, aged)

  -- `room` is the answer of get_shortroomid.
  unfoldable pub pdus_until :
      Timeline → Bytes → Option ℕ → PduCount → Result (List (Result (PduCount × V.Pdu)))
  unfolding read_entry
  pdus_until s user room until = do
    (prefix, rest) ← count_to_id room until 1 true
    ok (map (read_entry user) (iter_page E s.pduid_pdu prefix rest true))

  unfoldable pub pdus_after :
      Timeline → Bytes → Option ℕ → PduCount → Result (List (Result (PduCount × V.Pdu)))
  unfolding read_entry
  pdus_after s user room from = do
    (prefix, rest) ← count_to_id room from 1 false
    ok (map (read_entry user) (iter_page E s.pduid_pdu prefix rest false))

  -- The first that is no error.
  unfoldable pub first_ok : List (Result (PduCount × V.Pdu)) → Option PduCount
  first_ok [] = none
  first_ok (ok (count, _) ∷ pdus) = some count
  first_ok (err _ ∷ pdus) = first_ok pdus

  unfoldable pub last_timeline_count :
      Timeline → Bytes → Bytes → Option ℕ → Result PduCount × Timeline
  unfolding pdus_until first_ok
  last_timeline_count s sender_user room_id room = elim (get room_id s.lasttimelinecount_cache) [
    | some count ↦ (ok count, s)
    | none ↦ elim (pdus_until s sender_user room max_count) [
      | err e ↦ (err e, s)
      | ok pdus ↦ elim (first_ok pdus) [
        | none ↦ (ok (normal 0), s)
        | some count ↦ (
          ok count,
          record s { lasttimelinecount_cache = insert room_id count s.lasttimelinecount_cache },
        )
      ]
    ]
  ]

  -- tree.increment_batch(keys)
  unfoldable pub increment_batch : List Bytes → E.Tree → E.Tree
  unfolding increment_key
  increment_batch [] t = t
  increment_batch (key ∷ keys) t = increment_batch keys (increment_key E t key).1

  unfoldable pub increment_notification_counts :
      Timeline → Bytes → List Bytes → List Bytes → Timeline
  unfolding increment_batch
  increment_notification_counts s room_id notifies highlights = record s {
    userroomid_notificationcount =
        increment_batch (map (λ user. part user room_id) notifies) s.userroomid_notificationcount;
    userroomid_highlightcount =
        increment_batch (map (λ user. part user room_id) highlights) s.userroomid_highlightcount;
  }

module _ (E : KvTree) (V : Events) (C : LruCache Bytes V.Pdu) where
  -- pdu_cache.remove is that of the crate, `forget`.
  unfoldable pub replace_pdu :
      (C.Cache → Bytes → C.Cache) → Timeline E V C → Bytes → Bytes → V.Pdu → Result (Timeline E V C)
  replace_pdu forget s pdu_id pdu_json pdu = elim (E.get s.pduid_pdu pdu_id) [
    | none ↦ err (bad_request not_found)
    | some _ ↦ ok (record s {
      pduid_pdu = E.insert s.pduid_pdu pdu_id pdu_json;
      pdu_cache = forget s.pdu_cache (V.event_id pdu);
    })
  ]
