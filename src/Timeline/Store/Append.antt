-- ===== src/Timeline/Store/Append.antt =====
-- An event that is appended is in the timeline, and the rest of it stays.
use grapevine.Prelude.{
  ℕ, ◌<◌, Option, some, ok, ==_iff, ==_refl, List-Eq, ℕ-Eq, ◌≡◌, ◌≢◌, arith, Option-cases, inl, inr,
}
use grapevine.Utils.{Bytes, u64_mod}
use grapevine.HashMap.{get-insert}
use grapevine.LruCache.{LruCache}
use grapevine.Database.Tree.{KvTree}
use grapevine.Timeline.{normal, pdu_id}
use grapevine.Timeline.Id.{pdu_count-pdu_id}
use grapevine.Timeline.Store.{
  Events, Timeline, append_pdu, get_pdu_count, get_pdu_in_db, get_non_outlier_pdu, parsed_pdu,
  last_timeline_count,
}

module _ (E : KvTree) (V : Events) (C : LruCache Bytes V.Pdu) (s : Timeline E V C) where
  -- After append_pdu of an event under the id of its room and count, the event has this count and
  -- reads as its JSON, the count is the last of its room, and each other event that is not stored
  -- under this id reads as before.
  pub append_pdu_lem :
      (r count : ℕ) (pdu read : V.Pdu) (json user : Bytes) (room : Option ℕ)
      → 0 < r
      → r < u64_mod
      → count < u64_mod
      → V.from_slice json ≡ some read
      → (get_pdu_count E V C
            (append_pdu E V C s (pdu_id r (normal count)) pdu json count)
            (V.event_id pdu)
          ≡ ok (some (normal count)))
        × (get_pdu_in_db E V C
              (append_pdu E V C s (pdu_id r (normal count)) pdu json count)
              (V.event_id pdu)
            ≡ ok (some read))
        × ((last_timeline_count E V C
              (append_pdu E V C s (pdu_id r (normal count)) pdu json count)
              user
              (V.room_id pdu)
              room).0
            ≡ ok (normal count))
        × ((other : Bytes)
            → V.event_id pdu ≢ other
            → E.get s.eventid_pduid other ≢ some (pdu_id r (normal count))
            → get_pdu_in_db E V C
                (append_pdu E V C s (pdu_id r (normal count)) pdu json count)
                other
              ≡ get_pdu_in_db E V C s other)
  unfolding append_pdu get_pdu_count get_pdu_in_db get_non_outlier_pdu parsed_pdu
      last_timeline_count
  append_pdu_lem r count pdu read json user room pos below u reads =
      let id = pdu_id r (normal count) in
      let event = V.event_id pdu in
      (
        ground (
          arith,
          E.get-insert s.eventid_pduid event id event,
          ==_refl event,
          pdu_count-pdu_id r (normal count) pos below u,
        ),
        ground (
          arith,
          E.get-insert s.eventid_pduid event id event,
          E.get-insert s.pduid_pdu id json id,
          ==_refl event,
          ==_refl id,
          reads,
        ),
        ground (
          arith,
          get-insert s.lasttimelinecount_cache (V.room_id pdu) (normal count) (V.room_id pdu),
          ==_refl (V.room_id pdu),
        ),
        λ other differs elsewhere. elim (Option-cases (E.get s.eventid_pduid other)) [
          | inl missing ↦ ground (
            arith,
            missing,
            E.get-insert s.eventid_pduid event id other,
            E.get-remove s.eventid_outlierpdu event other,
            ==_iff event other,
          )
          | inr (there, found) ↦ ground (
            arith,
            found,
            E.get-insert s.eventid_pduid event id other,
            E.get-insert s.pduid_pdu id json there,
            E.get-remove s.eventid_outlierpdu event other,
            ==_iff event other,
            ==_iff id there,
          )
        ],
      )
