-- ===== src/StateCache/Servers/Update.antt =====
-- update_joined_count from the trees it finds to those it leaves.
use mathlib.Core.List.{map}
use grapevine.Prelude.{
  true, false, [], some, ==_iff, ==_refl, List-Eq, ℕ-Eq, ◌≡◌, sym, subst, ◌∙◌, arith, Option-cases,
  inl, inr, Pairs-filter,
}
use grapevine.Utils.{Bytes, starts_with}
use grapevine.Utils.Utf8.{is_utf8_no_ff}
use grapevine.HashSet.{contains, extend}
use grapevine.HashSet.Laws.{contains-extend}
use grapevine.Database.Order.{IsSorted, bytes_le}
use grapevine.Database.Tree.{KvTree}
use grapevine.Database.Parts.{part, IsPart, same-part, starts_with-part}
use grapevine.StateCache.{Names, oks, has}
use grapevine.StateCache.Scans.{IsName, AreNames, contains-oks, Nodup-oks}
use grapevine.StateCache.Servers.{
  Own, Rooms, room_servers, server_in_room, joined_members, update_joined_count,
}
use grapevine.StateCache.Servers.Joined.{has-both}

module _ (E : KvTree) (N : Names) (O : Own) (s : Rooms E N O) (room : Bytes)
    (room_part : IsPart room)
    (stored : (key v : Bytes)
      → E.get s.roomserverids key ≡ some v
      → starts_with (part room []) key ≡ true
      → (name : Bytes) × (key ≡ part room name) × IsName N.is_server_name name) where
  scanned-AreNames : AreNames N.is_server_name room (E.scan_prefix s.roomserverids (part room []))
  scanned-AreNames key v h =
      stored key v (ground (arith, E.find-scan_prefix s.roomserverids (part room []) key))
        (ground (arith, E.find-scan_prefix s.roomserverids (part room []) key))

  scanned-IsSorted : IsSorted (E.scan_prefix s.roomserverids (part room []))
  scanned-IsSorted = subst IsSorted (sym (E.scan_prefix-iter s.roomserverids (part room []))) (
      Pairs-filter (λ e f. bytes_le f.0 e.0 ≡ false) (λ e. starts_with (part room []) e.0)
        (E.iter s.roomserverids) (E.iter-IsSorted s.roomserverids))

  -- room_servers yields what is stored.
  pub contains-room_servers :
      (server : Bytes)
      → contains server (oks (room_servers E N O s room)) ≡ has E s.roomserverids (part room server)
  unfolding room_servers has starts_with
  contains-room_servers server = ground (
    arith,
    contains-oks N.is_server_name room room_part (E.scan_prefix s.roomserverids (part room []))
        server scanned-AreNames,
    E.find-scan_prefix s.roomserverids (part room []) (part room server),
    starts_with-part room room [] server room_part room_part,
    ==_refl room,
  )

  old-IsPart : (a : Bytes) → contains a (oks (room_servers E N O s room)) ≡ true → IsPart a
  unfolding has starts_with
  old-IsPart a h = elim (Option-cases (E.get s.roomserverids (part room a))) [
    | inl missing ↦ absurd (ground (arith, contains-room_servers a))
    | inr (v, found) ↦
        let prefixed : starts_with (part room []) (part room a) ≡ true =
          ground (arith, starts_with-part room room [] a room_part room_part, ==_refl room) in
        let (name, is, named) = stored (part room a) v found prefixed in
        let same : a ≡ name = ground (
          arith,
          is,
          same-part room room a name room_part room_part,
          ==_refl (part room name),
          ==_iff a name,
        ) in
        subst IsPart (sym same) (is_utf8_no_ff name named.0)
  ]

  -- When the servers of a room stand under valid names that can be read, by room and by server alike,
  -- and its joined members are of servers with such names, then after update_joined_count a server is
  -- in the room, by room and by server, exactly if a joined member is of it.
  pub server_in_room-update_joined_count :
      (server : Bytes)
      → IsName N.is_server_name server
      → ((user : Bytes)
          → contains user (map N.server_name (joined_members E N O s room)) ≡ true
          → IsName N.is_server_name user)
      → (has E s.serverroomids (part server room) ≡ has E s.roomserverids (part room server))
      → (server_in_room E N O (update_joined_count E N O s room) server room
          ≡ contains server (map N.server_name (joined_members E N O s room)))
        × (has E (update_joined_count E N O s room).roomserverids (part room server)
            ≡ contains server (map N.server_name (joined_members E N O s room)))
  unfolding update_joined_count server_in_room contains
  server_in_room-update_joined_count server named members mirror =
      let olds = oks (room_servers E N O s room) in
      let joined = extend (map N.server_name (joined_members E N O s room)) [] in
      let (by_room, by_server) =
        has-both E N O room server room_part named olds joined
          (unfold room_servers in
            Nodup-oks N.is_server_name room room_part (E.scan_prefix s.roomserverids (part room []))
              scanned-IsSorted scanned-AreNames)
          old-IsPart
          (λ a h.
            is_utf8_no_ff a
              (members a (
                ground (
                  arith,
                  contains-extend a (map N.server_name (joined_members E N O s room)) [],
                ))).0)
          s.roomserverids s.serverroomids (sym (contains-room_servers server))
          (mirror ∙ sym (contains-room_servers server)) in
      (
        by_server
            ∙ ground (
              arith,
              contains-extend server (map N.server_name (joined_members E N O s room)) [],
            ),
        by_room
            ∙ ground (
              arith,
              contains-extend server (map N.server_name (joined_members E N O s room)) [],
            ),
      )
