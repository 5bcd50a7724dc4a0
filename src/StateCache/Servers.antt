-- ===== src/StateCache/Servers.antt =====
-- update_joined_count: the counts of a room, its servers and our users in it, from its members.
pub mod Joined
pub mod Update
use grapevine.Prelude.{
  ℕ, Bool, true, false, not, ◌&&◌, List, [], ◌∷◌, map, Option, none, some, Result, ok, err, ◌>>=◌,
  panic, ok_or, ◌==◌, List-Eq, ℕ-Eq, filter, length, if◌then◌else◌,
}
use grapevine.Utils.{Bytes, to_be_bytes}
use grapevine.HashSet.{contains, extend, remove}
use grapevine.HashMap.{HashMap}
use grapevine.HashMap
use grapevine.Database.Tree.{KvTree}
use grapevine.Database.Parts.{part}
use grapevine.StateCache.{
  Names, Members, name_of, oks, has, stored_count, room_members, room_members_invited,
}

-- The names of this server, and `users.is_deactivated`.
pub record Own : Type 0 where
  pub server_name : Bytes
  pub is_deactivated : Bytes → Result Bool

-- result.unwrap_or(default)
unfoldable pub unwrap_or : Result Bool → Bool → Bool
unwrap_or (ok b) default = b
unwrap_or (err e) default = default

module _ (E : KvTree) (N : Names) (O : Own) where
  pub record Rooms : Type 0 where
    pub members : Members E
    pub roomid_joinedcount : E.Tree
    pub roomid_invitedcount : E.Tree
    pub roomserverids : E.Tree
    pub serverroomids : E.Tree
    pub our_real_users_cache : HashMap Bytes (List Bytes)
    pub appservice_in_room_cache : HashMap Bytes (HashMap Bytes Bool)

  unfoldable pub room_servers : Rooms → Bytes → List (Result Bytes)
  unfolding name_of
  room_servers s room =
      map (name_of N.is_server_name) (E.scan_prefix s.roomserverids (part room []))

  unfoldable pub server_rooms : Rooms → Bytes → List (Result Bytes)
  unfolding name_of
  server_rooms s server =
      map (name_of N.is_room_id) (E.scan_prefix s.serverroomids (part server []))

  unfoldable pub server_in_room : Rooms → Bytes → Bytes → Bool
  unfolding has
  server_in_room s server room = has E s.serverroomids (part server room)

  unfoldable pub room_joined_count : Rooms → Bytes → Result (Option ℕ)
  unfolding stored_count
  room_joined_count s room = stored_count E s.roomid_joinedcount room

  unfoldable pub room_invited_count : Rooms → Bytes → Result (Option ℕ)
  unfolding stored_count
  room_invited_count s room = stored_count E s.roomid_invitedcount room

  -- A user of this server that is not deactivated.
  unfoldable pub is_real : Bytes → Bool
  unfolding unwrap_or
  is_real user =
      (N.server_name user == O.server_name) && not (unwrap_or (O.is_deactivated user) true)

  -- The servers that are in the room no more are removed; the servers that are left over are new.
  unfoldable pub remove_old :
      Bytes → List Bytes → List Bytes → E.Tree × E.Tree → List Bytes × (E.Tree × E.Tree)
  unfolding contains remove
  remove_old room [] joined_servers trees = (joined_servers, trees)
  remove_old room (old ∷ more) joined_servers (roomserverids, serverroomids) =
      remove_old room more (remove old joined_servers) (
        if contains old joined_servers
        then (roomserverids, serverroomids)
        else (E.remove roomserverids (part room old), E.remove serverroomids (part old room)))

  unfoldable pub insert_new : Bytes → List Bytes → E.Tree × E.Tree → E.Tree × E.Tree
  insert_new room [] trees = trees
  insert_new room (server ∷ more) (roomserverids, serverroomids) =
      insert_new room more
        (E.insert roomserverids (part room server) [], E.insert serverroomids (part server room) [])

  -- The joined members that can be read.
  unfoldable pub joined_members : Rooms → Bytes → List Bytes
  unfolding room_members oks
  joined_members s room = oks (room_members E N s.members room)

  unfoldable pub update_joined_count : Rooms → Bytes → Rooms
  unfolding joined_members room_members_invited is_real room_servers remove_old insert_new extend
  update_joined_count s room =
      let joined = joined_members s room in
      let invited = oks (room_members_invited E N s.members room) in
      let (new_servers, trees) =
        remove_old room (oks (room_servers s room)) (extend (map N.server_name joined) [])
          (s.roomserverids, s.serverroomids) in
      let (roomserverids, serverroomids) = insert_new room new_servers trees in
      record {
        members = s.members;
        roomid_joinedcount = E.insert s.roomid_joinedcount room (to_be_bytes (length joined));
        roomid_invitedcount = E.insert s.roomid_invitedcount room (to_be_bytes (length invited));
        roomserverids = roomserverids;
        serverroomids = serverroomids;
        our_real_users_cache =
            HashMap.insert room (extend (filter is_real joined) []) s.our_real_users_cache;
        appservice_in_room_cache = HashMap.remove room s.appservice_in_room_cache;
      }

  -- The unwrap is of the entry that update_joined_count has put there.
  unfoldable pub get_our_real_users : Rooms → Bytes → Result (List Bytes) × Rooms
  unfolding update_joined_count
  get_our_real_users s room = elim (HashMap.get room s.our_real_users_cache) [
    | some users ↦ (ok users, s)
    | none ↦
        let t = update_joined_count s room in
        (ok_or (HashMap.get room t.our_real_users_cache) panic, t)
  ]
