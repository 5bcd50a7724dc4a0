-- ===== src/StateCache.antt =====
-- src/database/key_value/rooms/state_cache.rs: who is in which room, kept by user and by room.
pub mod Membership
pub mod Scans
pub mod Prefixes
pub mod Servers
use grapevine.Prelude.{
  Bool, true, false, List, [], ◌∷◌, ◌++◌, map, Option, none, some, Result, ok, err, ◌>>=◌,
  bad_database, ◌==◌, ℕ-Eq, List-Eq, nat_eq, if◌then◌else◌, ℕ,
}
use grapevine.Utils.{Bytes, to_be_bytes, u64_from_bytes}
use grapevine.Utils.Utf8.{string_from_bytes}
use grapevine.HashSet.{contains}
use grapevine.Database.Tree.{KvTree}
use grapevine.Database.Parts.{part}
use grapevine.Globals.{next_count}

-- key.rsplit(|&b| b == 0xFF).next()
unfoldable pub last_part : Bytes → Bytes
unfolding contains
last_part [] = []
last_part (b ∷ key) =
    let later = last_part key in
    if contains 0xff key then later else if nat_eq b 0xff then key else b ∷ key

-- The parsed name at the end of a key.
unfoldable pub name_of : (Bytes → Bool) → Bytes × Bytes → Result Bytes
unfolding last_part
name_of valid (key, _) = do
  text ← string_from_bytes (last_part key)
  if valid text then ok text else err bad_database

-- filter_map(Result::ok)
unfoldable pub oks : List (Result Bytes) → List Bytes
oks [] = []
oks (ok name ∷ names) = name ∷ oks names
oks (err _ ∷ names) = oks names

-- `parse` of UserId, ServerName and RoomId of ruma, as tests, and the server of a user id.
pub record Names : Type 0 where
  pub is_user_id : Bytes → Bool
  pub is_server_name : Bytes → Bool
  pub is_room_id : Bytes → Bool
  pub server_name : Bytes → Bytes

module _ (E : KvTree) where
  -- The six trees of the memberships, and the counter.
  pub record Members : Type 0 where
    pub userroomid_joined : E.Tree
    pub roomuserid_joined : E.Tree
    pub userroomid_invitestate : E.Tree
    pub roomuserid_invitecount : E.Tree
    pub userroomid_leftstate : E.Tree
    pub roomuserid_leftcount : E.Tree
    pub roomuseroncejoinedids : E.Tree
    pub global : E.Tree

  unfoldable pub mark_as_once_joined : Members → Bytes → Bytes → Members
  mark_as_once_joined s user room = record s {
    roomuseroncejoinedids = E.insert s.roomuseroncejoinedids (part user room) [];
  }

  unfoldable pub mark_as_joined : Members → Bytes → Bytes → Members
  mark_as_joined s user room = record s {
    userroomid_joined = E.insert s.userroomid_joined (part user room) [];
    roomuserid_joined = E.insert s.roomuserid_joined (part room user) [];
    userroomid_invitestate = E.remove s.userroomid_invitestate (part user room);
    roomuserid_invitecount = E.remove s.roomuserid_invitecount (part room user);
    userroomid_leftstate = E.remove s.userroomid_leftstate (part user room);
    roomuserid_leftcount = E.remove s.roomuserid_leftcount (part room user);
  }

  -- `last_state` is the JSON of the stripped state.
  unfoldable pub mark_as_invited : Members → Bytes → Bytes → Bytes → Result Members
  mark_as_invited s user room last_state = do
    (count, global) ← next_count E s.global
    ok (record s {
      userroomid_invitestate = E.insert s.userroomid_invitestate (part user room) last_state;
      roomuserid_invitecount =
          E.insert s.roomuserid_invitecount (part room user) (to_be_bytes count);
      userroomid_joined = E.remove s.userroomid_joined (part user room);
      roomuserid_joined = E.remove s.roomuserid_joined (part room user);
      userroomid_leftstate = E.remove s.userroomid_leftstate (part user room);
      roomuserid_leftcount = E.remove s.roomuserid_leftcount (part room user);
      global = global;
    })

  -- The JSON of an empty array is `[]`.
  unfoldable pub mark_as_left : Members → Bytes → Bytes → Result Members
  mark_as_left s user room = do
    (count, global) ← next_count E s.global
    ok (record s {
      userroomid_leftstate = E.insert s.userroomid_leftstate (part user room) (b'[' ∷ b']' ∷ []);
      roomuserid_leftcount = E.insert s.roomuserid_leftcount (part room user) (to_be_bytes count);
      userroomid_joined = E.remove s.userroomid_joined (part user room);
      roomuserid_joined = E.remove s.roomuserid_joined (part room user);
      userroomid_invitestate = E.remove s.userroomid_invitestate (part user room);
      roomuserid_invitecount = E.remove s.roomuserid_invitecount (part room user);
      global = global;
    })

  unfoldable pub forget : Members → Bytes → Bytes → Members
  forget s room user = record s {
    userroomid_leftstate = E.remove s.userroomid_leftstate (part user room);
    roomuserid_leftcount = E.remove s.roomuserid_leftcount (part room user);
  }

  -- tree.get(&key)?.is_some()
  unfoldable pub has : E.Tree → Bytes → Bool
  has t key = elim (E.get t key) [ none ↦ false | some _ ↦ true ]

  unfoldable pub once_joined : Members → Bytes → Bytes → Bool
  unfolding has
  once_joined s user room = has s.roomuseroncejoinedids (part user room)

  unfoldable pub is_joined : Members → Bytes → Bytes → Bool
  unfolding has
  is_joined s user room = has s.userroomid_joined (part user room)

  unfoldable pub is_invited : Members → Bytes → Bytes → Bool
  unfolding has
  is_invited s user room = has s.userroomid_invitestate (part user room)

  unfoldable pub is_left : Members → Bytes → Bytes → Bool
  unfolding has
  is_left s user room = has s.userroomid_leftstate (part user room)

  -- A count in a tree, as get_invite_count and get_left_count read it.
  unfoldable pub stored_count : E.Tree → Bytes → Result (Option ℕ)
  stored_count t key = elim (E.get t key) [
    | none ↦ ok none
    | some bytes ↦ elim (u64_from_bytes bytes) [ none ↦ err bad_database | some n ↦ ok (some n) ]
  ]

  unfoldable pub get_invite_count : Members → Bytes → Bytes → Result (Option ℕ)
  unfolding stored_count
  get_invite_count s room user = stored_count s.roomuserid_invitecount (part room user)

  unfoldable pub get_left_count : Members → Bytes → Bytes → Result (Option ℕ)
  unfolding stored_count
  get_left_count s room user = stored_count s.roomuserid_leftcount (part room user)

  module _ (N : Names) where
    unfoldable pub room_members : Members → Bytes → List (Result Bytes)
    unfolding name_of
    room_members s room =
        map (name_of N.is_user_id) (E.scan_prefix s.roomuserid_joined (part room []))

    unfoldable pub room_members_invited : Members → Bytes → List (Result Bytes)
    unfolding name_of
    room_members_invited s room =
        map (name_of N.is_user_id) (E.scan_prefix s.roomuserid_invitecount (part room []))

    -- The prefix is the user id with no separator after it.
    unfoldable pub rooms_joined : Members → Bytes → List (Result Bytes)
    unfolding name_of
    rooms_joined s user = map (name_of N.is_room_id) (E.scan_prefix s.userroomid_joined user)
