-- ===== src/Tests/Servers.antt =====
-- A room with a member of another server.
use grapevine.Prelude.{
  true, false, List, [], ◌∷◌, map, ok, ◌≡◌, refl, ℕ-Eq, List-Eq, list_eq, arith, sym, subst, ◌==◌,
  ==_iff, Bool-cases, inl, inr,
}
use grapevine.Utils.{Bytes}
use grapevine.Utils.Utf8.{is_utf8}
use grapevine.HashSet.{contains}
use grapevine.Database.ListTree.{list_tree}
use grapevine.Database.Tree.{find}
use grapevine.Database.Parts.{part, IsPart-nil, IsPart-cons}
use grapevine.StateCache.{Names, Members, oks, has, is_joined, rooms_joined}
use grapevine.StateCache.Scans.{IsName}
use grapevine.StateCache.Prefixes.{rooms_joined_longer}
use grapevine.StateCache.Servers.{Own, Rooms, server_in_room, joined_members, update_joined_count}
use grapevine.StateCache.Servers.Update.{server_in_room-update_joined_count}

-- Each name is valid, and all users are of one server.
abbrev parsers : Names
parsers = record {
  is_user_id = λ name. true;
  is_server_name = λ name. true;
  is_room_id = λ name. true;
  server_name = λ user. 5 ∷ [];
}

abbrev own : Own
own = record { server_name = 4 ∷ []; is_deactivated = λ user. ok false }

abbrev members : Members list_tree
members = record {
  userroomid_joined = (part (1 ∷ 2 ∷ []) (9 ∷ []), []) ∷ [];
  roomuserid_joined = (part (9 ∷ []) (1 ∷ 2 ∷ []), []) ∷ [];
  userroomid_invitestate = [];
  roomuserid_invitecount = [];
  userroomid_leftstate = [];
  roomuserid_leftcount = [];
  roomuseroncejoinedids = [];
  global = [];
}

abbrev rooms : Rooms list_tree parsers own
rooms = record {
  members = members;
  roomid_joinedcount = [];
  roomid_invitedcount = [];
  roomserverids = [];
  serverroomids = [];
  our_real_users_cache = [];
  appservice_in_room_cache = [];
}

rooms_joined_longer_example :
    contains (9 ∷ []) (oks (rooms_joined list_tree parsers members (1 ∷ []))) ≡ true
unfolding is_utf8 is_joined has find list_eq
rooms_joined_longer_example =
    rooms_joined_longer list_tree parsers members (1 ∷ []) (2 ∷ []) (9 ∷ []) (refl, refl) refl

all_five :
    (users : List Bytes) (name : Bytes)
    → contains name (map parsers.server_name users) ≡ true
    → IsName parsers.is_server_name name
unfolding contains is_utf8
all_five [] name h = cc
all_five (user ∷ users) name h = elim (Bool-cases (name == (5 ∷ []))) [
  | inl same ↦ (subst (λ b. is_utf8 b ≡ true) (sym ((==_iff name (5 ∷ [])).0 same)) refl, refl)
  | inr differs ↦ all_five users name (ground arith)
]

server_in_room-update_joined_count_example :
    (server_in_room list_tree parsers own
        (update_joined_count list_tree parsers own rooms (9 ∷ []))
        (5 ∷ [])
        (9 ∷ [])
      ≡ contains
          (5 ∷ [])
          (map parsers.server_name (joined_members list_tree parsers own rooms (9 ∷ []))))
    × (has list_tree
          (update_joined_count list_tree parsers own rooms (9 ∷ [])).roomserverids
          (part (9 ∷ []) (5 ∷ []))
        ≡ contains
            (5 ∷ [])
            (map parsers.server_name (joined_members list_tree parsers own rooms (9 ∷ []))))
unfolding is_utf8 has find
server_in_room-update_joined_count_example =
    server_in_room-update_joined_count list_tree parsers own rooms (9 ∷ [])
      (IsPart-cons 9 [] refl IsPart-nil) (λ key v h k. cc) (5 ∷ []) (refl, refl)
      (all_five (joined_members list_tree parsers own rooms (9 ∷ []))) refl
