-- ===== src/Tests/Devices.antt =====
-- A user with one device, a token and an event that waits.
use grapevine.Prelude.{
  ℕ, ◌<◌, true, false, [], ◌∷◌, ◌++◌, none, some, ok, ◌≡◌, ◌≢◌, refl, ℕ-Eq, List-Eq, list_eq, ◌==◌,
  ==_iff, arith, leb, if◌then◌else◌,
}
use grapevine.Utils.{Bytes, u64_mod, to_be_bytes, starts_with}
use grapevine.Utils.Utf8.{is_utf8}
use grapevine.StateCache.{has}
use grapevine.Database.ListTree.{list_tree}
use grapevine.Database.Tree.{find, KvTree}
use grapevine.Database.Parts.{part}
use grapevine.Users.{
  Formats, Users, todevice_prefix, find_from_token, read_device, set_token, remove_device,
  remove_to_device_events,
}
use grapevine.Users.Tokens.{IsTokens, find_from_token-set_token, find_from_token-remove_device}
use grapevine.Users.ToDevice.{remove_to_device_events_lem}

abbrev formats : Formats
formats = record { is_user_id = λ user. true; is_json = λ value. true }

abbrev waiting : Bytes
waiting = todevice_prefix (1 ∷ []) (2 ∷ []) ++ to_be_bytes 7

abbrev users : Users list_tree
users = record {
  userid_password = (1 ∷ [], 3 ∷ []) ∷ [];
  userid_devicelistversion = [];
  userdeviceid_metadata = (part (1 ∷ []) (2 ∷ []), 4 ∷ []) ∷ [];
  userdeviceid_token = (part (1 ∷ []) (2 ∷ []), 5 ∷ []) ∷ [];
  token_userdeviceid = (5 ∷ [], part (1 ∷ []) (2 ∷ [])) ∷ [];
  todeviceid_events = (waiting, 6 ∷ []) ∷ [];
  global = [];
}

users-IsTokens : IsTokens list_tree users
unfolding find
users-IsTokens = record {
  there = λ device token h.
      ground (arith, ==_iff device (part (1 ∷ []) (2 ∷ [])), ==_iff token (5 ∷ []));
  back = λ token device h.
      ground (arith, ==_iff device (part (1 ∷ []) (2 ∷ [])), ==_iff token (5 ∷ []));
}

find_from_token-set_token_example :
    (t : Users list_tree) × (set_token list_tree users (1 ∷ []) (2 ∷ []) (8 ∷ []) ≡ ok t)
    × IsTokens list_tree t
    × (find_from_token list_tree formats t (8 ∷ []) ≡ ok (some (1 ∷ [], 2 ∷ [])))
    × ((other : Bytes)
        → 8 ∷ [] ≢ other
        → find_from_token list_tree formats t other
          ≡ elim (KvTree.get list_tree users.token_userdeviceid other) [
            | none ↦ ok none
            | some led ↦
                if led == part (1 ∷ []) (2 ∷ []) then ok none else read_device list_tree formats led
          ])
unfolding is_utf8 has find list_eq
find_from_token-set_token_example =
    find_from_token-set_token list_tree users users-IsTokens formats (1 ∷ []) (2 ∷ []) (8 ∷ []) refl
      (λ other h. cc) refl refl refl

find_from_token-remove_device_example :
    IsTokens list_tree (remove_device list_tree users (1 ∷ []) (2 ∷ []))
    × (find_from_token list_tree formats (remove_device list_tree users (1 ∷ []) (2 ∷ [])) (5 ∷ [])
        ≡ elim (KvTree.get list_tree users.token_userdeviceid (5 ∷ [])) [
          | none ↦ ok none
          | some other ↦
              if other == part (1 ∷ []) (2 ∷ [])
              then ok none
              else read_device list_tree formats other
        ])
find_from_token-remove_device_example =
    find_from_token-remove_device list_tree users users-IsTokens formats (1 ∷ []) (2 ∷ []) (5 ∷ [])

one_waiting :
    (key v : Bytes)
    → KvTree.get list_tree users.todeviceid_events key ≡ some v
    → starts_with (todevice_prefix (1 ∷ []) (2 ∷ [])) key ≡ true
    → (c : ℕ) × (c < u64_mod) × (key ≡ todevice_prefix (1 ∷ []) (2 ∷ []) ++ to_be_bytes c)
unfolding find
one_waiting key v h k = (7, omega arith, ground (arith, ==_iff key waiting))

remove_to_device_events_lem_example :
    ((c : ℕ)
      → c < u64_mod
      → KvTree.get list_tree
          (remove_to_device_events list_tree users (1 ∷ []) (2 ∷ []) 9).todeviceid_events
          (todevice_prefix (1 ∷ []) (2 ∷ []) ++ to_be_bytes c)
        ≡ (if leb c 9
            then none
            else KvTree.get list_tree users.todeviceid_events
                (todevice_prefix (1 ∷ []) (2 ∷ []) ++ to_be_bytes c)))
    × ((key : Bytes)
        → starts_with (todevice_prefix (1 ∷ []) (2 ∷ [])) key ≡ false
        → KvTree.get list_tree
            (remove_to_device_events list_tree users (1 ∷ []) (2 ∷ []) 9).todeviceid_events
            key
          ≡ KvTree.get list_tree users.todeviceid_events key)
remove_to_device_events_lem_example =
    remove_to_device_events_lem list_tree users (1 ∷ []) (2 ∷ []) 9 (omega arith) one_waiting
