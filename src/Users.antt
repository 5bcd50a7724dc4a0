-- ===== src/Users.antt =====
-- src/database/key_value/users.rs: accounts, devices with their access tokens, and the events that
-- wait for a device.
pub mod Tokens
pub mod ToDevice
use grapevine.Prelude.{
  ℕ, ◌-◌, Bool, true, false, List, [], ◌∷◌, ◌++◌, map, Option, none, some, Result, ok, err, ◌>>=◌,
  ok_or, bad_database, bad_request, invalid_param, panic, List-Eq, ℕ-Eq, ◌==◌, leb, ltb, length,
  drop, take_while, if◌then◌else◌,
}
use grapevine.Utils.{Bytes, to_be_bytes, u64_from_bytes}
use grapevine.Utils.Utf8.{string_from_bytes}
use grapevine.Database.Tree.{KvTree, increment_key, iter_page, remove_entries}
use grapevine.Database.Parts.{part, split_ff}
use grapevine.Globals.{next_count}
use grapevine.StateCache.{last_part, has}

-- `UserId::parse` as a test, and whether serde_json reads a value as JSON.
pub record Formats : Type 0 where
  pub is_user_id : Bytes → Bool
  pub is_json : Bytes → Bool

-- What the keys of the events for a device start with.
abbrev pub todevice_prefix : Bytes → Bytes → Bytes
todevice_prefix user device = part user (part device [])

module _ (E : KvTree) where
  pub record Users : Type 0 where
    pub userid_password : E.Tree
    pub userid_devicelistversion : E.Tree
    pub userdeviceid_metadata : E.Tree
    pub userdeviceid_token : E.Tree
    pub token_userdeviceid : E.Tree
    pub todeviceid_events : E.Tree
    pub global : E.Tree

  unfoldable pub exists : Users → Bytes → Bool
  unfolding has
  exists s user = has E s.userid_password user

  -- An empty hash is that of a deactivated account.
  unfoldable pub is_deactivated : Users → Bytes → Result Bool
  is_deactivated s user = do
    hash ← ok_or (E.get s.userid_password user) (bad_request invalid_param)
    ok (hash == [])

  -- The first two parts of a value, as user and device.
  unfoldable pub read_device : Formats → Bytes → Result (Option (Bytes × Bytes))
  unfolding string_from_bytes split_ff
  read_device F bytes = do
    rest ← ok_or (split_ff bytes).1 bad_database
    user ← string_from_bytes (split_ff bytes).0
    user_id ← if F.is_user_id user then ok user else err bad_database
    device ← string_from_bytes (split_ff rest).0
    ok (some (user_id, device))

  unfoldable pub find_from_token : Formats → Users → Bytes → Result (Option (Bytes × Bytes))
  unfolding read_device
  find_from_token F s token = elim (E.get s.token_userdeviceid token) [
    | none ↦ ok none
    | some bytes ↦ read_device F bytes
  ]

  -- self.token_userdeviceid without the token of the device, if it has one
  unfoldable pub without_token : Users → Bytes → E.Tree
  without_token s userdeviceid = elim (E.get s.userdeviceid_token userdeviceid) [
    | none ↦ s.token_userdeviceid
    | some old_token ↦ E.remove s.token_userdeviceid old_token
  ]

  -- The assertion is a panic.
  unfoldable pub set_token : Users → Bytes → Bytes → Bytes → Result Users
  unfolding without_token has
  set_token s user device token =
      let userdeviceid = part user device in
      if has E s.userdeviceid_metadata userdeviceid
      then ok (record s {
        userdeviceid_token = E.insert s.userdeviceid_token userdeviceid token;
        token_userdeviceid = E.insert (without_token s userdeviceid) token userdeviceid;
      })
      else err panic

  -- `metadata` is the JSON of the new device.
  unfoldable pub create_device : Users → Bytes → Bytes → Bytes → Bytes → Result Users
  unfolding exists set_token increment_key
  create_device s user device token metadata =
      if exists s user
      then set_token
          (record s {
            userid_devicelistversion = (increment_key E s.userid_devicelistversion user).1;
            userdeviceid_metadata = E.insert s.userdeviceid_metadata (part user device) metadata;
          })
          user device token
      else err panic

  unfoldable pub remove_device : Users → Bytes → Bytes → Users
  unfolding without_token remove_entries increment_key
  remove_device s user device =
      let userdeviceid = part user device in
      record s {
        userdeviceid_token = elim (E.get s.userdeviceid_token userdeviceid) [
          | none ↦ s.userdeviceid_token
          | some _ ↦ E.remove s.userdeviceid_token userdeviceid
        ];
        token_userdeviceid = without_token s userdeviceid;
        todeviceid_events =
            remove_entries E (E.scan_prefix s.todeviceid_events (part userdeviceid []))
              s.todeviceid_events;
        userid_devicelistversion = (increment_key E s.userid_devicelistversion user).1;
        userdeviceid_metadata = E.remove s.userdeviceid_metadata userdeviceid;
      }

  unfoldable pub all_device_ids : Users → Bytes → List (Result Bytes)
  unfolding last_part string_from_bytes
  all_device_ids s user =
      map (λ e. string_from_bytes (last_part e.0))
        (E.scan_prefix s.userdeviceid_metadata (part user []))

  unfoldable pub update_device_metadata : Users → Bytes → Bytes → Bytes → Result Users
  unfolding has increment_key
  update_device_metadata s user device metadata =
      if has E s.userdeviceid_metadata (part user device)
      then ok (record s {
        userid_devicelistversion = (increment_key E s.userid_devicelistversion user).1;
        userdeviceid_metadata = E.insert s.userdeviceid_metadata (part user device) metadata;
      })
      else err panic

  unfoldable pub get_devicelist_version : Users → Bytes → Result (Option ℕ)
  get_devicelist_version s user = elim (E.get s.userid_devicelistversion user) [
    | none ↦ ok none
    | some bytes ↦ do version ← ok_or (u64_from_bytes bytes) bad_database; ok (some version)
  ]

  -- `value` is the JSON of the event.
  unfoldable pub add_to_device_event : Users → Bytes → Bytes → Bytes → Result Users
  add_to_device_event s user device value = do
    (count, global) ← next_count E s.global
    ok (record s {
      global = global;
      todeviceid_events =
          E.insert s.todeviceid_events (todevice_prefix user device ++ to_be_bytes count) value;
    })

  -- Each value as JSON, up to the first that is none.
  unfoldable pub read_events : Formats → List (Bytes × Bytes) → Result (List Bytes)
  read_events F [] = ok []
  read_events F ((_, value) ∷ entries) = do
    event ← if F.is_json value then ok value else err bad_database
    events ← read_events F entries
    ok (event ∷ events)

  unfoldable pub get_to_device_events : Formats → Users → Bytes → Bytes → Result (List Bytes)
  unfolding read_events
  get_to_device_events F s user device =
      read_events F (E.scan_prefix s.todeviceid_events (todevice_prefix user device))

  -- The keys are longer than eight bytes.
  unfoldable pub up_to : ℕ → Bytes × Bytes → Bool
  up_to until (key, _) = elim (u64_from_bytes (drop (length key - 8) key)) [
    | none ↦ false
    | some count ↦ leb count until
  ]

  -- filter_map(Result::ok): the entries with a count
  unfoldable pub counted : List (Bytes × Bytes) → List (Bytes × Bytes)
  counted [] = []
  counted ((key, value) ∷ entries) = elim (u64_from_bytes (drop (length key - 8) key)) [
    | none ↦ counted entries
    | some _ ↦ (key, value) ∷ counted entries
  ]

  unfoldable pub remove_to_device_events : Users → Bytes → Bytes → ℕ → Users
  unfolding remove_entries iter_page up_to counted take_while
  remove_to_device_events s user device until = record s {
    todeviceid_events =
        remove_entries E
          (take_while (up_to until) (
            counted (
              iter_page E s.todeviceid_events (todevice_prefix user device) (to_be_bytes until)
                true)))
          s.todeviceid_events;
  }
