-- ===== src/AccountData.antt =====
-- src/database/key_value/account_data.rs: the account data of a user, in all or in one room.
pub mod Latest
use grapevine.Prelude.{
  ℕ, ◌+◌, ◌%◌, Bool, true, false, ◌||◌, not, List, [], ◌∷◌, ◌++◌, Option, none, some, Result, ok,
  err, ◌>>=◌, bad_database, bad_request, invalid_param, List-Eq, ℕ-Eq, if◌then◌else◌,
}
use grapevine.Utils.{Bytes, u64_mod, to_be_bytes}
use grapevine.Utils.Utf8.{string_from_bytes}
use grapevine.HashMap.{HashMap}
use grapevine.HashMap
use grapevine.Database.Tree.{KvTree, iter_page}
use grapevine.Database.Parts.{part}
use grapevine.Globals.{next_count}
use grapevine.StateCache.{last_part}

-- A JSON value and what serde_json does with it; the types of events are their text.
pub record Values : Type 1 where
  pub Value : Type 0
  pub to_vec : Value → Bytes
  pub from_slice : Bytes → Option Value
  pub has_type : Value → Bool
  pub has_content : Value → Bool

-- room_id.map(ToString::to_string).unwrap_or_default()
unfoldable pub room_text : Option Bytes → Bytes
room_text none = []
room_text (some room_id) = room_id

unfoldable pub data_prefix : Option Bytes → Bytes → Bytes
unfolding room_text
data_prefix room_id user_id = part (room_text room_id) (part user_id [])

module _ (E : KvTree) (J : Values) where
  pub record AccountData : Type 0 where
    pub roomuserdataid_accountdata : E.Tree
    pub roomusertype_roomuserdataid : E.Tree
    pub global : E.Tree

  -- The old entry, if there is one, is removed last.
  unfoldable pub remove_previous : E.Tree → Option Bytes → E.Tree
  remove_previous t none = t
  remove_previous t (some prev) = E.remove t prev

  -- The counter goes on before the value is looked at; an error keeps the state.
  unfoldable pub update_data :
      AccountData → Option Bytes → Bytes → Bytes → J.Value → Result {0} Unit × AccountData
  unfolding data_prefix remove_previous
  update_data s room_id user_id event_type value = elim (next_count E s.global) [
    | err e ↦ (err e, s)
    | ok (count, global) ↦
        let s' : AccountData = record s { global = global } in
        let prefix = data_prefix room_id user_id in
        let roomuserdataid = prefix ++ part (to_be_bytes count) event_type in
        let key = prefix ++ event_type in
        if not (J.has_type value) || not (J.has_content value)
        then (err (bad_request invalid_param), s')
        else (
          ok tt,
          record s' {
            roomuserdataid_accountdata =
                remove_previous
                  (E.insert s.roomuserdataid_accountdata roomuserdataid (J.to_vec value))
                  (E.get s.roomusertype_roomuserdataid key);
            roomusertype_roomuserdataid = E.insert s.roomusertype_roomuserdataid key roomuserdataid;
          },
        )
  ]

  unfoldable pub read_value : Option Bytes → Result (Option J.Value)
  read_value none = ok none
  read_value (some bytes) = elim (J.from_slice bytes) [
    | none ↦ err bad_database
    | some value ↦ ok (some value)
  ]

  unfoldable pub get_data : AccountData → Option Bytes → Bytes → Bytes → Result (Option J.Value)
  unfolding data_prefix read_value
  get_data s room_id user_id kind =
      elim (E.get s.roomusertype_roomuserdataid (data_prefix room_id user_id ++ kind)) [
        | none ↦ ok none
        | some roomuserdataid ↦ read_value (E.get s.roomuserdataid_accountdata roomuserdataid)
      ]

  -- The values of the entries by their type; the first error ends the loop.
  unfoldable pub read_changes :
      List (Bytes × Bytes) → HashMap Bytes J.Value → Result (HashMap Bytes J.Value)
  unfolding string_from_bytes last_part
  read_changes [] userdata = ok userdata
  read_changes ((key, bytes) ∷ entries) userdata = do
    kind ← string_from_bytes (last_part key)
    value ← elim (J.from_slice bytes) [ none ↦ err bad_database | some value ↦ ok value ]
    read_changes entries (HashMap.insert kind value userdata)

  -- since + 1 wraps in a release build.
  unfoldable pub changes_since :
      AccountData → Option Bytes → Bytes → ℕ → Result (HashMap Bytes J.Value)
  unfolding data_prefix read_changes iter_page
  changes_since s room_id user_id since =
      read_changes
        (iter_page E s.roomuserdataid_accountdata (data_prefix room_id user_id)
          (to_be_bytes ((since + 1) % u64_mod)) false)
        []
