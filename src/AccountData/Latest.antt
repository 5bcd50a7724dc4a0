-- ===== src/AccountData/Latest.antt =====
-- The last update of a type of account data is what is read.
use grapevine.Prelude.{
  ℕ, ◌+◌, ◌<◌, true, ◌++◌, Option, some, ok, ==_iff, ==_refl, List-Eq, ℕ-Eq, ◌≡◌, ◌≢◌, arith,
  Option-cases, inl, inr,
}
use grapevine.Utils.{Bytes, u64_mod, to_be_bytes}
use grapevine.Database.Tree.{KvTree}
use grapevine.Database.Parts.{part}
use grapevine.Globals.{current_count}
use grapevine.Globals.Counter.{next_count-current_count}
use grapevine.AccountData.{
  Values, AccountData, data_prefix, remove_previous, update_data, read_value, get_data,
}

-- The key of a type of data.
abbrev pub data_key : Option Bytes → Bytes → Bytes → Bytes
data_key room_id user_id kind = data_prefix room_id user_id ++ kind

module _ (E : KvTree) (J : Values) where
  -- After update_data of a value with a type and content, when the counter can count on, what is stored
  -- under the new id is none of another type's and the id that was stored for the type is no other
  -- type's and not the new one, get_data of the type reads the value, and every other type reads as
  -- before.
  pub get_data-update_data :
      (s : AccountData E J) (room_id : Option Bytes) (user_id event_type : Bytes)
      (value read : J.Value) (count : ℕ)
      → current_count E s.global ≡ ok count
      → count + 1 < u64_mod
      → J.has_type value ≡ true
      → J.has_content value ≡ true
      → J.from_slice (J.to_vec value) ≡ some read
      → ((key : Bytes)
          → E.get s.roomusertype_roomuserdataid key
            ≢ some (data_prefix room_id user_id ++ part (to_be_bytes (count + 1)) event_type))
      → ((key id : Bytes)
          → E.get s.roomusertype_roomuserdataid key ≡ some id
          → E.get s.roomusertype_roomuserdataid (data_key room_id user_id event_type) ≡ some id
          → key ≡ data_key room_id user_id event_type)
      → (t : AccountData E J) × (update_data E J s room_id user_id event_type value ≡ (ok tt, t))
        × (get_data E J t room_id user_id event_type ≡ ok (some read))
        × ((other_room : Option Bytes) (other_user kind : Bytes)
            → data_key room_id user_id event_type ≢ data_key other_room other_user kind
            → get_data E J t other_room other_user kind ≡ get_data E J s other_room other_user kind)
  unfolding update_data get_data
  get_data-update_data s room_id user_id event_type value read count now room typed content reads
        new one =
      let (global, counts, next) = next_count-current_count E s.global count now room in
      let id = data_prefix room_id user_id ++ part (to_be_bytes (count + 1)) event_type in
      let key = data_key room_id user_id event_type in
      let inserted = E.insert s.roomuserdataid_accountdata id (J.to_vec value) in
      let t : AccountData E J = record s {
        global = global;
        roomuserdataid_accountdata =
            remove_previous E J inserted (E.get s.roomusertype_roomuserdataid key);
        roomusertype_roomuserdataid = E.insert s.roomusertype_roomuserdataid key id;
      } in
      (
        t,
        ground (arith, counts, typed, content),
        unfold read_value in
            unfold remove_previous in
            elim (Option-cases (E.get s.roomusertype_roomuserdataid key)) [
              | inl missing ↦ ground (
                arith,
                missing,
                E.get-insert s.roomusertype_roomuserdataid key id key,
                ==_refl key,
                E.get-insert s.roomuserdataid_accountdata id (J.to_vec value) id,
                ==_refl id,
                reads,
              )
              | inr (prev, found) ↦ ground (
                arith,
                found,
                E.get-insert s.roomusertype_roomuserdataid key id key,
                ==_refl key,
                E.get-remove inserted prev id,
                E.get-insert s.roomuserdataid_accountdata id (J.to_vec value) id,
                ==_refl id,
                ==_iff prev id,
                new key,
                reads,
              )
            ],
        λ other_room other_user kind differs.
            let other = data_key other_room other_user kind in
            unfold read_value in
            unfold remove_previous in
            elim (Option-cases (E.get s.roomusertype_roomuserdataid other)) [
              | inl nothing ↦ ground (
                arith,
                nothing,
                E.get-insert s.roomusertype_roomuserdataid key id other,
                ==_iff key other,
              )
              | inr (there, led) ↦ elim (Option-cases (E.get s.roomusertype_roomuserdataid key)) [
                | inl missing ↦ ground (
                  arith,
                  led,
                  missing,
                  E.get-insert s.roomusertype_roomuserdataid key id other,
                  ==_iff key other,
                  E.get-insert s.roomuserdataid_accountdata id (J.to_vec value) there,
                  ==_iff id there,
                  new other,
                )
                | inr (prev, found) ↦ ground (
                  arith,
                  led,
                  found,
                  E.get-insert s.roomusertype_roomuserdataid key id other,
                  ==_iff key other,
                  E.get-remove inserted prev there,
                  E.get-insert s.roomuserdataid_accountdata id (J.to_vec value) there,
                  ==_iff id there,
                  ==_iff prev there,
                  new other,
                  one other there led,
                )
              ]
            ],
      )
