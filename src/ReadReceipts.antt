-- ===== src/ReadReceipts.antt =====
-- src/database/key_value/rooms/edus/read_receipt.rs: the receipts of a room by their count, and the
-- private read markers.
pub mod Since
use grapevine.Prelude.{
  ℕ, ◌+◌, ◌%◌, Bool, true, false, List, [], ◌∷◌, ◌++◌, map, Option, none, some, Result, ok, err,
  ◌>>=◌, ok_or, bad_database, List-Eq, ℕ-Eq, ◌==◌, ◌-◌, drop, take, length, if◌then◌else◌,
}
use grapevine.Utils.{Bytes, u64_mod, to_be_bytes, u64_from_bytes}
use grapevine.Utils.Utf8.{string_from_bytes}
use grapevine.Database.Tree.{KvTree, iter_page}
use grapevine.Database.Parts.{part}
use grapevine.Globals.{next_count}
use grapevine.StateCache.{last_part, stored_count}

-- `UserId::parse` as a test, and the JSON object of a receipt without its room_id.
pub record Receipts : Type 1 where
  pub Receipt : Type 0
  pub is_user_id : Bytes → Bool
  pub from_slice : Bytes → Option Receipt

module _ (E : KvTree) where
  pub record ReadReceipts : Type 0 where
    pub readreceiptid_readreceipt : E.Tree
    pub roomuserid_privateread : E.Tree
    pub roomuserid_lastprivatereadupdate : E.Tree
    pub global : E.Tree

  -- The first key whose last part is the user.
  unfoldable pub find_user : Bytes → List (Bytes × Bytes) → Option Bytes
  unfolding last_part
  find_user user [] = none
  find_user user ((key, _) ∷ entries) =
      if last_part key == user then some key else find_user user entries

  unfoldable pub remove_old_receipt : E.Tree → Option Bytes → E.Tree
  remove_old_receipt t none = t
  remove_old_receipt t (some old) = E.remove t old

  -- `event` is the JSON of the receipt.
  unfoldable pub readreceipt_update : ReadReceipts → Bytes → Bytes → Bytes → Result ReadReceipts
  unfolding find_user remove_old_receipt iter_page
  readreceipt_update s user room event =
      let t = s.readreceiptid_readreceipt in
      let old = find_user user (iter_page E t (part room []) (to_be_bytes (u64_mod - 1)) true) in
      do
        (count, global) ← next_count E s.global
        ok (record s {
          global = global;
          readreceiptid_readreceipt =
              E.insert (remove_old_receipt t old) (part room [] ++ part (to_be_bytes count) user)
                event;
        })

  -- One entry: the user, the count and the receipt. The keys are longer than prefix and count.
  unfoldable pub read_receipt : (R : Receipts) → ℕ → Bytes × Bytes → Result (Bytes × ℕ × R.Receipt)
  unfolding string_from_bytes
  read_receipt R prefix_len (key, value) = do
    count ← ok_or (u64_from_bytes (take 8 (drop prefix_len key))) bad_database
    name ← string_from_bytes (drop (prefix_len + 8 + 1) key)
    user ← if R.is_user_id name then ok name else err bad_database
    receipt ← ok_or (R.from_slice value) bad_database
    ok (user, count, receipt)

  -- since + 1 wraps in a release build.
  unfoldable pub readreceipts_since :
      (R : Receipts) → ReadReceipts → Bytes → ℕ → List (Result (Bytes × ℕ × R.Receipt))
  unfolding read_receipt iter_page
  readreceipts_since R s room since = map (read_receipt R (length (part room []))) (
      iter_page E s.readreceiptid_readreceipt (part room []) (to_be_bytes ((since + 1) % u64_mod))
        false)

  unfoldable pub private_read_set : ReadReceipts → Bytes → Bytes → ℕ → Result ReadReceipts
  private_read_set s room user count = do
    (update, global) ← next_count E s.global
    ok (record s {
      global = global;
      roomuserid_privateread =
          E.insert s.roomuserid_privateread (part room user) (to_be_bytes count);
      roomuserid_lastprivatereadupdate =
          E.insert s.roomuserid_lastprivatereadupdate (part room user) (to_be_bytes update);
    })

  unfoldable pub private_read_get : ReadReceipts → Bytes → Bytes → Result (Option ℕ)
  unfolding stored_count
  private_read_get s room user = stored_count E s.roomuserid_privateread (part room user)

  unfoldable pub last_privateread_update : ReadReceipts → Bytes → Bytes → Result ℕ
  unfolding stored_count
  last_privateread_update s user room = do
    stored ← stored_count E s.roomuserid_lastprivatereadupdate (part room user)
    elim stored [ none ↦ ok 0 | some count ↦ ok count ]
