-- ===== src/TransactionIds.antt =====
-- src/database/key_value/transaction_ids.rs: the answers to the transactions that a device has sent.
use grapevine.Prelude.{◌&&◌, [], Option, none, some, ◌==◌, List-Eq, ℕ-Eq, if◌then◌else◌, ◌≡◌, arith}
use grapevine.Utils.{Bytes}
use grapevine.Database.Tree.{KvTree}
use grapevine.Database.Parts.{part, IsPart, same-part}

-- device_id.map(DeviceId::as_bytes).unwrap_or_default()
abbrev pub device_bytes : Option Bytes → Bytes
device_bytes none = []
device_bytes (some device) = device

abbrev pub txn_key : Bytes → Option Bytes → Bytes → Bytes
txn_key user device txn = part user (part (device_bytes device) txn)

module _ (E : KvTree) where
  unfoldable pub add_txnid : E.Tree → Bytes → Option Bytes → Bytes → Bytes → E.Tree
  add_txnid t user device txn answer = E.insert t (txn_key user device txn) answer

  unfoldable pub existing_txnid : E.Tree → Bytes → Option Bytes → Bytes → Option Bytes
  existing_txnid t user device txn = E.get t (txn_key user device txn)

  -- After add_txnid a transaction has the new answer if its user and id are those that were added,
  -- and its device too, where no device counts as the empty one; others have the answer they had.
  pub existing_txnid-add_txnid :
      (t : E.Tree) (user u txn x answer : Bytes) (device d : Option Bytes)
      → IsPart user
      → IsPart u
      → IsPart (device_bytes device)
      → IsPart (device_bytes d)
      → existing_txnid (add_txnid t user device txn answer) u d x ≡ (
          if (user == u) && ((device_bytes device == device_bytes d) && (txn == x))
          then some answer
          else existing_txnid t u d x)
  unfolding add_txnid existing_txnid
  existing_txnid-add_txnid t user u txn x answer device d user_part u_part device_part d_part =
      ground (
        arith,
        E.get-insert t (txn_key user device txn) answer (txn_key u d x),
        same-part user u (part (device_bytes device) txn) (part (device_bytes d) x) user_part
            u_part,
        same-part (device_bytes device) (device_bytes d) txn x device_part d_part,
      )
