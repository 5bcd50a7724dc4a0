-- ===== src/Tests/Receipts.antt =====
-- A room with one receipt.
use grapevine.Prelude.{
  ℕ, ◌<◌, true, List, [], ◌∷◌, ◌++◌, map, none, some, ◌≡◌, arith, length, ltb, if◌then◌else◌, ℕ-Eq,
  List-Eq,
}
use grapevine.Utils.{Bytes, u64_mod, to_be_bytes, starts_with}
use grapevine.Database.ListTree.{list_tree}
use grapevine.Database.Order.{Entry, IsSorted}
use grapevine.Database.Parts.{part}
use grapevine.Database.Tree.{find, KvTree}
use grapevine.ReadReceipts.{Receipts, ReadReceipts, readreceipts_since, read_receipt}
use grapevine.ReadReceipts.Since.{readreceipts_since_lem}

abbrev formats : Receipts
formats = record { Receipt = Bytes; is_user_id = λ name. true; from_slice = λ bytes. some bytes }

abbrev receipts : ReadReceipts list_tree
receipts = record {
  readreceiptid_readreceipt = (part (9 ∷ []) [] ++ part (to_be_bytes 7) (1 ∷ []), 3 ∷ []) ∷ [];
  roomuserid_privateread = [];
  roomuserid_lastprivatereadupdate = [];
  global = [];
}

readreceipts_since_lem_example :
    (entries : List Entry) × (readreceipts_since list_tree formats receipts (9 ∷ []) 6
      ≡ map (read_receipt list_tree formats (length (part (9 ∷ []) []))) entries)
    × IsSorted entries
    × ((count : ℕ) (user : Bytes)
        → count < u64_mod
        → find (part (9 ∷ []) [] ++ part (to_be_bytes count) user) entries ≡ (
            if ltb 6 count
            then KvTree.get list_tree receipts.readreceiptid_readreceipt
                (part (9 ∷ []) [] ++ part (to_be_bytes count) user)
            else none))
    × ((key value : Bytes)
        → find key entries ≡ some value
        → (KvTree.get list_tree receipts.readreceiptid_readreceipt key ≡ some value)
          × (starts_with (part (9 ∷ []) []) key ≡ true))
readreceipts_since_lem_example =
    readreceipts_since_lem list_tree formats receipts (9 ∷ []) 6 (omega arith)
