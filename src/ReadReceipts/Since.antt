-- ===== src/ReadReceipts/Since.antt =====
-- readreceipts_since reads the receipts of a room after a count.
use mathlib.Core.List.{append-nil}
use grapevine.Prelude.{
  some, true, ℕ, ◌+◌, ◌%◌, ◌<◌, false, List, [], ◌∷◌, ◌++◌, map, none, ==_iff, List-Eq, ℕ-Eq, leb,
  ltb, length, if◌then◌else◌, ◌≡◌, sym, ap, ◌∙◌, arith,
}
use grapevine.Utils.{Bytes, u64_mod, to_be_bytes, starts_with}
use grapevine.Utils.Laws.{length-to_be_bytes, to_be_bytes-injective}
use grapevine.Utils.BigEndian.{bytes_le-to_be_bytes, bytes_le-first}
use grapevine.Database.Order.{Entry, IsSorted, bytes_le}
use grapevine.Database.Tree.{KvTree, find, iter_page}
use grapevine.Database.Find.{find-page, find-page_stored, iter_page-Pairs}
use grapevine.Database.Parts.{part}
use grapevine.ReadReceipts.{Receipts, ReadReceipts, readreceipts_since, read_receipt}

-- A count alone is before a count with a user if it is no larger.
bytes_le-count :
    (a b : ℕ) (rest : Bytes)
    → a < u64_mod
    → b < u64_mod
    → bytes_le (to_be_bytes a) (to_be_bytes b ++ rest) ≡ leb a b
unfolding bytes_le
bytes_le-count a b rest ha hb =
    ap (λ l. bytes_le l (to_be_bytes b ++ rest)) (sym (append-nil (to_be_bytes a)))
    ∙ bytes_le-first (to_be_bytes a) (to_be_bytes b) [] rest
        (length-to_be_bytes a ∙ sym (length-to_be_bytes b))
    ∙ ground (
      arith,
      bytes_le-to_be_bytes a b ha hb,
      ==_iff (to_be_bytes a) (to_be_bytes b),
      to_be_bytes-injective a b ha hb,
    )

module _ (E : KvTree) (R : Receipts) (s : ReadReceipts E) (room : Bytes) where
  -- When `since` is below 2 ^ 64 - 1, readreceipts_since reads entries of the tree, in their order: of
  -- the receipts of the room exactly those whose count is above `since`, and none of another room.
  pub readreceipts_since_lem :
      (since : ℕ)
      → since + 1 < u64_mod
      → (entries : List Entry) × (readreceipts_since E R s room since
          ≡ map (read_receipt E R (length (part room []))) entries)
        × IsSorted entries
        × ((count : ℕ) (user : Bytes)
            → count < u64_mod
            → find (part room [] ++ part (to_be_bytes count) user) entries ≡ (
                if ltb since count
                then E.get s.readreceiptid_readreceipt
                    (part room [] ++ part (to_be_bytes count) user)
                else none))
        × ((key value : Bytes)
            → find key entries ≡ some value
            → (E.get s.readreceiptid_readreceipt key ≡ some value)
              × (starts_with (part room []) key ≡ true))
  unfolding readreceipts_since
  readreceipts_since_lem since room_left =
      let t = s.readreceiptid_readreceipt in
      let same : (since + 1) % u64_mod ≡ since + 1 = omega arith in
      (
        iter_page E t (part room []) (to_be_bytes (since + 1)) false,
        ap
            (λ n.
              map (read_receipt E R (length (part room [])))
                (iter_page E t (part room []) (to_be_bytes n) false))
            same,
        (iter_page-Pairs E t (part room []) (to_be_bytes (since + 1))).0,
        λ count user below.
            find-page E t (part room []) (to_be_bytes (since + 1)) (part (to_be_bytes count) user)
              false
            ∙ ground (arith, bytes_le-count (since + 1) count (0xff ∷ user) room_left below),
        λ key value. find-page_stored E t (part room []) (to_be_bytes (since + 1)) key value false,
      )
