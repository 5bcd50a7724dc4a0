-- ===== src/Globals.antt =====
-- The counter of src/database/key_value/globals.rs: every short id and every position in a stream
-- is a number that `next_count` has handed out.
pub mod Counter
use grapevine.Prelude.{ℕ, List, [], ◌∷◌, Option, none, some, Result, ok, err, bad_database}
use grapevine.Utils.{Bytes, u64_from_bytes}
use grapevine.Database.Tree.{KvTree, increment_key}

-- COUNTER
abbrev pub counter : Bytes
counter = b'c' ∷ []

module _ (E : KvTree) where
  unfoldable pub next_count : E.Tree → Result (ℕ × E.Tree)
  unfolding increment_key
  next_count global =
      let (bytes, global') = increment_key E global counter in
      elim (u64_from_bytes bytes) [ some n ↦ ok (n, global') | none ↦ err bad_database ]

  unfoldable pub current_count : E.Tree → Result ℕ
  current_count global = elim (E.get global counter) [
    | none ↦ ok 0
    | some bytes ↦ elim (u64_from_bytes bytes) [ some n ↦ ok n | none ↦ err bad_database ]
  ]
