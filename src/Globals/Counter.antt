-- ===== src/Globals/Counter.antt =====
-- `next_count` hands out the successor of the current count.
use grapevine.Prelude.{
  ℕ, ◌+◌, ◌<◌, ◌%◌, Option, Option-cases, inl, inr, ◌≡◌, ok, arith, ==_refl, List-Eq, ℕ-Eq,
}
use grapevine.Utils.{to_be_bytes, u64_mod, increment, old_number, Bytes}
use grapevine.Utils.Laws.{u64_from_bytes-to_be_bytes}
use grapevine.Database.Tree.{KvTree, increment_key}
use grapevine.Globals.{counter, next_count, current_count}

-- The number that increment writes is a u64 again.
new_number : (old : Option Bytes) → (n : ℕ) × (n < u64_mod) × (increment old ≡ to_be_bytes n)
unfolding increment
new_number old = elim (Option-cases (old_number old)) [
  | inl missing ↦ (1, omega arith, ground (arith, missing))
  | inr (n, found) ↦ ((n + 1) % u64_mod, omega arith, ground (arith, found))
]

module _ (E : KvTree) (global : E.Tree) where
  -- next_count never fails, whatever the tree has for the counter: it hands out a u64.
  pub next_count_total : (n : ℕ) × (t : E.Tree) × (n < u64_mod) × (next_count E global ≡ ok (n, t))
  unfolding next_count increment_key
  next_count_total =
      let (n, below, written) = new_number (E.get global counter) in
      (
        n,
        E.insert global counter (increment (E.get global counter)),
        below,
        ground (arith, written, u64_from_bytes-to_be_bytes n),
      )

  -- On a tree whose counter reads as n with n + 1 below 2 ^ 64, next_count returns n + 1 and a tree
  -- whose counter reads as n + 1.
  pub next_count-current_count :
      (n : ℕ)
      → current_count E global ≡ ok n
      → n + 1 < u64_mod
      → (t : E.Tree) × (next_count E global ≡ ok (n + 1, t)) × (current_count E t ≡ ok (n + 1))
  unfolding next_count current_count increment
  next_count-current_count n now room = (
    E.insert global counter (to_be_bytes (n + 1)),
    ground (arith, u64_from_bytes-to_be_bytes (n + 1)),
    ground (
      arith,
      u64_from_bytes-to_be_bytes (n + 1),
      E.get-insert global counter (to_be_bytes (n + 1)) counter,
      ==_refl counter,
    ),
  )
