-- ===== src/StateCompressor/Codec.antt =====
-- src/database/key_value/rooms/state_compressor.rs: a diff that was saved is read back.
use Prim.Native.Nat.add
use mathlib.Core.List.{append_assoc}
use grapevine.Prelude.{
  ℕ, zero, suc, ◌+◌, ◌*◌, ◌-◌, ◌<◌, ◌≤◌, ◌≡◌, ◌≢◌, refl, List, [], ◌∷◌, ◌++◌, Option, none, some,
  length, All, Bool, true, false, leb, take, drop, arith, length-append, take-append_length, ok,
  drop-append_length, List-Eq, ℕ-Eq, ==_refl, ==_iff,
}
use grapevine.Utils.{Bytes, to_be_bytes, starts_with, u64_mod}
use grapevine.Utils.Laws.{u64_from_bytes-to_be_bytes, length-to_be_bytes}
use grapevine.HashSet.{insert, extend, Nodup}
use grapevine.HashSet.Laws.{extend-nil}
use grapevine.Database.Tree.{KvTree}
use grapevine.StateCompressor.{
  StateDiff, zeros, concat, removed_part, parent_or_zero, encode, decode_loop, nonzero, decode,
  get_statediff, save_statediff,
}

-- A compressed event has 16 bytes, and its state key's short id is not zero.
abbrev pub IsEvent : Bytes → Type 0
IsEvent x = (length x ≡ 16) × (starts_with zeros x ≡ false)

-- A short id that `next_count` has handed out, or none.
abbrev pub ParentOk : Option ℕ → Type 0
ParentOk none = Unit
ParentOk (some p) = (0 < p) × (p < u64_mod)

-- A diff that the program stores.
pub record IsDiff (d : StateDiff) : Type 0 where
  pub added : All IsEvent d.added
  pub removed : All IsEvent d.removed
  pub added_nodup : Nodup d.added
  pub removed_nodup : Nodup d.removed
  pub parent : ParentOk d.parent

take_16 : (x r : Bytes) → length x ≡ 16 → take 16 (x ++ r) ≡ x
take_16 x r h = rw (← h) (take-append_length x r)

drop_16 : (x r : Bytes) → length x ≡ 16 → drop 16 (x ++ r) ≡ r
drop_16 x r h = rw (← h) (drop-append_length x r)

long_enough : (x r : Bytes) → length x ≡ 16 → leb 16 (length (x ++ r)) ≡ true
long_enough x r h = ground (arith, length-append x r)

decode_end : (f : ℕ) (mode : Bool) (a r : List Bytes) → decode_loop f mode [] a r ≡ (a, r)
unfolding decode_loop
decode_end zero mode a r = refl
decode_end (suc f) mode a r = refl

step_added :
    (f : ℕ) (x rest : Bytes) (a r : List Bytes)
    → IsEvent x
    → decode_loop (suc f) true (x ++ rest) a r ≡ decode_loop f true rest (insert x a) r
unfolding decode_loop
step_added f x rest a r h =
    ground (arith, long_enough x rest h.0, take_16 x rest h.0, drop_16 x rest h.0)

step_removed :
    (f : ℕ) (x rest : Bytes) (a r : List Bytes)
    → IsEvent x
    → decode_loop (suc f) false (x ++ rest) a r ≡ decode_loop f false rest a (insert x r)
unfolding decode_loop
step_removed f x rest a r h =
    ground (arith, long_enough x rest h.0, take_16 x rest h.0, drop_16 x rest h.0)

-- The separator: eight zero bytes, with an event behind them.
step_zeros :
    (f : ℕ) (rest : Bytes) (a r : List Bytes)
    → 8 ≤ length rest
    → decode_loop (suc f) true (zeros ++ rest) a r ≡ decode_loop f false rest a r
unfolding decode_loop to_be_bytes take drop starts_with
step_zeros f rest a r h = ground arith

decode_added :
    (f : ℕ) (xs : List Bytes) (tail : Bytes) (a r : List Bytes)
    → All IsEvent xs
    → decode_loop (length xs + f) true (concat xs ++ tail) a r
      ≡ decode_loop f true tail (extend xs a) r
unfolding concat extend
decode_added f [] tail a r h = rw add.zero
decode_added f (x ∷ xs) tail a r h =
    rw (add.suc, append_assoc, step_added (length xs + f) x (concat xs ++ tail) a r h.0)
      (decode_added f xs tail (insert x a) r h.1)

decode_removed :
    (f : ℕ) (xs : List Bytes) (a r : List Bytes)
    → All IsEvent xs
    → decode_loop (length xs + f) false (concat xs) a r ≡ (a, extend xs r)
unfolding concat extend
decode_removed f [] a r h = decode_end _ false a r
decode_removed f (x ∷ xs) a r h =
    rw (add.suc, step_removed (length xs + f) x (concat xs) a r h.0)
      (decode_removed f xs a (insert x r) h.1)

length-concat : (xs : List Bytes) → All IsEvent xs → length (concat xs) ≡ 16 * length xs
unfolding concat
length-concat [] h = omega arith
length-concat (x ∷ xs) h = omega (arith, h.0.0, length-append x (concat xs), length-concat xs h.1)

decode_body :
    (fuel : ℕ) (added removed : List Bytes)
    → All IsEvent added
    → All IsEvent removed
    → Nodup added
    → Nodup removed
    → 8 + length (concat added ++ removed_part removed) ≤ fuel
    → decode_loop fuel true (concat added ++ removed_part removed) [] [] ≡ (added, removed)
unfolding removed_part
decode_body fuel added [] ea er na nr h =
    let enough : fuel ≡ length added + (fuel - length added) =
      omega (arith, length-append (concat added) [], length-concat added ea) in
    rw (
      enough,
      decode_added (fuel - length added) added [] [] [] ea,
      decode_end,
      extend-nil added na,
    )
decode_body fuel added (r ∷ rs) ea er na nr h =
    let g = fuel - length added - 1 - length (r ∷ rs) in
    let enough : fuel ≡ length added + suc (length (r ∷ rs) + g) = omega (
      arith,
      length-append (concat added) (zeros ++ concat (r ∷ rs)),
      length-append zeros (concat (r ∷ rs)),
      length-concat added ea,
      length-concat (r ∷ rs) er,
    ) in
    rw (
      enough,
      decode_added (suc (length (r ∷ rs) + g)) added (zeros ++ concat (r ∷ rs)) [] [] ea,
      step_zeros (length (r ∷ rs) + g) (concat (r ∷ rs)) (extend added []) []
          (omega (arith, length-concat (r ∷ rs) er)),
      decode_removed g (r ∷ rs) (extend added []) [] er,
      extend-nil added na,
      extend-nil (r ∷ rs) nr,
    )

nonzero-parent_or_zero : (p : Option ℕ) → ParentOk p → nonzero (parent_or_zero p) ≡ p
unfolding nonzero parent_or_zero
nonzero-parent_or_zero none h = refl
nonzero-parent_or_zero (some p) h = ground arith

parent_or_zero-lt : (p : Option ℕ) → ParentOk p → parent_or_zero p < u64_mod
unfolding parent_or_zero
parent_or_zero-lt none h = omega arith
parent_or_zero-lt (some p) h = h.1

read_head : (p : ℕ) (body : Bytes) → take 8 (to_be_bytes p ++ body) ≡ to_be_bytes p
unfolding to_be_bytes
read_head p body = take-append_length (to_be_bytes p) body

read_body : (p : ℕ) (body : Bytes) → drop 8 (to_be_bytes p ++ body) ≡ body
unfolding to_be_bytes
read_body p body = drop-append_length (to_be_bytes p) body

-- The value that save_statediff writes for a diff of distinct 16-byte events with nonzero state
-- keys, and a positive u64 parent or none, is decoded by get_statediff to the same diff.
pub decode-encode : (d : StateDiff) → IsDiff d → decode (encode d) ≡ ok d
unfolding decode encode
decode-encode d h =
    let body = concat d.added ++ removed_part d.removed in
    let p = parent_or_zero d.parent in
    ground (
      arith,
      read_head p body,
      read_body p body,
      u64_from_bytes-to_be_bytes p (parent_or_zero-lt d.parent h.parent),
      nonzero-parent_or_zero d.parent h.parent,
      decode_body (length (to_be_bytes p ++ body)) d.added d.removed h.added h.removed h.added_nodup
          h.removed_nodup (omega (arith, length-append (to_be_bytes p) body, length-to_be_bytes p)),
    )

module _ (E : KvTree) (t : E.Tree) where
  -- A saved diff is read back, and no other is touched.
  pub get-save_statediff :
      (h : ℕ) (d : StateDiff) → IsDiff d → get_statediff E (save_statediff E t h d) h ≡ ok d
  unfolding get_statediff save_statediff
  get-save_statediff h d ok_d = ground (
    arith,
    E.get-insert t (to_be_bytes h) (encode d) (to_be_bytes h),
    ==_refl (to_be_bytes h),
    decode-encode d ok_d,
  )

  pub get-save_statediff_ne :
      (h j : ℕ) (d : StateDiff)
      → to_be_bytes h ≢ to_be_bytes j
      → get_statediff E (save_statediff E t h d) j ≡ get_statediff E t j
  unfolding get_statediff save_statediff
  get-save_statediff_ne h j d ne = ground (
    arith,
    E.get-insert t (to_be_bytes h) (encode d) (to_be_bytes j),
    ==_iff (to_be_bytes h) (to_be_bytes j),
  )
