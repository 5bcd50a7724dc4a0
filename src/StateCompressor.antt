-- ===== src/StateCompressor.antt =====
-- src/service/rooms/state_compressor.rs and src/database/key_value/rooms/state_compressor.rs: the
-- states of rooms as stacks of diffs. A state is a set of `CompressedStateEvent`s, 16 bytes each:
-- the short id of a state key, and that of an event. A stack of layers is a list with the newest
-- layer first, which the source keeps as a `Vec` with the newest layer last. Lengths are numbers
-- without a bound: no set comes near 2 ^ 32 elements, whose square would leave a `usize`.
pub mod Codec
pub mod Diffs
pub mod Events
pub mod Layers
pub mod Save
pub mod Load
pub mod Service
pub mod FullState
pub mod Sound
pub mod SaveState
use grapevine.Prelude.{
  ℕ, zero, suc, ◌+◌, ◌*◌, List, [], ◌∷◌, ◌++◌, Option, none, some, length, Bool, true, false, ltb,
  leb, take, drop, nat_eq, if◌then◌else◌, Result, ok, err, ◌>>=◌, out_of_fuel, bad_database, panic,
  ok_or, List-Eq, ℕ-Eq,
}
use grapevine.Utils.{Bytes, to_be_bytes, u64_from_bytes, starts_with}
use grapevine.HashSet.{contains, insert, remove, extend, remove_all, difference}
use grapevine.Database.Tree.{KvTree}

pub record StateDiff : Type 0 where
  pub parent : Option ℕ
  pub added : List Bytes
  pub removed : List Bytes

-- CompressedStateLayer
pub record Layer : Type 0 where
  pub shortstatehash : ℕ
  pub full_state : List Bytes
  pub added : List Bytes
  pub removed : List Bytes

-- 0_u64.to_be_bytes()
abbrev pub zeros : Bytes
zeros = to_be_bytes 0

-- The bytes of a set, in the order of iteration.
unfoldable pub concat : List Bytes → Bytes
concat [] = []
concat (x ∷ xs) = x ++ concat xs

-- if !removed.is_empty() { … }: the separator and the removed events
unfoldable pub removed_part : List Bytes → Bytes
removed_part [] = []
removed_part (r ∷ rs) = zeros ++ concat (r ∷ rs)

-- diff.parent.unwrap_or(0)
unfoldable pub parent_or_zero : Option ℕ → ℕ
parent_or_zero none = 0
parent_or_zero (some p) = p

-- The value that `save_statediff` writes.
unfoldable pub encode : StateDiff → Bytes
encode diff =
    to_be_bytes (parent_or_zero diff.parent) ++ (concat diff.added ++ removed_part diff.removed)

-- The `while let` loop of `get_statediff`, on what is left of the value; each round takes 8 bytes
-- at least, so the length of the value is fuel enough.
unfoldable pub decode_loop : ℕ → Bool → Bytes → List Bytes → List Bytes → List Bytes × List Bytes
decode_loop zero add_mode value added removed = (added, removed)
decode_loop (suc fuel) add_mode value added removed = elim (leb 16 (length value)) [
  | false ↦ (added, removed)
  | true ↦ elim add_mode [
    | true ↦ elim (starts_with zeros (take 16 value)) [
      | true ↦ decode_loop fuel false (drop 8 value) added removed
      | false ↦ decode_loop fuel true (drop 16 value) (insert (take 16 value) added) removed
    ]
    | false ↦ decode_loop fuel false (drop 16 value) added (insert (take 16 value) removed)
  ]
]

-- (parent != 0).then_some(parent)
unfoldable pub nonzero : ℕ → Option ℕ
nonzero n = if nat_eq n 0 then none else some n

-- The body of `get_statediff` from the value on. A value of less than 8 bytes is out of the range
-- of the slice.
unfoldable pub decode : Bytes → Result StateDiff
unfolding decode_loop nonzero
decode value = elim (u64_from_bytes (take 8 value)) [
  | none ↦ err panic
  | some parent ↦
      let (added, removed) = decode_loop (length value) true (drop 8 value) [] [] in
      ok (record { parent = nonzero parent; added = added; removed = removed })
]

-- for x in xs { if !from.remove(x) { into.insert(x) } }: what is left of `from`, and `into`
unfoldable pub cancel : List Bytes → List Bytes → List Bytes → List Bytes × List Bytes
cancel [] from into = (from, into)
cancel (x ∷ xs) from into =
    cancel xs (if contains x from then remove x from else from)
      (if contains x from then into else insert x into)

-- The two loops that put a diff into its parent's: (parent_new, parent_removed).
unfoldable pub merge : List Bytes → List Bytes → Layer → List Bytes × List Bytes
merge added removed parent =
    let (new, gone) = cancel removed parent.added parent.removed in
    let (gone', new') = cancel added gone new in (new', gone')

-- The layer of a diff on top of its parent's stack; none for the bottom layer.
unfoldable pub push_layer : ℕ → StateDiff → List Layer → Result (List Layer)
push_layer h diff [] = err panic
push_layer h diff (p ∷ ps) = ok (
    record {
      shortstatehash = h;
      full_state = remove_all diff.removed (extend diff.added p.full_state);
      added = diff.added;
      removed = diff.removed;
    }
    ∷ p
    ∷ ps)

abbrev pub bottom_layer : ℕ → StateDiff → List Layer
bottom_layer h diff =
    record {
      shortstatehash = h;
      full_state = diff.added;
      added = diff.added;
      removed = diff.removed;
    }
    ∷ []

module _ (E : KvTree) where
  unfoldable pub get_statediff : E.Tree → ℕ → Result StateDiff
  get_statediff statediffs h = do
    value ← ok_or (E.get statediffs (to_be_bytes h)) bad_database
    decode value

  unfoldable pub save_statediff : E.Tree → ℕ → StateDiff → E.Tree
  save_statediff statediffs h diff = E.insert statediffs (to_be_bytes h) (encode diff)

  -- `parent_states` is the stack of layers. A merged diff goes on down the stack.
  unfoldable pub save_state_from_diff :
      E.Tree → ℕ → List Bytes → List Bytes → ℕ → List Layer → E.Tree
  save_state_from_diff t h added removed diff_to_sibling [] =
      save_statediff t h (record { parent = none; added = added; removed = removed })
  save_state_from_diff t h added removed diff_to_sibling (parent ∷ parents) =
      let diffsum = length added + length removed in
      let (parent_new, parent_removed) = merge added removed parent in
      let deeper = save_state_from_diff t h parent_new parent_removed diffsum parents in
      let parent_diff = length parent.added + length parent.removed in
      if ltb 3 (length (parent ∷ parents))
      then deeper
      else if leb (2 * diff_to_sibling * parent_diff) (diffsum * diffsum)
      then deeper
      else save_statediff t h
          (record { parent = some parent.shortstatehash; added = added; removed = removed })
