-- ===== src/OnDemandHashMap.antt =====
-- src/utils/on_demand_hashmap.rs: `OnDemandHashMap`, whose values live as long as their entries,
-- and `TokenSet`, a lock for each key. An `Arc` is the number of its allocation, and its strong
-- count is the number of handles that hold it. A handle is one call of `get_or_insert_with` or
-- `lock_key`, from the creation of its value to the end of the drop of its entry or token.
pub mod Steps
pub mod Handles
pub mod Consistent
pub mod Exclusion
pub mod Leak
use grapevine.Prelude.{
  ℕ, suc, ◌+◌, Bool, true, false, ◌&&◌, List, [], ◌∷◌, ◌++◌, Option, none, some, if◌then◌else◌,
  nat_eq, Eq, ◌==◌,
}
use grapevine.HashMap.{HashMap, get, insert, remove}

-- Where a call is: its value is created and not in the map; its entry is held, with the mutex of
-- the value locked or not; the drop guard is gone and the `Arc` (with the mutex guard) is not.
pub data Phase : Type 0 where
  creating : Phase
  holding : Bool → Phase
  closing : Bool → Phase

unfoldable pub is_locked : Phase → Bool
is_locked creating = false
is_locked (holding locked) = locked
is_locked (closing locked) = locked

unfoldable pub is_creating : Phase → Bool
is_creating creating = true
is_creating _ = false

module _ (K : Type 0) where
  pub record Handle : Type 0 where
    pub key : K
    pub value : ℕ
    pub phase : Phase

  -- SharedData, the channel of the cleanup task, and the handles of all tasks. `fresh` is the next
  -- allocation.
  pub record Shared : Type 0 where
    pub entries : HashMap K ℕ
    pub channel : List K
    pub handles : List Handle
    pub fresh : ℕ

module _ {K : Type 0} where
  -- weak.strong_count()
  unfoldable pub strong_count : ℕ → List (Handle K) → ℕ
  strong_count v [] = 0
  strong_count v (h ∷ hs) = if nat_eq h.value v then suc (strong_count v hs) else strong_count v hs

  -- weak.upgrade()
  unfoldable pub upgrade : ℕ → List (Handle K) → Option ℕ
  unfolding strong_count
  upgrade v hs = if nat_eq (strong_count v hs) 0 then none else some v

  -- How many handles hold the mutex of the value.
  unfoldable pub lock_count : ℕ → List (Handle K) → ℕ
  unfolding is_locked
  lock_count v [] = 0
  lock_count v (h ∷ hs) =
      if nat_eq h.value v && is_locked h.phase then suc (lock_count v hs) else lock_count v hs

module _ {K : Type 0} ⦃e : Eq K⦄ where
  unfoldable pub try_get_live_value : HashMap K ℕ → List (Handle K) → K → Option ℕ
  unfolding upgrade
  try_get_live_value entries hs k = elim (get k entries) [
    | none ↦ none
    | some weak ↦ upgrade weak hs
  ]

  -- `get_or_insert_with` up to the end of the read lock, and `create`: the handle that the call goes
  -- on with.
  unfoldable pub first_pass : Shared K → K → Shared K
  unfolding try_get_live_value
  first_pass s k = elim (try_get_live_value s.entries s.handles k) [
    | some v ↦ record s {
      handles = record { key = k; value = v; phase = holding false } ∷ s.handles;
    }
    | none ↦ record s {
      handles = record { key = k; value = s.fresh; phase = creating } ∷ s.handles;
      fresh = suc s.fresh;
    }
  ]

  -- The second pass, under the write lock. `others` are the handles beside the one that has created
  -- `v`, which is dropped where another entry showed up.
  unfoldable pub second_pass : Shared K → K → ℕ → List (Handle K) → Shared K
  unfolding try_get_live_value
  second_pass s k v others =
      let hs : List (Handle K) = record { key = k; value = v; phase = creating } ∷ others in
      elim (try_get_live_value s.entries hs k) [
        | some w ↦ record s {
          handles = record { key = k; value = w; phase = holding false } ∷ others;
        }
        | none ↦ record s {
          entries = insert k v s.entries;
          handles = record { key = k; value = v; phase = holding false } ∷ others;
        }
      ]

  -- `try_cleanup_entry`, under the write lock
  unfoldable pub try_cleanup_entry : Shared K → K → Shared K
  unfolding strong_count
  try_cleanup_entry s k = elim (get k s.entries) [
    | none ↦ s
    | some weak ↦
        if nat_eq (strong_count weak s.handles) 0
        then record s { entries = remove k s.entries }
        else s
  ]

  -- A change of the phase of one handle, with the others beside it.
  abbrev pub with_phase : Shared K → Handle K → Phase → List (Handle K) → Shared K
  with_phase s h p others = record s { handles = record h { phase = p } ∷ others }
