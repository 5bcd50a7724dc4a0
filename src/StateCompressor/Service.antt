-- ===== src/StateCompressor/Service.antt =====
-- The methods of the state compressor's `Service` over its state: the tree of diffs, the cache of
-- loaded stacks, and the trees of short ids and of the rooms' current states.
use grapevine.Prelude.{
  ℕ, zero, suc, List, [], ◌∷◌, Option, none, some, Bool, true, false, nat_eq, if◌then◌else◌, Result,
  ok, err, ◌>>=◌, out_of_fuel, bad_database, ok_or, List-Eq, ℕ-Eq,
}
use grapevine.Utils.{Bytes, to_be_bytes, u64_from_bytes, calculate_hash}
use grapevine.HashSet.{difference}
use grapevine.Database.Tree.{KvTree}
use grapevine.LruCache.{LruCache}
use grapevine.Globals.{next_count}
use grapevine.StateCompressor.{
  StateDiff, Layer, get_statediff, push_layer, bottom_layer, save_state_from_diff,
}

-- Some(new_shortstatehash) == previous_shortstatehash
unfoldable pub is_previous : ℕ → Option ℕ → Bool
is_previous h none = false
is_previous h (some p) = nat_eq h p

-- The diff from the previous state: (statediffnew, statediffremoved).
unfoldable pub state_diff : List Bytes → List Layer → List Bytes × List Bytes
state_diff new_state [] = (new_state, [])
state_diff new_state (parent ∷ _) =
    (difference new_state parent.full_state, difference parent.full_state new_state)

module _ (E : KvTree) (C : LruCache ℕ (List Layer)) where
  pub record Compressor : Type 0 where
    pub shortstatehash_statediff : E.Tree
    pub stateinfo_cache : C.Cache
    pub statehash_shortstatehash : E.Tree
    pub roomid_shortstatehash : E.Tree
    pub global : E.Tree

  -- The end of `load_shortstatehash_info`: the response goes into the cache; an error does not.
  unfoldable pub keep_response :
      ℕ → Result (List Layer) × Compressor → Result (List Layer) × Compressor
  keep_response h (ok response, s) =
      (ok response, record s { stateinfo_cache = C.insert s.stateinfo_cache h response })
  keep_response h (err e, s) = (err e, s)

  unfoldable pub push_response :
      ℕ → StateDiff → Result (List Layer) × Compressor → Result (List Layer) × Compressor
  push_response h diff (response, s) = (response >>= push_layer h diff, s)

  -- `load_shortstatehash_info`. The recursion follows the parents, on fuel.
  unfoldable pub load : ℕ → Compressor → ℕ → Result (List Layer) × Compressor
  unfolding keep_response push_response
  load zero s h = (err out_of_fuel, s)
  load (suc fuel) s h =
      let (hit, cache) = C.get_mut s.stateinfo_cache h in
      let s' : Compressor = record s { stateinfo_cache = cache } in
      elim hit [
        | some response ↦ (ok response, s')
        | none ↦ elim (get_statediff E s'.shortstatehash_statediff h) [
          | err e ↦ (err e, s')
          | ok diff ↦ elim diff.parent [
            | none ↦ keep_response h (ok (bottom_layer h diff), s')
            | some parent ↦ keep_response h (push_response h diff (load fuel s' parent))
          ]
        ]
      ]

  -- `get_or_create_shortstatehash` of src/database/key_value/rooms/short.rs
  unfoldable pub get_or_create_shortstatehash :
      Compressor → Bytes → Result ((ℕ × Bool) × Compressor)
  get_or_create_shortstatehash s state_hash = elim (E.get s.statehash_shortstatehash state_hash) [
    | some bytes ↦ do h ← ok_or (u64_from_bytes bytes) bad_database; ok ((h, true), s)
    | none ↦ do
      (h, global) ← next_count E s.global
      ok (
        (h, false),
        record s {
          global = global;
          statehash_shortstatehash = E.insert s.statehash_shortstatehash state_hash (to_be_bytes h);
        },
      )
  ]

  -- `get_room_shortstatehash` of src/database/key_value/rooms/state.rs
  unfoldable pub get_room_shortstatehash : Compressor → Bytes → Result (Option ℕ)
  get_room_shortstatehash s room_id = elim (E.get s.roomid_shortstatehash room_id) [
    | none ↦ ok none
    | some bytes ↦ do h ← ok_or (u64_from_bytes bytes) bad_database; ok (some h)
  ]

  unfoldable pub set_room_state : Compressor → Bytes → ℕ → Compressor
  set_room_state s room_id h = record s {
    roomid_shortstatehash = E.insert s.roomid_shortstatehash room_id (to_be_bytes h);
  }

  -- previous_shortstatehash.map_or_else(|| Ok(Vec::new()), |p| self.load_shortstatehash_info(p))
  unfoldable pub load_previous : ℕ → Compressor → Option ℕ → Result (List Layer) × Compressor
  load_previous fuel s none = (ok [], s)
  load_previous fuel s (some p) = load fuel s p

  -- What `save_state` does once it has the two short hashes and the previous state's stack.
  unfoldable pub save_on_top :
      ℕ → Bool → List Bytes → List Layer → Compressor → (ℕ × List Bytes × List Bytes) × Compressor
  unfolding state_diff
  save_on_top h already_existed new_state parents s =
      let (added, removed) = state_diff new_state parents in
      (
        (h, added, removed),
        if already_existed then s else record s {
          shortstatehash_statediff =
              save_state_from_diff E s.shortstatehash_statediff h added removed 2 parents;
        },
      )

  -- `save_state`, with the digest of `ring` as a parameter. It gives the new short state hash and
  -- the diff. The state is kept where the code fails, as the trees are.
  unfoldable pub save_state :
      (Bytes → Bytes)
      → ℕ
      → Compressor
      → Bytes
      → List Bytes
      → Result (ℕ × List Bytes × List Bytes) × Compressor
  unfolding save_on_top load_previous is_previous
  save_state sha256 fuel s room_id new_state = elim (get_room_shortstatehash s room_id) [
    | err e ↦ (err e, s)
    | ok previous ↦ elim (get_or_create_shortstatehash s (calculate_hash sha256 new_state)) [
      | err e ↦ (err e, s)
      | ok ((h, already_existed), s') ↦ elim (is_previous h previous) [
        | true ↦ (ok (h, [], []), s')
        | false ↦
            let (parents, s'') = load_previous fuel s' previous in
            elim parents [
              | err e ↦ (err e, s'')
              | ok stack ↦
                  let (result, s3) = save_on_top h already_existed new_state stack s'' in
                  (ok result, s3)
            ]
      ]
    ]
  ]
