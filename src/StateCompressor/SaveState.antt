-- ===== src/StateCompressor/SaveState.antt =====
-- `save_state`: what a room's new state is stored as, and what is left of the older states.
use native.Mathlib.Nat.{le_trans}
use grapevine.Prelude.{
  ℕ, ◌+◌, ◌<◌, ◌≤◌, List, [], ◌≡◌, refl, sym, ap, subst, Option, none, some, ok, arith, length,
  Bool, false, List-Eq, ℕ-Eq, inl, inr, nat_eq, nat_eq→eq, Bool-cases,
}
use grapevine.Utils.{Bytes, to_be_bytes, u64_mod, calculate_hash}
use grapevine.HashSet.{contains}
use grapevine.Database.Tree.{KvTree}
use grapevine.LruCache.{LruCache}
use grapevine.Globals.{next_count}
use grapevine.Globals.Counter.{next_count-current_count}
use grapevine.StateCompressor.{Layer, save_state_from_diff}
use grapevine.StateCompressor.Diffs.{IsDiffTo}
use grapevine.StateCompressor.Layers.{base_of, top_hash, Stored, IsFresh, Stored-save}
use grapevine.StateCompressor.Save.{Holds, save_state_from_diff-Holds}
use grapevine.StateCompressor.FullState.{IsState, IsDiffTo-state_diff}
use grapevine.StateCompressor.Load.{IsCoherent, load-Loads, with_cache}
use grapevine.StateCompressor.Service.{
  Compressor, load, get_or_create_shortstatehash, get_room_shortstatehash, load_previous,
  is_previous, state_diff, save_state,
}
use grapevine.StateCompressor.Sound.{
  IsSound, IsSound-save, save_one, Holds-save, Stored-not-IsFresh,
}

module _ (E : KvTree) (C : LruCache ℕ (List Layer)) where
  -- A stack of at most four layers is loaded, with the target state on top.
  pub record LoadsState (fuel : ℕ) (s : Compressor E C) (h : ℕ) (target : Bytes → Bool)
      : Type 0 where
    pub stack : List Layer
    pub result : (load E C fuel s h).0 ≡ ok stack
    pub depth : length stack ≤ 4
    pub state : (x : Bytes) → base_of stack x ≡ target x

  -- On a sound state, four calls deep are enough to load any hash, whatever the cache holds.
  pub load-Holds :
      (fuel : ℕ) (s : Compressor E C) (count h : ℕ) (target : Bytes → Bool)
      → IsSound E C s count
      → Holds E s.shortstatehash_statediff h target
      → 4 ≤ fuel
      → LoadsState fuel s h target
  load-Holds fuel s count h target sound held enough =
      let loads =
        load-Loads E C fuel s h held.stack sound.coherent held.stored held.top
          (le_trans held.depth enough) in
      record {
        stack = held.stack;
        result = ap (λ r. r.0) loads.result;
        depth = held.depth;
        state = held.state;
      }

module _ (E : KvTree) (C : LruCache ℕ (List Layer)) (sha256 : Bytes → Bytes) where
  -- The stack is that of the previous state, and empty if there is none.
  abbrev pub IsPrevious : E.Tree → Option ℕ → List Layer → Type 0
  IsPrevious t none stack = stack ≡ []
  IsPrevious t (some p) stack = Stored E t stack × (top_hash stack ≡ some p) × (length stack ≤ 4)

  Stored-IsPrevious :
      (t : E.Tree) (previous : Option ℕ) (stack : List Layer)
      → IsPrevious t previous stack
      → Stored E t stack
  Stored-IsPrevious t none stack p = subst (Stored E t) (sym p) tt
  Stored-IsPrevious t (some h) stack p = p.0

  -- What `save_state` leads to when the state is new.
  pub record Saves (fuel : ℕ) (s : Compressor E C) (count : ℕ) (room_id : Bytes)
      (new_state : List Bytes) (stack : List Layer) : Type 0 where
    pub after : Compressor E C
    pub result :
        save_state E C sha256 fuel s room_id new_state
        ≡ (ok (count + 1, (state_diff new_state stack).0, (state_diff new_state stack).1), after)
    pub diff :
        IsDiffTo
          (base_of stack)
          (λ x. contains x new_state)
          (state_diff new_state stack).0
          (state_diff new_state stack).1
    pub holds : Holds E after.shortstatehash_statediff (count + 1) (λ x. contains x new_state)
    pub kept :
        (j : ℕ) (target : Bytes → Bool)
        → Holds E s.shortstatehash_statediff j target
        → Holds E after.shortstatehash_statediff j target
    pub sound : IsSound E C after (count + 1)

  load_previous_lem :
      (fuel : ℕ) (s : Compressor E C) (previous : Option ℕ) (stack : List Layer)
      → IsCoherent E C s
      → IsPrevious s.shortstatehash_statediff previous stack
      → 4 ≤ fuel
      → (cache : C.Cache) × (load_previous E C fuel s previous ≡ (ok stack, with_cache E C s cache))
        × IsCoherent E C (with_cache E C s cache)
  unfolding load_previous
  load_previous_lem fuel s none stack coherent p enough = (s.stateinfo_cache, rw p, coherent)
  load_previous_lem fuel s (some h) stack coherent p enough =
      let loads = load-Loads E C fuel s h stack coherent p.0 p.1 (omega arith) in
      (loads.after, loads.result, loads.coherent)

  not_previous :
      (t : E.Tree) (h : ℕ) (previous : Option ℕ) (stack : List Layer)
      → IsPrevious t previous stack
      → IsFresh E t h
      → is_previous h previous ≡ false
  unfolding is_previous
  not_previous t h none stack p fresh = refl
  not_previous t h (some j) stack p fresh = elim (Bool-cases (nat_eq h j)) [
    | inl same ↦
        absurd
          (Stored-not-IsFresh E t j stack p.0 p.1 (subst (IsFresh E t) (nat_eq→eq _ _ same) fresh))
    | inr other ↦ other
  ]

  -- The state between the creation of the hash and the load of the previous stack.
  abbrev created : Compressor E C → Bytes → E.Tree → ℕ → Compressor E C
  created s state_hash global h = record s {
    global = global;
    statehash_shortstatehash = E.insert s.statehash_shortstatehash state_hash (to_be_bytes h);
  }

  abbrev saved : Compressor E C → ℕ → List Bytes → List Layer → Compressor E C
  saved s h new_state stack = record s {
    shortstatehash_statediff =
        save_state_from_diff E s.shortstatehash_statediff h (state_diff new_state stack).0
          (state_diff new_state stack).1 2 stack;
  }

  -- The run of `save_state` on a new state.
  save_state_run :
      (fuel : ℕ) (s : Compressor E C) (h : ℕ) (room_id : Bytes) (new_state : List Bytes)
      (previous : Option ℕ) (stack : List Layer) (global : E.Tree) (cache : C.Cache)
      → get_room_shortstatehash E C s room_id ≡ ok previous
      → E.get s.statehash_shortstatehash (calculate_hash sha256 new_state) ≡ none
      → next_count E s.global ≡ ok (h, global)
      → is_previous h previous ≡ false
      → load_previous E C fuel (created s (calculate_hash sha256 new_state) global h) previous
        ≡ (ok stack, with_cache E C (created s (calculate_hash sha256 new_state) global h) cache)
      → save_state E C sha256 fuel s room_id new_state ≡ (
        ok (h, (state_diff new_state stack).0, (state_diff new_state stack).1),
        saved
            (with_cache E C (created s (calculate_hash sha256 new_state) global h) cache)
            h
            new_state
            stack,
      )
  unfolding save_state get_or_create_shortstatehash
  save_state_run fuel s h room_id new_state previous stack global cache room absent counted ne
        loaded =
      ground arith

  -- On a sound state, save_state of a state with an unknown digest returns the next count as its
  -- hash and a diff that leads from the previous state to the new one; the tree holds the new state
  -- under the hash, keeps all states that it held, and the state stays sound.
  pub save_state-Saves :
      (fuel : ℕ) (s : Compressor E C) (count : ℕ) (room_id : Bytes) (new_state : List Bytes)
      (previous : Option ℕ) (stack : List Layer)
      → IsSound E C s count
      → count + 1 < u64_mod
      → 4 ≤ fuel
      → IsState new_state
      → get_room_shortstatehash E C s room_id ≡ ok previous
      → IsPrevious s.shortstatehash_statediff previous stack
      → E.get s.statehash_shortstatehash (calculate_hash sha256 new_state) ≡ none
      → Saves fuel s count room_id new_state stack
  save_state-Saves fuel s count room_id new_state previous stack sound fits enough is_state room
        prev absent =
      let t = s.shortstatehash_statediff in
      let digest = calculate_hash sha256 new_state in
      let (global, counted, count') =
        next_count-current_count E s.global count sound.counted fits in
      let s' = created s digest global (count + 1) in
      let coherent' : IsCoherent E C s' = record { cached = sound.coherent.cached } in
      let (cache, loaded, coherent) =
        load_previous_lem fuel s' previous stack coherent' prev enough in
      let fresh = sound.ahead (count + 1) (omega arith) fits in
      let st = Stored-IsPrevious t previous stack prev in
      let d = IsDiffTo-state_diff E t new_state stack is_state st in
      let after = saved (with_cache E C s' cache) (count + 1) new_state stack in
      let (one, writes) =
        save_one E t (count + 1) (state_diff new_state stack).0 (state_diff new_state stack).1 2
          stack in
      let held =
        save_state_from_diff-Holds E t (count + 1) fresh (omega arith) fits
          (λ x. contains x new_state) (state_diff new_state stack).0 (state_diff new_state stack).1
          2 stack st d in
      record {
        after = after;
        result =
            save_state_run fuel s (count + 1) room_id new_state previous stack global cache room
              absent counted (not_previous t (count + 1) previous stack prev fresh) loaded;
        diff = d;
        holds = held;
        kept = λ j target h. rw writes (Holds-save E t (count + 1) j one target fresh h);
        sound =
            IsSound-save E C s after count one (λ x. contains x new_state) sound fits writes held
              (record {
                cached = λ j r hit.
                    let c = coherent.cached j r hit in
                    (rw writes (Stored-save E t (count + 1) one r fresh c.0), c.1);
              })
              count';
      }

  -- On a sound state, when save_state is given a state with an unknown digest for a room whose
  -- previous state (if any) is a stored stack, load_shortstatehash_info with fuel for four layers
  -- then gives the new state under the new short hash, and each state that was held before under
  -- its own hash, each in at most four layers.
  pub load-save_state :
      (fuel : ℕ) (s : Compressor E C) (count : ℕ) (room_id : Bytes) (new_state : List Bytes)
      (previous : Option ℕ) (stack : List Layer)
      → IsSound E C s count
      → count + 1 < u64_mod
      → 4 ≤ fuel
      → IsState new_state
      → get_room_shortstatehash E C s room_id ≡ ok previous
      → IsPrevious s.shortstatehash_statediff previous stack
      → E.get s.statehash_shortstatehash (calculate_hash sha256 new_state) ≡ none
      → LoadsState E C fuel
          (save_state E C sha256 fuel s room_id new_state).1
          (count + 1)
          (λ x. contains x new_state)
        × ((j : ℕ) (target : Bytes → Bool)
            → Holds E s.shortstatehash_statediff j target
            → LoadsState E C fuel (save_state E C sha256 fuel s room_id new_state).1 j target)
  load-save_state fuel s count room_id new_state previous stack sound fits enough is_state room prev
        absent =
      let w =
        save_state-Saves fuel s count room_id new_state previous stack sound fits enough is_state
          room prev absent in
      rw (ap (λ r. r.1) w.result) (
        load-Holds E C fuel w.after (count + 1) (count + 1) (λ x. contains x new_state) w.sound
            w.holds enough,
        λ j target h.
            load-Holds E C fuel w.after (count + 1) j target w.sound (w.kept j target h) enough,
      )
