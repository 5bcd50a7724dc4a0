-- ===== src/Tests/Compressor.antt =====
-- The state compressor over trees as lists, with a cache of one entry: a room's first state.
use grapevine.Prelude.{
  ==_iff, ℕ, ◌≡◌, refl, List, [], ◌∷◌, none, some, ok, Bool, false, inl, arith, List-Eq, ℕ-Eq,
  list_eq,
}
use grapevine.Utils.{Bytes, to_be_bytes, starts_with}
use grapevine.HashSet.{contains}
use grapevine.Database.Tree.{find}
use grapevine.Database.ListTree.{list_tree}
use grapevine.Globals.Counter.{next_count-current_count}
use grapevine.Globals.{current_count, next_count}
use grapevine.LruCache.{LruCache, one_entry, peek_one}
use grapevine.StateCompressor.{merge, StateDiff, Layer, encode, decode, save_state_from_diff}
use grapevine.StateCompressor.Codec.{IsDiff, decode-encode}
use grapevine.StateCompressor.Diffs.{IsDiffTo, IsDiffTo-merge}
use grapevine.StateCompressor.FullState.{IsState, IsDiffTo-state_diff}
use grapevine.StateCompressor.Service.{state_diff, Compressor, save_state, get_room_shortstatehash}
use grapevine.StateCompressor.Save.{Holds, save_state_from_diff-Holds}
use grapevine.StateCompressor.Load.{Loads, load-Loads}
use grapevine.StateCompressor.Sound.{IsSound}
use grapevine.StateCompressor.SaveState.{Saves, save_state-Saves, LoadsState, load-save_state}

abbrev cache : LruCache ℕ (List Layer)
cache = one_entry

-- The event 7 of state key 5, and the event 9 of state key 6.
abbrev topic : Bytes
topic = 0 ∷ 0 ∷ 0 ∷ 0 ∷ 0 ∷ 0 ∷ 0 ∷ 5 ∷ 0 ∷ 0 ∷ 0 ∷ 0 ∷ 0 ∷ 0 ∷ 0 ∷ 7 ∷ []

abbrev member : Bytes
member = 0 ∷ 0 ∷ 0 ∷ 0 ∷ 0 ∷ 0 ∷ 0 ∷ 6 ∷ 0 ∷ 0 ∷ 0 ∷ 0 ∷ 0 ∷ 0 ∷ 0 ∷ 9 ∷ []

abbrev empty : Compressor list_tree cache
empty = record {
  shortstatehash_statediff = [];
  stateinfo_cache = none;
  statehash_shortstatehash = [];
  roomid_shortstatehash = [];
  global = [];
}

abbrev first_state : List Bytes
first_state = topic ∷ member ∷ []

first_state-IsState : IsState first_state
unfolding starts_with to_be_bytes contains list_eq
first_state-IsState = record {
  events = ((refl, refl), ((refl, refl), tt));
  nodup = (refl, (refl, tt));
}

empty-IsSound : IsSound list_tree cache empty 0
unfolding find peek_one current_count
empty-IsSound = record {
  coherent = record { cached = λ h stack hit. cc };
  known = λ h lt. inl refl;
  counted = refl;
  ahead = λ h a b. refl;
}

save_state-Saves_example : Saves list_tree cache (λ b. b) 4 empty 0 [] first_state []
unfolding find get_room_shortstatehash
save_state-Saves_example =
    save_state-Saves list_tree cache (λ b. b) 4 empty 0 [] first_state none [] empty-IsSound
      (omega arith) (omega arith) first_state-IsState refl refl refl

load-save_state_example :
    LoadsState list_tree cache 4
      (save_state list_tree cache (λ b. b) 4 empty [] first_state).1
      1
      (λ x. contains x first_state)
    × ((j : ℕ) (target : Bytes → Bool)
        → Holds list_tree [] j target
        → LoadsState list_tree cache 4
            (save_state list_tree cache (λ b. b) 4 empty [] first_state).1
            j
            target)
unfolding find get_room_shortstatehash
load-save_state_example =
    load-save_state list_tree cache (λ b. b) 4 empty 0 [] first_state none [] empty-IsSound
      (omega arith) (omega arith) first_state-IsState refl refl refl

-- The diff of the first state, and one with a parent.
abbrev first_diff : StateDiff
first_diff = record { parent = none; added = first_state; removed = [] }

abbrev second_diff : StateDiff
second_diff = record { parent = some 1; added = topic ∷ []; removed = member ∷ [] }

second_diff-IsDiff : IsDiff second_diff
unfolding starts_with to_be_bytes contains list_eq
second_diff-IsDiff = record {
  added = ((refl, refl), tt);
  removed = ((refl, refl), tt);
  added_nodup = (refl, tt);
  removed_nodup = (refl, tt);
  parent = omega arith;
}

decode-encode_example : decode (encode second_diff) ≡ ok second_diff
decode-encode_example = decode-encode second_diff second_diff-IsDiff

abbrev saved_once : Saves list_tree cache (λ b. b) 4 empty 0 [] first_state []
unfolding find get_room_shortstatehash
saved_once =
    save_state-Saves list_tree cache (λ b. b) 4 empty 0 [] first_state none [] empty-IsSound
      (omega arith) (omega arith) first_state-IsState refl refl refl

-- The first state, stored by hand under the hash 1.
save_state_from_diff-Holds_example :
    Holds list_tree
      (save_state_from_diff list_tree [] 1 first_state [] 2 [])
      1
      (λ x. contains x first_state)
unfolding find state_diff
save_state_from_diff-Holds_example =
    save_state_from_diff-Holds list_tree [] 1 refl (omega arith) (omega arith)
      (λ x. contains x first_state) first_state [] 2 [] tt
      (IsDiffTo-state_diff list_tree [] first_state [] first_state-IsState tt)

-- The layer of the first state, and a diff that takes one event away.
abbrev first_layer : Layer
first_layer = record {
  shortstatehash = 1;
  full_state = first_state;
  added = first_state;
  removed = [];
}

first_layer-IsDiffTo :
    IsDiffTo
      (λ x. false)
      (λ x. contains x first_layer.full_state)
      first_layer.added
      first_layer.removed
unfolding state_diff
first_layer-IsDiffTo = IsDiffTo-state_diff list_tree [] first_state [] first_state-IsState tt

-- The member leaves.
second_step :
    IsDiffTo
      (λ x. contains x first_layer.full_state)
      (λ x. contains x (topic ∷ []))
      []
      (member ∷ [])
unfolding contains starts_with to_be_bytes list_eq
second_step = record {
  result = λ x. ground (arith, ==_iff x topic, ==_iff x member);
  new = λ x m. cc;
  old = λ x m. ground (arith, ==_iff x member);
  added_events = tt;
  removed_events = ((refl, refl), tt);
  added_nodup = tt;
  removed_nodup = (refl, tt);
}

IsDiffTo-merge_example :
    IsDiffTo
      (λ x. false)
      (λ x. contains x (topic ∷ []))
      (merge [] (member ∷ []) first_layer).0
      (merge [] (member ∷ []) first_layer).1
IsDiffTo-merge_example = IsDiffTo-merge first_layer first_layer-IsDiffTo second_step

next_count-current_count_example :
    (t : list_tree.Tree) × (next_count list_tree [] ≡ ok (1, t))
    × (current_count list_tree t ≡ ok 1)
unfolding current_count find
next_count-current_count_example = next_count-current_count list_tree [] 0 refl (omega arith)

-- What `save_state` stores first is loaded from the tree.
load-Loads_example : Loads list_tree cache 4 (saved_once.after) 1 saved_once.holds.stack
load-Loads_example =
    load-Loads list_tree cache 4 saved_once.after 1 saved_once.holds.stack saved_once.sound.coherent
      saved_once.holds.stored saved_once.holds.top saved_once.holds.depth
