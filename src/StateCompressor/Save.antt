-- ===== src/StateCompressor/Save.antt =====
-- `save_state_from_diff`: whichever layer the diff ends on, its stack is stored, at most four
-- layers deep, and holds the target state.
use grapevine.Prelude.{
  ℕ, ◌+◌, ◌<◌, ◌≤◌, List, [], ◌∷◌, ◌≡◌, refl, ◌∙◌, some, Bool, arith, length, List-Eq, ℕ-Eq, ltb,
  leb, Bool-cases, inl, inr, if_both, le_of_not_ltb,
}
use grapevine.Utils.{Bytes, u64_mod}
use grapevine.HashSet.{contains, extend}
use grapevine.HashSet.Laws.{contains-extend, contains-remove_all}
use grapevine.Database.Tree.{KvTree}
use grapevine.StateCompressor.{Layer, save_statediff, save_state_from_diff, merge}
use grapevine.StateCompressor.Codec.{get-save_statediff, ParentOk}
use grapevine.StateCompressor.Diffs.{IsDiffTo, IsDiffTo-merge}
use grapevine.StateCompressor.Layers.{base_of, top_hash, full_of, Stored, IsFresh, Stored-save}

-- The layer that is put on top of a stack.
abbrev pub new_layer : ℕ → List Layer → List Bytes → List Bytes → Layer
new_layer h parents added removed = record {
  shortstatehash = h;
  full_state = full_of parents added removed;
  added = added;
  removed = removed;
}

-- The new layer's full state is the target.
contains-full_of :
    {target : Bytes → Bool} {added removed : List Bytes} (parents : List Layer)
    → IsDiffTo (base_of parents) target added removed
    → (x : Bytes) → contains x (full_of parents added removed) ≡ target x
contains-full_of [] d x = ground (arith, d.result x, d.old x)
contains-full_of {target} {added} {removed} (p ∷ ps) d x = ground (
  arith,
  d.result x,
  contains-remove_all x removed (extend added p.full_state),
  contains-extend x added p.full_state,
)

module _ (E : KvTree) where
  ParentOk-top_hash :
      (t : E.Tree) (parents : List Layer) → Stored E t parents → ParentOk (top_hash parents)
  ParentOk-top_hash t [] s = tt
  ParentOk-top_hash t (l ∷ ls) s = (s.0.positive, s.0.in_range)

  -- A stack of at most four layers that the tree holds under the hash, with the target state on
  -- top.
  pub record Holds (t : E.Tree) (h : ℕ) (target : Bytes → Bool) : Type 0 where
    pub stack : List Layer
    pub stored : Stored E t stack
    pub top : top_hash stack ≡ some h
    pub depth : length stack ≤ 4
    pub state : (x : Bytes) → base_of stack x ≡ target x

  module _ (t : E.Tree) (h : ℕ) (fresh : IsFresh E t h) (positive : 0 < h)
      (in_range : h < u64_mod) where
    -- Storing the diff itself on top of the parents.
    Holds-save_statediff :
        (target : Bytes → Bool) (added removed : List Bytes) (parents : List Layer)
        → Stored E t parents
        → length parents ≤ 3
        → IsDiffTo (base_of parents) target added removed
        → Holds
            (save_statediff E t h
              (record { parent = top_hash parents; added = added; removed = removed }))
            h
            target
    Holds-save_statediff target added removed parents s few d = record {
      stack = new_layer h parents added removed ∷ parents;
      stored = (
        record {
          stored = get-save_statediff E t h _ (record {
            added = d.added_events;
            removed = d.removed_events;
            added_nodup = d.added_nodup;
            removed_nodup = d.removed_nodup;
            parent = ParentOk-top_hash t parents s;
          });
          full = refl;
          diff = record {
            result = λ x. contains-full_of parents d x ∙ d.result x;
            new = d.new;
            old = d.old;
            added_events = d.added_events;
            removed_events = d.removed_events;
            added_nodup = d.added_nodup;
            removed_nodup = d.removed_nodup;
          };
          positive = positive;
          in_range = in_range;
        },
        Stored-save E t h _ parents fresh s,
      );
      top = refl;
      depth = omega arith;
      state = contains-full_of parents d;
    }

    -- For a stored stack of parents and a diff from the state on its top to a target state,
    -- save_state_from_diff under a fresh positive u64 hash leaves a tree that holds the target
    -- state under this hash in a stack of at most four layers.
    pub save_state_from_diff-Holds :
        (target : Bytes → Bool) (added removed : List Bytes) (k : ℕ) (parents : List Layer)
        → Stored E t parents
        → IsDiffTo (base_of parents) target added removed
        → Holds (save_state_from_diff E t h added removed k parents) h target
    unfolding save_state_from_diff
    save_state_from_diff-Holds target added removed k [] s d =
        Holds-save_statediff target added removed [] s (omega arith) d
    save_state_from_diff-Holds target added removed k (p ∷ ps) s d =
        let deeper =
          save_state_from_diff-Holds target (merge added removed p).0 (merge added removed p).1
            (length added + length removed) ps s.1 (IsDiffTo-merge p s.0.diff d) in
        elim (Bool-cases (ltb 3 (length (p ∷ ps)))) [
          | inl many ↦ rw many deeper
          | inr few ↦ rw few (
              if_both (λ t'. Holds t' h target) (leb _ _) _ _ deeper
                (Holds-save_statediff target added removed (p ∷ ps) s (le_of_not_ltb 3 _ few) d))
        ]
