-- ===== src/StateCompressor/FullState.antt =====
-- The full states of stored layers are sets of events, and the diff from one to a new state.
use grapevine.Prelude.{List, [], ◌∷◌, refl, subst, sym, arith, All, List-Eq, ℕ-Eq}
use grapevine.Utils.{Bytes}
use grapevine.HashSet.{contains, insert, remove, extend, remove_all, difference, Nodup}
use grapevine.HashSet.Laws.{Nodup-extend, Nodup-remove_all, Nodup-difference, contains-difference}
use grapevine.Database.Tree.{KvTree}
use grapevine.StateCompressor.{Layer}
use grapevine.StateCompressor.Codec.{IsEvent}
use grapevine.StateCompressor.Diffs.{IsDiffTo, All-filter, All-insert}
use grapevine.StateCompressor.Layers.{base_of, full_of, Stored}
use grapevine.StateCompressor.Service.{state_diff}

-- A set of compressed events.
pub record IsState (xs : List Bytes) : Type 0 where
  pub events : All IsEvent xs
  pub nodup : Nodup xs

All-extend : (xs s : List Bytes) → All IsEvent xs → All IsEvent s → All IsEvent (extend xs s)
unfolding extend
All-extend [] s a b = b
All-extend (x ∷ xs) s a b = All-extend xs (insert x s) a.1 (All-insert s x b a.0)

All-remove_all : (xs s : List Bytes) → All IsEvent s → All IsEvent (remove_all xs s)
unfolding remove_all remove
All-remove_all [] s b = b
All-remove_all (x ∷ xs) s b = All-remove_all xs (remove x s) (All-filter _ s b)

module _ (E : KvTree) (t : E.Tree) where
  IsState-full_of :
      (ls : List Layer) (l : Layer) → Stored E t (l ∷ ls) → IsState (full_of ls l.added l.removed)
  IsState-full_of [] l st = record {
    events = st.0.diff.added_events;
    nodup = st.0.diff.added_nodup;
  }
  IsState-full_of (p ∷ ps) l st =
      let below : IsState p.full_state =
        subst IsState (sym st.1.0.full) (IsState-full_of ps p st.1) in
      record {
        events =
            All-remove_all l.removed _
              (All-extend l.added p.full_state st.0.diff.added_events below.events);
        nodup = Nodup-remove_all l.removed _ (Nodup-extend l.added p.full_state below.nodup);
      }

  -- The diff that `save_state` computes leads from the previous state to the new one.
  pub IsDiffTo-state_diff :
      (new_state : List Bytes) (parents : List Layer)
      → IsState new_state
      → Stored E t parents
      → IsDiffTo
          (base_of parents)
          (λ x. contains x new_state)
          (state_diff new_state parents).0
          (state_diff new_state parents).1
  unfolding state_diff
  IsDiffTo-state_diff new_state [] n st = record {
    result = λ x. unfold contains in ground arith;
    new = λ x m. refl;
    old = λ x m. unfold contains in cc m;
    added_events = n.events;
    removed_events = tt;
    added_nodup = n.nodup;
    removed_nodup = tt;
  }
  IsDiffTo-state_diff new_state (p ∷ ps) n st =
      let full : IsState p.full_state = subst IsState (sym st.0.full) (IsState-full_of ps p st) in
      record {
        result = λ x. ground (
          arith,
          contains-difference x new_state p.full_state,
          contains-difference x p.full_state new_state,
        );
        new = λ x. ground (arith, contains-difference x new_state p.full_state);
        old = λ x. ground (arith, contains-difference x p.full_state new_state);
        added_events = unfold difference in All-filter _ new_state n.events;
        removed_events = unfold difference in All-filter _ p.full_state full.events;
        added_nodup = Nodup-difference new_state p.full_state n.nodup;
        removed_nodup = Nodup-difference p.full_state new_state full.nodup;
      }
