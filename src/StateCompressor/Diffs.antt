-- ===== src/StateCompressor/Diffs.antt =====
-- The arithmetic of diffs: two diffs, one on top of the other, are merged into one.
use grapevine.Prelude.{
  List, [], ◌∷◌, ◌≡◌, Bool, true, false, ◌&&◌, ◌||◌, not, arith, ==_iff, List-Eq, ℕ-Eq, All,
  Bool-cases, inl, inr, if_both, ◌++◌, filter,
}
use grapevine.Utils.{Bytes}
use grapevine.HashSet.{contains, insert, remove, Nodup}
use grapevine.HashSet.Laws.{contains-insert, contains-remove, Nodup-insert, Nodup-remove}
use grapevine.StateCompressor.{Layer, cancel, merge}
use grapevine.StateCompressor.Codec.{IsEvent}

-- The diff leads from the one set of events to the other: it adds what was not there, and removes
-- what was.
pub record IsDiffTo (base target : Bytes → Bool) (added removed : List Bytes) : Type 0 where
  pub result : (x : Bytes) → target x ≡ (not (contains x removed) && (contains x added || base x))
  pub new : (x : Bytes) → contains x added ≡ true → base x ≡ false
  pub old : (x : Bytes) → contains x removed ≡ true → base x ≡ true
  pub added_events : All IsEvent added
  pub removed_events : All IsEvent removed
  pub added_nodup : Nodup added
  pub removed_nodup : Nodup removed

module _ (x : Bytes) where
  -- What the loop leaves in the set that it removes from.
  pub contains-cancel_from :
      (xs from into : List Bytes)
      → contains x (cancel xs from into).0 ≡ (contains x from && not (contains x xs))
  unfolding cancel contains
  contains-cancel_from [] from into = ground arith
  contains-cancel_from (y ∷ xs) from into = ground (
    arith,
    contains-cancel_from xs (remove y from) into,
    contains-cancel_from xs from (insert y into),
    contains-remove x y from,
    ==_iff x y,
  )

  -- What it inserts is what was not removed.
  pub contains-cancel_into :
      (xs from into : List Bytes)
      → Nodup xs
      → contains x (cancel xs from into).1
        ≡ (contains x into || (contains x xs && not (contains x from)))
  unfolding cancel contains
  contains-cancel_into [] from into d = ground arith
  contains-cancel_into (y ∷ xs) from into d = ground (
    arith,
    contains-cancel_into xs (remove y from) into d.1,
    contains-cancel_into xs from (insert y into) d.1,
    contains-remove x y from,
    contains-insert x y into,
    ==_iff x y,
    d.0,
  )

Nodup-cancel :
    (xs from into : List Bytes)
    → Nodup from
    → Nodup into
    → Nodup (cancel xs from into).0 × Nodup (cancel xs from into).1
unfolding cancel
Nodup-cancel [] from into f i = (f, i)
Nodup-cancel (y ∷ xs) from into f i =
    Nodup-cancel xs _ _ (if_both Nodup (contains y from) _ _ (Nodup-remove y from f) f)
      (if_both Nodup (contains y from) _ _ i (Nodup-insert y into i))

All-append_one :
    (xs : List Bytes) (x : Bytes) → All IsEvent xs → IsEvent x → All IsEvent (xs ++ x ∷ [])
All-append_one [] x a h = (h, tt)
All-append_one (y ∷ xs) x a h = (a.0, All-append_one xs x a.1 h)

pub All-insert :
    (xs : List Bytes) (x : Bytes) → All IsEvent xs → IsEvent x → All IsEvent (insert x xs)
unfolding insert
All-insert xs x a h = elim (Bool-cases (contains x xs)) [
  | inl e ↦ rw e a
  | inr e ↦ rw e (All-append_one xs x a h)
]

pub All-filter : (p : Bytes → Bool) (xs : List Bytes) → All IsEvent xs → All IsEvent (filter p xs)
unfolding filter
All-filter p [] a = tt
All-filter p (y ∷ xs) a = elim (Bool-cases (p y)) [
  | inl e ↦ rw e (a.0, All-filter p xs a.1)
  | inr e ↦ rw e (All-filter p xs a.1)
]

All-cancel :
    (xs from into : List Bytes)
    → All IsEvent xs
    → All IsEvent from
    → All IsEvent into
    → All IsEvent (cancel xs from into).0 × All IsEvent (cancel xs from into).1
unfolding cancel remove
All-cancel [] from into a f i = (f, i)
All-cancel (y ∷ xs) from into a f i =
    All-cancel xs _ _ a.1 (if_both (All IsEvent) (contains y from) _ _ (All-filter _ from f) f)
      (if_both (All IsEvent) (contains y from) _ _ i (All-insert into y i a.0))

module _ {base target : Bytes → Bool} {added removed : List Bytes} (parent : Layer)
    (below : IsDiffTo base (λ x. contains x parent.full_state) parent.added parent.removed)
    (top : IsDiffTo (λ x. contains x parent.full_state) target added removed) where
  abbrev step_one : List Bytes × List Bytes
  step_one = cancel removed parent.added parent.removed

  abbrev merged : List Bytes × List Bytes
  merged = merge added removed parent

  merge_at :
      (x : Bytes)
      → (target x ≡ (not (contains x merged.1) && (contains x merged.0 || base x)))
        × (contains x merged.0 ≡ true → base x ≡ false)
        × (contains x merged.1 ≡ true → base x ≡ true)
  unfolding merge
  merge_at x = ground (
    arith,
    top.result x,
    top.new x,
    top.old x,
    below.result x,
    below.new x,
    below.old x,
    contains-cancel_from x added step_one.1 step_one.0,
    contains-cancel_into x added step_one.1 step_one.0 top.added_nodup,
    contains-cancel_from x removed parent.added parent.removed,
    contains-cancel_into x removed parent.added parent.removed top.removed_nodup,
  )

  -- A diff on top of a parent whose own diff leads from a base to its full state, merged into the
  -- diff of the parent, leads from that base to the same target: it adds only what the base lacks
  -- and removes only what it has.
  pub IsDiffTo-merge : IsDiffTo base target merged.0 merged.1
  unfolding merge
  IsDiffTo-merge = record {
    result = λ x. (merge_at x).0;
    new = λ x. (merge_at x).1;
    old = λ x. (merge_at x).2;
    added_events = second_events.1;
    removed_events = second_events.0;
    added_nodup = second_nodup.1;
    removed_nodup = second_nodup.0;
  }
    where
      first_events : All IsEvent step_one.0 × All IsEvent step_one.1
      first_events =
          All-cancel removed parent.added parent.removed top.removed_events below.added_events
            below.removed_events

      second_events :
          All IsEvent (cancel added step_one.1 step_one.0).0
          × All IsEvent (cancel added step_one.1 step_one.0).1
      second_events =
          All-cancel added step_one.1 step_one.0 top.added_events first_events.1 first_events.0

      first_nodup : Nodup step_one.0 × Nodup step_one.1
      first_nodup =
          Nodup-cancel removed parent.added parent.removed below.added_nodup below.removed_nodup

      second_nodup :
          Nodup (cancel added step_one.1 step_one.0).0
          × Nodup (cancel added step_one.1 step_one.0).1
      second_nodup = Nodup-cancel added step_one.1 step_one.0 first_nodup.1 first_nodup.0
