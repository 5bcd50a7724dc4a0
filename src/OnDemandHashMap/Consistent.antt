-- ===== src/OnDemandHashMap/Consistent.antt =====
-- The invariant of the map, and that each change of the handles keeps it.
use grapevine.Prelude.{
  ℕ, suc, ◌≤◌, ◌<◌, true, false, List, ◌∷◌, ◌++◌, none, some, Eq, ==_iff, ==_refl, ◌≡◌, ◌≢◌, refl,
  sym, ◌∙◌, ◌⊎◌, inl, inr, arith, subst,
}
use grapevine.HashMap.{HashMap, get, insert, remove, get-insert, get-remove}
use grapevine.OnDemandHashMap.{
  Phase, creating, holding, Handle, strong_count, lock_count, is_locked, is_creating,
  try_get_live_value,
}
use grapevine.OnDemandHashMap.Handles.{
  In, In-split, strong_count-split, lock_count-split, strong_count-In, strong_count_unused,
}

module _ {K : Type 0} ⦃e : Eq K⦄ where
  pub record IsConsistent (entries : HashMap K ℕ) (fresh : ℕ) (hs : List (Handle K)) : Type 0 where
    -- A value in use is the one that the map has under its key.
    pub mapped :
        (c : Handle K) → In c hs → is_creating c.phase ≡ false → get c.key entries ≡ some c.value
    pub allocated : (c : Handle K) → In c hs → c.value < fresh
    pub known : (k : K) (v : ℕ) → get k entries ≡ some v → v < fresh
    -- A created value is its creator's alone until it is published.
    pub alone : (c : Handle K) → In c hs → is_creating c.phase ≡ true → strong_count c.value hs ≡ 1
    pub unknown :
        (c : Handle K) (k : K) → In c hs → is_creating c.phase ≡ true → get k entries ≢ some c.value
    -- A mutex has one owner at most.
    pub locks : (v : ℕ) → lock_count v hs ≤ 1

  module _ (entries : HashMap K ℕ) (fresh : ℕ) where
    pub IsConsistent-split :
        (h : Handle K) (before after : List (Handle K))
        → IsConsistent entries fresh (before ++ h ∷ after)
        → IsConsistent entries fresh (h ∷ (before ++ after))
    IsConsistent-split h before after c = record {
      mapped = λ x m. c.mapped x (In-split x h before after m);
      allocated = λ x m. c.allocated x (In-split x h before after m);
      known = c.known;
      alone = λ x m p.
          sym (strong_count-split x.value h before after)
          ∙ c.alone x (In-split x h before after m) p;
      unknown = λ x k m. c.unknown x k (In-split x h before after m);
      locks = λ v. subst (λ n. n ≤ 1) (lock_count-split v h before after) (c.locks v);
    }

    -- A handle of the value that the map has under its key may come.
    pub IsConsistent-hit :
        (k : K) (v : ℕ) (hs : List (Handle K))
        → get k entries ≡ some v
        → IsConsistent entries fresh hs
        → IsConsistent entries fresh (record { key = k; value = v; phase = holding false } ∷ hs)
    unfolding strong_count lock_count is_creating
    IsConsistent-hit k v hs found c = record {
      mapped = λ x m p. ground (arith, c.mapped x);
      allocated = λ x m. ground (arith, c.allocated x, c.known k v found);
      known = c.known;
      alone = λ x m p. ground (arith, c.alone x, c.unknown x k);
      unknown = λ x j m p. ground (arith, c.unknown x j);
      locks = λ w. ground (arith, c.locks w);
    }

    -- A handle of a new value may come.
    pub IsConsistent-create :
        (k : K) (hs : List (Handle K))
        → IsConsistent entries fresh hs
        → IsConsistent entries
            (suc fresh)
            (record { key = k; value = fresh; phase = creating } ∷ hs)
    unfolding strong_count lock_count is_creating
    IsConsistent-create k hs c = record {
      mapped = λ x m p. ground (arith, c.mapped x);
      allocated = λ x m. ground (arith, c.allocated x);
      known = λ j v found. ground (arith, c.known j v);
      alone = λ x m p.
          ground (arith, c.alone x, c.allocated x, strong_count_unused fresh hs c.allocated);
      unknown = λ x j m p. ground (arith, c.unknown x j, c.known j fresh);
      locks = λ w. ground (arith, c.locks w);
    }

    -- A handle may go.
    pub IsConsistent-drop :
        (h : Handle K) (hs : List (Handle K))
        → IsConsistent entries fresh (h ∷ hs)
        → IsConsistent entries fresh hs
    unfolding strong_count lock_count
    IsConsistent-drop h hs c = record {
      mapped = λ x m. c.mapped x (inr m);
      allocated = λ x m. c.allocated x (inr m);
      known = c.known;
      alone = λ x m p. ground (arith, c.alone x (inr m) p, strong_count-In x hs m);
      unknown = λ x k m. c.unknown x k (inr m);
      locks = λ w. ground (arith, c.locks w);
    }

    -- A handle that is not creating its value may go on to another such phase, if its mutex is free
    -- or stays as it is.
    pub IsConsistent-with_phase :
        (h : Handle K) (p : Phase) (hs : List (Handle K))
        → is_creating h.phase ≡ false
        → is_creating p ≡ false
        → (is_locked p ≡ is_locked h.phase) ⊎ (lock_count h.value (h ∷ hs) ≡ 0)
        → IsConsistent entries fresh (h ∷ hs)
        → IsConsistent entries fresh (record h { phase = p } ∷ hs)
    unfolding strong_count lock_count
    IsConsistent-with_phase h p hs old new free c = record {
      mapped = λ x m q. ground (arith, c.mapped h (inl refl) old, c.mapped x);
      allocated = λ x m. ground (arith, c.allocated x, c.allocated h);
      known = c.known;
      alone = λ x m q. ground (arith, c.alone x);
      unknown = λ x k m q. ground (arith, c.unknown x k);
      locks = λ w. ground (arith, c.locks w);
    }

    -- A created value may be published under a key that has no value in use.
    pub IsConsistent-publish :
        (h : Handle K) (hs : List (Handle K))
        → is_creating h.phase ≡ true
        → try_get_live_value entries (h ∷ hs) h.key ≡ none
        → IsConsistent entries fresh (h ∷ hs)
        → IsConsistent
            (insert h.key h.value entries)
            fresh
            (record h { phase = holding false } ∷ hs)
    unfolding strong_count lock_count is_creating try_get_live_value
    IsConsistent-publish h hs new dead c = record {
      mapped = λ x m q. ground (
        arith,
        get-insert entries h.key h.value x.key,
        c.mapped x,
        strong_count-In x hs,
        ==_iff h.key x.key,
        ==_refl h.key,
      );
      allocated = λ x m. ground (arith, c.allocated x, c.allocated h);
      known = λ j v found.
          ground (arith, get-insert entries h.key h.value j, c.known j v, c.allocated h (inl refl));
      alone = λ x m q. ground (arith, c.alone x);
      unknown = λ x j m q. ground (
        arith,
        get-insert entries h.key h.value j,
        c.unknown x j,
        c.alone h (inl refl) new,
        strong_count-In x hs,
      );
      locks = λ w. ground (arith, c.locks w);
    }

    -- An entry whose value is not in use may be removed.
    pub IsConsistent-remove :
        (k : K) (v : ℕ) (hs : List (Handle K))
        → get k entries ≡ some v
        → strong_count v hs ≡ 0
        → IsConsistent entries fresh hs
        → IsConsistent (remove k entries) fresh hs
    IsConsistent-remove k v hs found unused c = record {
      mapped = λ x m q. ground (
        arith,
        get-remove entries k x.key,
        c.mapped x m q,
        strong_count-In x hs m,
        ==_iff k x.key,
      );
      allocated = c.allocated;
      known = λ j w there. ground (arith, get-remove entries k j, c.known j w);
      alone = c.alone;
      unknown = λ x j m q. ground (arith, get-remove entries k j, c.unknown x j m q);
      locks = c.locks;
    }
