-- ===== src/OnDemandHashMap/Steps.antt =====
-- The interleavings: each critical section is one step, and any task may go next.
use grapevine.Prelude.{Bool, true, false, List, [], ◌∷◌, ◌++◌, ◌≡◌, Eq}
use grapevine.OnDemandHashMap.{
  creating, holding, closing, Handle, Shared, lock_count, first_pass, second_pass,
  try_cleanup_entry, with_phase,
}

module _ (K : Type 0) ⦃e : Eq K⦄ where
  -- OnDemandHashMap::new
  abbrev pub empty : Shared K
  empty = record { entries = []; channel = []; handles = []; fresh = 0 }

  pub data Step : Shared K → Shared K → Type 0 where
    -- A call takes the read lock, and creates its value if it finds none alive.
    call : (s : Shared K) (k : K) → Step s (first_pass s k)
    -- A call that has created its value takes the write lock.
    publish :
        (s : Shared K) (h : Handle K) (before after : List (Handle K))
        → s.handles ≡ before ++ h ∷ after
        → h.phase ≡ creating
        → Step s (second_pass s h.key h.value (before ++ after))
    -- A call that has created its value is cancelled while it waits for the write lock.
    cancel :
        (s : Shared K) (h : Handle K) (before after : List (Handle K))
        → s.handles ≡ before ++ h ∷ after
        → h.phase ≡ creating
        → Step s (record s { handles = before ++ after })
    -- `lock_owned` returns once nobody else holds the mutex of the value.
    lock :
        (s : Shared K) (h : Handle K) (before after : List (Handle K))
        → s.handles ≡ before ++ h ∷ after
        → h.phase ≡ holding false
        → lock_count h.value s.handles ≡ 0
        → Step s (with_phase s h (holding true) (before ++ after))
    -- A call that waits for the mutex is cancelled: its `Arc` goes with the future of `lock_owned`,
    -- and then its guard, which sends the key.
    cancel_lock :
        (s : Shared K) (h : Handle K) (before after : List (Handle K))
        → s.handles ≡ before ++ h ∷ after
        → h.phase ≡ holding false
        → Step s (record s { handles = before ++ after; channel = s.channel ++ h.key ∷ [] })
    -- The first field of an entry or a token is dropped: the guard sends the key to the cleanup task.
    drop_guard :
        (s : Shared K) (h : Handle K) (locked : Bool) (before after : List (Handle K))
        → s.handles ≡ before ++ h ∷ after
        → h.phase ≡ holding locked
        → Step s (record s {
          handles = record h { phase = closing locked } ∷ (before ++ after);
          channel = s.channel ++ h.key ∷ [];
        })
    -- Then the value, or the guard of its mutex.
    drop_value :
        (s : Shared K) (h : Handle K) (locked : Bool) (before after : List (Handle K))
        → s.handles ≡ before ++ h ∷ after
        → h.phase ≡ closing locked
        → Step s (record s { handles = before ++ after })
    -- The cleanup task takes the next key.
    clean :
        (s : Shared K) (k : K) (rest : List K)
        → s.channel ≡ k ∷ rest
        → Step s (record (try_cleanup_entry s k) { channel = rest })

  pub data Reach : Shared K → Type 0 where
    created : Reach empty
    next : {s t : Shared K} → Reach s → Step s t → Reach t
