-- ===== src/StateCompressor/Load.antt =====
-- `load_shortstatehash_info`: with the cache or without, it gives the stack that the tree holds.
use grapevine.Prelude.{
  ℕ, zero, suc, ◌≤◌, List, [], ◌∷◌, ◌≡◌, refl, ap, ◌∙◌, sym, subst, none, some, Result, ok, arith,
  length, Option-cases, inl, inr, List-Eq, ℕ-Eq,
}
use grapevine.Database.Tree.{KvTree}
use grapevine.LruCache.{LruCache}
use grapevine.StateCompressor.{StateDiff, Layer, get_statediff, push_layer, bottom_layer}
use grapevine.StateCompressor.Layers.{top_hash, Stored}
use grapevine.StateCompressor.Save.{new_layer}
use grapevine.StateCompressor.Service.{Compressor, load}

Layer-eq :
    (l m : Layer)
    → l.shortstatehash ≡ m.shortstatehash
    → l.full_state ≡ m.full_state
    → l.added ≡ m.added
    → l.removed ≡ m.removed
    → l ≡ m
Layer-eq l m h f a r =
    λ i. record { shortstatehash = h i; full_state = f i; added = a i; removed = r i }

module _ (E : KvTree) where
  -- The tree holds one stack at most under a hash.
  Stored-unique :
      (t : E.Tree) (a b : List Layer)
      → Stored E t a
      → Stored E t b
      → top_hash a ≡ top_hash b
      → a ≡ b
  Stored-unique t [] [] sa sb e = refl
  Stored-unique t [] (m ∷ ms) sa sb e = cc
  Stored-unique t (l ∷ ls) [] sa sb e = cc
  Stored-unique t (l ∷ ls) (m ∷ ms) sa sb e =
      let hash : l.shortstatehash ≡ m.shortstatehash = cc in
      let same : ◌≡◌ {A = Result StateDiff}
          (ok (record { parent = top_hash ls; added = l.added; removed = l.removed }))
          (ok (record { parent = top_hash ms; added = m.added; removed = m.removed })) =
        sym sa.0.stored ∙ ap (get_statediff E t) hash ∙ sb.0.stored in
      let below : ls ≡ ms = Stored-unique t ls ms sa.1 sb.1 (cc) in
      let added : l.added ≡ m.added = cc in
      let removed : l.removed ≡ m.removed = cc in
      let full : l.full_state ≡ m.full_state = cc (sa.0.full, sb.0.full, below) in
      cc (Layer-eq l m hash full added removed, below)

  module _ (C : LruCache ℕ (List Layer)) where
    -- Every cached stack is the one that the tree holds.
    pub record IsCoherent (s : Compressor E C) : Type 0 where
      pub cached :
          (h : ℕ) (stack : List Layer)
          → C.peek s.stateinfo_cache h ≡ some stack
          → Stored E s.shortstatehash_statediff stack × (top_hash stack ≡ some h)

    abbrev pub with_cache : Compressor E C → C.Cache → Compressor E C
    with_cache s cache = record s { stateinfo_cache = cache }

    -- The call loads the stack, keeps the cache coherent and changes nothing but the cache.
    pub record Loads (fuel : ℕ) (s : Compressor E C) (h : ℕ) (stack : List Layer) : Type 0 where
      pub after : C.Cache
      pub result : load E C fuel s h ≡ (ok stack, with_cache s after)
      pub coherent : IsCoherent (with_cache s after)

    IsCoherent-get_mut :
        (s : Compressor E C) (h : ℕ)
        → IsCoherent s
        → IsCoherent (record s { stateinfo_cache = (C.get_mut s.stateinfo_cache h).1 })
    IsCoherent-get_mut s h c = record {
      cached = λ j r p. c.cached j r (sym (C.peek-get_mut s.stateinfo_cache h j) ∙ p);
    }

    IsCoherent-insert :
        (s : Compressor E C) (h : ℕ) (stack : List Layer)
        → IsCoherent s
        → Stored E s.shortstatehash_statediff stack
        → top_hash stack ≡ some h
        → IsCoherent (record s { stateinfo_cache = C.insert s.stateinfo_cache h stack })
    IsCoherent-insert s h stack c st top = record {
      cached = λ j r p. elim (C.peek-insert s.stateinfo_cache h stack j r p) [
        | inl (same_key, same_stack) ↦ rw (same_stack, same_key) (st, top)
        | inr old ↦ c.cached j r old
      ];
    }

    module _ (fuel : ℕ) (s : Compressor E C) (h : ℕ) where
      abbrev looked_up : C.Cache
      looked_up = (C.get_mut s.stateinfo_cache h).1

      load_hit :
          (stack : List Layer)
          → C.peek s.stateinfo_cache h ≡ some stack
          → load E C (suc fuel) s h ≡ (ok stack, with_cache s looked_up)
      unfolding load
      load_hit stack hit = ground (arith, C.get_mut-peek s.stateinfo_cache h)

      load_bottom :
          (diff : StateDiff)
          → C.peek s.stateinfo_cache h ≡ none
          → get_statediff E s.shortstatehash_statediff h ≡ ok diff
          → diff.parent ≡ none
          → load E C (suc fuel) s h
            ≡ (ok (bottom_layer h diff), with_cache s (C.insert looked_up h (bottom_layer h diff)))
      unfolding load
      load_bottom diff miss found bottom = ground (arith, C.get_mut-peek s.stateinfo_cache h)

      load_above :
          (diff : StateDiff) (parent : ℕ) (stack pushed : List Layer) (after : C.Cache)
          → C.peek s.stateinfo_cache h ≡ none
          → get_statediff E s.shortstatehash_statediff h ≡ ok diff
          → diff.parent ≡ some parent
          → load E C fuel (with_cache s looked_up) parent ≡ (ok stack, with_cache s after)
          → push_layer h diff stack ≡ ok pushed
          → load E C (suc fuel) s h ≡ (ok pushed, with_cache s (C.insert after h pushed))
      unfolding load
      load_above diff parent stack pushed after miss found above rest push =
          ground (arith, C.get_mut-peek s.stateinfo_cache h)

    -- The stack is in the cache.
    Loads-hit :
        (fuel : ℕ) (s : Compressor E C) (h : ℕ) (stack r : List Layer)
        → IsCoherent s
        → Stored E s.shortstatehash_statediff stack
        → top_hash stack ≡ some h
        → C.peek s.stateinfo_cache h ≡ some r
        → Loads (suc fuel) s h stack
    Loads-hit fuel s h stack r c st top hit =
        let (r_stored, r_top) = c.cached h r hit in
        let same : r ≡ stack =
          Stored-unique s.shortstatehash_statediff r stack r_stored st (r_top ∙ sym top) in
        record {
          after = looked_up fuel s h;
          result = load_hit fuel s h stack (hit ∙ ap some same);
          coherent = IsCoherent-get_mut s h c;
        }

    -- It is not, and is made of the tree's diff; `rest` is the load of the stack below.
    Loads-miss :
        (fuel : ℕ) (s : Compressor E C) (h : ℕ) (l : Layer) (ls : List Layer)
        → IsCoherent s
        → Stored E s.shortstatehash_statediff (l ∷ ls)
        → top_hash (l ∷ ls) ≡ some h
        → C.peek s.stateinfo_cache h ≡ none
        → ((j : ℕ) → top_hash ls ≡ some j → Loads fuel (with_cache s (looked_up fuel s h)) j ls)
        → Loads (suc fuel) s h (l ∷ ls)
    Loads-miss fuel s h l [] c st top miss rest =
        let hash : l.shortstatehash ≡ h = cc in
        let diff : StateDiff = record { parent = none; added = l.added; removed = l.removed } in
        let same : bottom_layer h diff ≡ l ∷ [] =
          ap (λ m. m ∷ [])
            (Layer-eq (new_layer h [] l.added l.removed) l (sym hash) (sym st.0.full) refl refl) in
        record {
          after = C.insert (looked_up fuel s h) h (l ∷ []);
          result =
              subst
                (λ x.
                  load E C (suc fuel) s h
                  ≡ (ok x, with_cache s (C.insert (looked_up fuel s h) h x)))
                same
                (load_bottom fuel s h diff miss
                  (sym (ap (get_statediff E s.shortstatehash_statediff) hash) ∙ st.0.stored) refl);
          coherent =
              IsCoherent-insert (with_cache s (looked_up fuel s h)) h (l ∷ [])
                (IsCoherent-get_mut s h c) st top;
        }
    Loads-miss fuel s h l (p ∷ ps) c st top miss rest =
        let hash : l.shortstatehash ≡ h = cc in
        let diff : StateDiff = record {
          parent = some p.shortstatehash;
          added = l.added;
          removed = l.removed;
        } in
        let below = rest p.shortstatehash refl in
        let same : new_layer h (p ∷ ps) l.added l.removed ∷ p ∷ ps ≡ l ∷ p ∷ ps =
          ap (λ m. m ∷ p ∷ ps)
            (Layer-eq (new_layer h (p ∷ ps) l.added l.removed) l (sym hash) (sym st.0.full) refl
              refl) in
        record {
          after = C.insert below.after h (l ∷ p ∷ ps);
          result =
              load_above fuel s h diff p.shortstatehash (p ∷ ps) (l ∷ p ∷ ps) below.after miss
                (sym (ap (get_statediff E s.shortstatehash_statediff) hash) ∙ st.0.stored) refl
                below.result (unfold push_layer in ap ok same);
          coherent =
              IsCoherent-insert (with_cache s below.after) h (l ∷ p ∷ ps) below.coherent st top;
        }

    -- With a coherent cache and fuel for the layers of a stored stack, load_shortstatehash_info
    -- returns exactly that stack, whether the cache has it or not, keeps the cache coherent and
    -- changes nothing else.
    pub load-Loads :
        (fuel : ℕ) (s : Compressor E C) (h : ℕ) (stack : List Layer)
        → IsCoherent s
        → Stored E s.shortstatehash_statediff stack
        → top_hash stack ≡ some h
        → length stack ≤ fuel
        → Loads fuel s h stack
    load-Loads fuel s h [] c st top enough = absurd (cc)
    load-Loads zero s h (l ∷ ls) c st top enough = absurd (omega arith)
    load-Loads (suc fuel) s h (l ∷ ls) c st top enough =
        elim (Option-cases (C.peek s.stateinfo_cache h)) [
          | inl miss ↦ Loads-miss fuel s h l ls c st top miss (λ j e.
              load-Loads fuel (with_cache s (looked_up fuel s h)) j ls (IsCoherent-get_mut s h c)
                st.1 e (omega arith))
          | inr (r, hit) ↦ Loads-hit fuel s h (l ∷ ls) r c st top hit
        ]
