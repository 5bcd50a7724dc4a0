-- ===== src/StateCompressor/Sound.antt =====
-- The invariant of the state compressor, and that storing a diff under a new hash keeps it.
use native.Mathlib.Decide.{ℕ_discrete as dec_eq}
use grapevine.Prelude.{
  ℕ, ◌+◌, ◌<◌, List, [], ◌∷◌, ◌≡◌, ◌≢◌, refl, sym, ap, some, ok, arith, length, Bool, List-Eq, ℕ-Eq,
  ◌⊎◌, inl, inr, if_both, ==_iff,
}
use grapevine.Utils.{Bytes, to_be_bytes, u64_mod}
use grapevine.Utils.Laws.{to_be_bytes-injective}
use grapevine.Database.Tree.{KvTree}
use grapevine.LruCache.{LruCache}
use grapevine.Globals.{current_count}
use grapevine.StateCompressor.{
  Layer, StateDiff, get_statediff, save_statediff, save_state_from_diff, merge, encode,
}
use grapevine.StateCompressor.Layers.{top_hash, Stored, IsFresh, Stored-save}
use grapevine.StateCompressor.Save.{Holds}
use grapevine.StateCompressor.Load.{IsCoherent}
use grapevine.StateCompressor.Service.{Compressor}

lt_ne : {a b : ℕ} → a ≡ b → ¬ (a < b)
lt_ne e = omega arith

module _ (E : KvTree) where
  -- `save_state_from_diff` writes one diff, under the given hash.
  pub save_one :
      (t : E.Tree) (h : ℕ) (added removed : List Bytes) (k : ℕ) (parents : List Layer)
      → (d : StateDiff) × (save_state_from_diff E t h added removed k parents
          ≡ save_statediff E t h d)
  unfolding save_state_from_diff
  save_one t h added removed k [] = (_, refl)
  save_one t h added removed k (p ∷ ps) =
      let P : E.Tree → Type 0 = λ t'. (d : StateDiff) × (t' ≡ save_statediff E t h d) in
      let deeper =
        save_one t h (merge added removed p).0 (merge added removed p).1
          (length added + length removed) ps in
      if_both P _ _ _ deeper (if_both P _ _ _ deeper (_, refl))

  -- What the tree holds stays, whatever diff is stored under a new hash.
  pub Holds-save :
      (t : E.Tree) (h j : ℕ) (d : StateDiff) (target : Bytes → Bool)
      → IsFresh E t h
      → Holds E t j target
      → Holds E (save_statediff E t h d) j target
  Holds-save t h j d target fresh held = record {
    stack = held.stack;
    stored = Stored-save E t h d held.stack fresh held.stored;
    top = held.top;
    depth = held.depth;
    state = held.state;
  }

  pub Stored-not-IsFresh :
      (t : E.Tree) (h : ℕ) (stack : List Layer)
      → Stored E t stack
      → top_hash stack ≡ some h
      → ¬ (IsFresh E t h)
  unfolding get_statediff
  Stored-not-IsFresh t h [] st top fresh = cc
  Stored-not-IsFresh t h (l ∷ ls) st top fresh =
      let hash : l.shortstatehash ≡ h = cc in
      ground (arith, st.0.stored, ap (λ j. E.get t (to_be_bytes j)) hash)

  IsFresh-save :
      (t : E.Tree) (h j : ℕ) (d : StateDiff)
      → to_be_bytes h ≢ to_be_bytes j
      → IsFresh E t j
      → IsFresh E (save_statediff E t h d) j
  unfolding save_statediff
  IsFresh-save t h j d ne fresh = ground (
    arith,
    E.get-insert t (to_be_bytes h) (encode d) (to_be_bytes j),
    ==_iff (to_be_bytes h) (to_be_bytes j),
  )

  module _ (C : LruCache ℕ (List Layer)) where
    -- The state of a running server: the cache agrees with the tree, every stored hash has its
    -- stack, and the counter is ahead of all of them.
    pub record IsSound (s : Compressor E C) (count : ℕ) : Type 0 where
      pub coherent : IsCoherent E C s
      pub known :
          (h : ℕ)
          → h < u64_mod
          → IsFresh E s.shortstatehash_statediff h
            ⊎ ((target : Bytes → Bool) × Holds E s.shortstatehash_statediff h target)
      pub counted : current_count E s.global ≡ ok count
      pub ahead : (h : ℕ) → count < h → h < u64_mod → IsFresh E s.shortstatehash_statediff h

    -- The state as it is after one more diff under the next hash.
    pub IsSound-save :
        (s s' : Compressor E C) (count : ℕ) (d : StateDiff) (target : Bytes → Bool)
        → IsSound s count
        → count + 1 < u64_mod
        → s'.shortstatehash_statediff ≡ save_statediff E s.shortstatehash_statediff (count + 1) d
        → Holds E s'.shortstatehash_statediff (count + 1) target
        → IsCoherent E C s'
        → current_count E s'.global ≡ ok (count + 1)
        → IsSound s' (count + 1)
    IsSound-save s s' count d target sound fits tree held coherent counted = record {
      coherent = coherent;
      known = λ h lt. elim (dec_eq h (count + 1)) [
        | yes same ↦ inr (target, rw same held)
        | no other ↦ elim (sound.known h lt) [
          | inl fresh ↦ inl (
              rw tree (
                IsFresh-save _ (count + 1) h d
                  (λ e. other (sym (to_be_bytes-injective _ _ fits lt e))) fresh))
          | inr (t, h_held) ↦ inr (
            t,
            rw tree (
                Holds-save _ (count + 1) h d t (sound.ahead (count + 1) (omega arith) fits) h_held),
          )
        ]
      ];
      counted = counted;
      ahead = λ h lt in_range. rw tree (
          IsFresh-save _ (count + 1) h d
            (λ e. absurd (lt_ne (to_be_bytes-injective (count + 1) h fits in_range e) lt))
            (sound.ahead h (omega arith) in_range));
    }
