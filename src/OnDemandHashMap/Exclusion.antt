-- ===== src/OnDemandHashMap/Exclusion.antt =====
-- The invariant holds in every state that the tasks can come to; so the handles of a key share one
-- value, and one of them at most owns its mutex.
use grapevine.Prelude.{
  ℕ, suc, ◌≤◌, true, false, ◌&&◌, List, [], ◌∷◌, ◌++◌, none, some, if◌then◌else◌, nat_eq, Eq, ◌==◌,
  ==_iff, ◌≡◌, refl, sym, ◌∙◌, ◌⊎◌, inl, inr, arith, subst, Option-cases, ap, nat_eq→eq,
  Option_split, if_split,
}
use grapevine.HashMap.{HashMap, get}
use grapevine.OnDemandHashMap.{
  Phase, creating, holding, closing, Handle, Shared, strong_count, upgrade, lock_count, is_locked,
  is_creating, try_get_live_value, first_pass, second_pass, try_cleanup_entry, with_phase,
}
use grapevine.OnDemandHashMap.Steps.{
  Step, call, publish, cancel, lock, cancel_lock, drop_guard, drop_value, clean, Reach, created,
  next,
}
use grapevine.OnDemandHashMap.Handles.{In, lock_count-split}
use grapevine.OnDemandHashMap.Consistent.{
  IsConsistent, IsConsistent-split, IsConsistent-hit, IsConsistent-create, IsConsistent-drop,
  IsConsistent-with_phase, IsConsistent-publish, IsConsistent-remove,
}

locked_not_creating : (p : Phase) → is_locked p ≡ true → is_creating p ≡ false
unfolding is_locked is_creating
locked_not_creating creating h = sym h
locked_not_creating (holding l) h = refl
locked_not_creating (closing l) h = refl

module _ {K : Type 0} ⦃e : Eq K⦄ where
  abbrev Consistent : Shared K → Type 0
  Consistent s = IsConsistent s.entries s.fresh s.handles

  live-get :
      (entries : HashMap K ℕ) (hs : List (Handle K)) (k : K) (v : ℕ)
      → try_get_live_value entries hs k ≡ some v
      → get k entries ≡ some v
  unfolding try_get_live_value upgrade
  live-get entries hs k v live = ground arith

  singled :
      (s : Shared K) (h : Handle K) (before after : List (Handle K))
      → s.handles ≡ before ++ h ∷ after
      → Consistent s
      → IsConsistent s.entries s.fresh (h ∷ (before ++ after))
  singled s h before after is c =
      IsConsistent-split s.entries s.fresh h before after
        (subst (IsConsistent s.entries s.fresh) is c)

  first_pass-Consistent : (s : Shared K) (k : K) → Consistent s → Consistent (first_pass s k)
  unfolding first_pass
  first_pass-Consistent s k c =
      Option_split Consistent (try_get_live_value s.entries s.handles k) _ _
        (λ dead. IsConsistent-create s.entries s.fresh k s.handles c)
        (λ v live.
          IsConsistent-hit s.entries s.fresh k v s.handles (live-get s.entries s.handles k v live)
            c)

  second_pass-Consistent :
      (s : Shared K) (h : Handle K) (others : List (Handle K))
      → h.phase ≡ creating
      → IsConsistent s.entries s.fresh (h ∷ others)
      → Consistent (second_pass s h.key h.value others)
  unfolding second_pass is_creating
  second_pass-Consistent s h others new c =
      let created_handle : Handle K = record h { phase = creating } in
      Option_split Consistent (try_get_live_value s.entries (created_handle ∷ others) h.key) _ _
        (λ dead.
          IsConsistent-publish s.entries s.fresh h others (ap is_creating new)
            (subst (λ x. try_get_live_value s.entries (x ∷ others) h.key ≡ none)
              (ap (λ p. record h { phase = p }) (sym new)) dead)
            c)
        (λ v live.
          IsConsistent-hit s.entries s.fresh h.key v others
            (live-get s.entries (created_handle ∷ others) h.key v live)
            (IsConsistent-drop s.entries s.fresh h others c))

  try_cleanup_entry-Consistent :
      (s : Shared K) (k : K) → Consistent s → Consistent (try_cleanup_entry s k)
  unfolding try_cleanup_entry
  try_cleanup_entry-Consistent s k c =
      Option_split Consistent (get k s.entries) _ _ (λ missing. c)
        (λ v found.
          if_split Consistent (nat_eq (strong_count v s.handles) 0) _ _
            (λ unused.
              IsConsistent-remove s.entries s.fresh k v s.handles found (nat_eq→eq _ _ unused) c)
            (λ used. c))

  -- A handle singled out may go on to a phase, and the entries and the allocations stay.
  moved :
      (s : Shared K) (h : Handle K) (p : Phase) (before after : List (Handle K))
      → s.handles ≡ before ++ h ∷ after
      → is_creating h.phase ≡ false
      → is_creating p ≡ false
      → (is_locked p ≡ is_locked h.phase) ⊎ (lock_count h.value s.handles ≡ 0)
      → Consistent s
      → Consistent (with_phase s h p (before ++ after))
  moved s h p before after is old new free c =
      IsConsistent-with_phase s.entries s.fresh h p (before ++ after) old new
        (elim free [
          | inl same ↦ inl same
          | inr none_locked ↦ inr (
              sym (lock_count-split h.value h before after)
              ∙ ap (lock_count h.value) (sym is)
              ∙ none_locked)
        ])
        (singled s h before after is c)

  Step-Consistent : {s t : Shared K} → Step K s t → Consistent s → Consistent t
  unfolding is_creating is_locked
  Step-Consistent (call s k) c = first_pass-Consistent s k c
  Step-Consistent (publish s h before after is new) c =
      second_pass-Consistent s h (before ++ after) new (singled s h before after is c)
  Step-Consistent (cancel s h before after is new) c =
      IsConsistent-drop s.entries s.fresh h (before ++ after) (singled s h before after is c)
  Step-Consistent (cancel_lock s h before after is held) c =
      IsConsistent-drop s.entries s.fresh h (before ++ after) (singled s h before after is c)
  Step-Consistent (lock s h before after is held free) c =
      moved s h (holding true) before after is (ap is_creating held) refl (inr free) c
  Step-Consistent (drop_guard s h locked before after is held) c =
      moved s h (closing locked) before after is (ap is_creating held) refl
        (inl (sym (ap is_locked held))) c
  Step-Consistent (drop_value s h locked before after is held) c =
      IsConsistent-drop s.entries s.fresh h (before ++ after) (singled s h before after is c)
  Step-Consistent (clean s k rest is) c = try_cleanup_entry-Consistent s k c

  pub Reach-Consistent : (s : Shared K) → Reach K s → Consistent s
  unfolding strong_count lock_count get
  Reach-Consistent s created = record {
    mapped = λ x m. absurd m;
    allocated = λ x m. absurd m;
    known = λ k v found. ground (arith, found);
    alone = λ x m. absurd m;
    unknown = λ x k m. absurd m;
    locks = λ v. omega arith;
  }
  Reach-Consistent s (next r step) = Step-Consistent step (Reach-Consistent _ r)

  -- In every state that the tasks can come to, any two entries of one key have the same value, which
  -- is the one that the map has under the key.
  pub Reach_share :
      (s : Shared K) (a b : Handle K)
      → Reach K s
      → In a s.handles
      → In b s.handles
      → is_creating a.phase ≡ false
      → is_creating b.phase ≡ false
      → a.key ≡ b.key
      → (a.value ≡ b.value) × (get a.key s.entries ≡ some a.value)
  Reach_share s a b r in_a in_b held_a held_b same =
      let m = (Reach-Consistent s r).mapped in ground (arith, m a in_a held_a, m b in_b held_b)

  -- How many tokens of a key exist.
  unfoldable pub token_count : K → List (Handle K) → ℕ
  unfolding is_locked
  token_count k [] = 0
  token_count k (h ∷ hs) =
      if k == h.key && is_locked h.phase then suc (token_count k hs) else token_count k hs

  -- Tokens of a key own the mutex of one value, if all handles of the key that are in use have it.
  token_count-lock_count :
      (k : K) (v : ℕ) (hs : List (Handle K))
      → ((c : Handle K) → In c hs → is_creating c.phase ≡ false → c.key ≡ k → c.value ≡ v)
      → token_count k hs ≤ lock_count v hs
  unfolding token_count lock_count is_creating is_locked
  token_count-lock_count k v [] share = omega arith
  token_count-lock_count k v (h ∷ hs) share = ground (
    arith,
    token_count-lock_count k v hs (λ c m. share c (inr m)),
    share h (inl refl),
    ==_iff k h.key,
    locked_not_creating h.phase,
  )

  -- In every state that the tasks can come to, whatever their order, a key has at most one token.
  pub Reach-token_count : (s : Shared K) (k : K) → Reach K s → token_count k s.handles ≤ 1
  Reach-token_count s k r =
      let c = Reach-Consistent s r in
      elim (Option-cases (get k s.entries)) [
        | inl missing ↦ ground (
          arith,
          token_count-lock_count k 0 s.handles (λ h m p same. ground (arith, c.mapped h m p)),
          c.locks 0,
        )
        | inr (v, found) ↦ ground (
          arith,
          token_count-lock_count k v s.handles (λ h m p same. ground (arith, c.mapped h m p)),
          c.locks v,
        )
      ]
