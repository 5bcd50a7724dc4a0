-- ===== src/OnDemandHashMap/Handles.antt =====
-- Handles in a list, and their counts when one is singled out.
use grapevine.Prelude.{ℕ, ◌≤◌, ◌<◌, List, [], ◌∷◌, ◌++◌, ◌≡◌, refl, ◌⊎◌, inl, inr, arith}
use grapevine.OnDemandHashMap.{Handle, strong_count, lock_count}

module _ {K : Type 0} where
  abbrev pub In : Handle K → List (Handle K) → Type 0
  In c [] = ⊥
  In c (h ∷ hs) = (c ≡ h) ⊎ In c hs

  pub In-split :
      (c h : Handle K) (before after : List (Handle K))
      → In c (h ∷ (before ++ after))
      → In c (before ++ h ∷ after)
  In-split c h [] after m = m
  In-split c h (b ∷ before) after (inl same) = inr (In-split c h before after (inl same))
  In-split c h (b ∷ before) after (inr (inl first)) = inl first
  In-split c h (b ∷ before) after (inr (inr later)) = inr (In-split c h before after (inr later))

  pub strong_count-split :
      (v : ℕ) (h : Handle K) (before after : List (Handle K))
      → strong_count v (before ++ h ∷ after) ≡ strong_count v (h ∷ (before ++ after))
  unfolding strong_count
  strong_count-split v h [] after = refl
  strong_count-split v h (b ∷ before) after = ground (arith, strong_count-split v h before after)

  pub lock_count-split :
      (v : ℕ) (h : Handle K) (before after : List (Handle K))
      → lock_count v (before ++ h ∷ after) ≡ lock_count v (h ∷ (before ++ after))
  unfolding lock_count
  lock_count-split v h [] after = refl
  lock_count-split v h (b ∷ before) after = ground (arith, lock_count-split v h before after)

  -- A handle keeps its value alive.
  pub strong_count-In :
      (c : Handle K) (hs : List (Handle K)) → In c hs → 1 ≤ strong_count c.value hs
  unfolding strong_count
  strong_count-In c [] m = absurd m
  strong_count-In c (h ∷ hs) m = ground (arith, strong_count-In c hs)

  -- A number above every value counts no handle.
  pub strong_count_unused :
      (v : ℕ) (hs : List (Handle K))
      → ((c : Handle K) → In c hs → c.value < v)
      → strong_count v hs ≡ 0
  unfolding strong_count
  strong_count_unused v [] below = refl
  strong_count_unused v (h ∷ hs) below =
      ground (arith, below h (inl refl), strong_count_unused v hs (λ c m. below c (inr m)))
