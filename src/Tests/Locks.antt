-- ===== src/Tests/Locks.antt =====
-- Two tasks that race for the token of one key.
use grapevine.Prelude.{ℕ, true, false, [], ◌∷◌, some, ◌≤◌, ◌≡◌, refl, inl, inr, ℕ-Eq, filter}
use grapevine.HashMap.{get, insert, remove}
use grapevine.OnDemandHashMap.{
  Phase, creating, holding, Handle, Shared, strong_count, upgrade, lock_count, try_get_live_value,
  first_pass, second_pass, is_creating,
}
use grapevine.OnDemandHashMap.Steps.{call, publish, lock, Reach, created, next, empty}
use grapevine.OnDemandHashMap.Exclusion.{Reach_share, Reach-token_count, token_count}
use grapevine.OnDemandHashMap.Leak.{leak, IsLeaked}

abbrev handle : ℕ → Phase → Handle ℕ
handle v p = record { key = 5; value = v; phase = p }

-- Both calls have missed, and the second has published its value first.
abbrev raced : Shared ℕ
raced = record {
  entries = (5, 1) ∷ [];
  channel = [];
  handles = handle 1 (holding false) ∷ handle 0 creating ∷ [];
  fresh = 2;
}

abbrev both : Shared ℕ
both = record {
  entries = (5, 1) ∷ [];
  channel = [];
  handles = handle 1 (holding false) ∷ handle 1 (holding false) ∷ [];
  fresh = 2;
}

abbrev owned : Shared ℕ
owned = record {
  entries = (5, 1) ∷ [];
  channel = [];
  handles = handle 1 (holding true) ∷ handle 1 (holding false) ∷ [];
  fresh = 2;
}

Reach-both : Reach ℕ both
unfolding first_pass second_pass try_get_live_value upgrade strong_count get insert remove filter
Reach-both =
    next {s = raced}
      (next
        (next (next created (call (empty ℕ) 5)) (
          call (record { entries = []; channel = []; handles = handle 0 creating ∷ []; fresh = 1 })
            5))
        (publish
          (record {
            entries = [];
            channel = [];
            handles = handle 1 creating ∷ handle 0 creating ∷ [];
            fresh = 2;
          })
          (handle 1 creating) [] (handle 0 creating ∷ []) refl refl))
      (publish raced (handle 0 creating) (handle 1 (holding false) ∷ []) [] refl refl)

Reach-owned : Reach ℕ owned
unfolding lock_count
Reach-owned =
    next Reach-both
      (lock both (handle 1 (holding false)) [] (handle 1 (holding false) ∷ []) refl refl refl)

Reach_share_example : (◌≡◌ {A = ℕ} 1 1) × (get 5 owned.entries ≡ some 1)
unfolding is_creating
Reach_share_example =
    Reach_share owned (handle 1 (holding true)) (handle 1 (holding false)) Reach-owned (inl refl)
      (inr (inl refl)) refl refl refl

Reach-token_count_example : token_count 5 owned.handles ≤ 1
Reach-token_count_example = Reach-token_count owned 5 Reach-owned

leak_example : (s : Shared ℕ) × IsLeaked 5 s
leak_example = leak 5
