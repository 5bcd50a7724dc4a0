-- ===== src/OnDemandHashMap/Leak.antt =====
-- The drop of an entry: the guard, its first field, sends the key before the value is dropped.
use grapevine.Prelude.{ℕ, false, List, [], ◌∷◌, some, Eq, ==_refl, ◌≡◌, refl, arith, subst, filter}
use grapevine.HashMap.{get, insert, remove}
use grapevine.OnDemandHashMap.{
  Phase, creating, holding, closing, Handle, Shared, strong_count, upgrade, try_get_live_value,
  first_pass, second_pass, try_cleanup_entry,
}
use grapevine.OnDemandHashMap.Steps.{
  call, publish, drop_guard, drop_value, clean, Reach, created, next, empty,
}

module _ {K : Type 0} ⦃e : Eq K⦄ where
  -- No task holds an entry, and the cleanup task has no key left to look at, but the map has one.
  pub record IsLeaked (k : K) (s : Shared K) : Type 0 where
    pub reachable : Reach K s
    pub unused : s.handles ≡ []
    pub quiet : s.channel ≡ []
    pub stays : get k s.entries ≡ some 0

  abbrev handle : K → Phase → Handle K
  handle k p = record { key = k; value = 0; phase = p }

  abbrev state : List (K × ℕ) → List K → List (Handle K) → Shared K
  state entries channel handles = record {
    entries = entries;
    channel = channel;
    handles = handles;
    fresh = 1;
  }

  -- For every key there is an order of the steps after which no task has an entry of it and the
  -- cleanup task has taken every message, and the map still has the entry.
  pub leak : (k : K) → (s : Shared K) × IsLeaked k s
  unfolding first_pass second_pass try_cleanup_entry try_get_live_value upgrade strong_count get
      insert remove filter
  leak k = (
    state ((k, 0) ∷ []) [] [],
    record { reachable = dropped; unused = refl; quiet = refl; stays = ground (arith, ==_refl k) },
  )
    where
      called : Reach K (state [] [] (handle k creating ∷ []))
      called = next created (call (empty K) k)

      published : Reach K (state ((k, 0) ∷ []) [] (handle k (holding false) ∷ []))
      published =
          next called
            (publish (state [] [] (handle k creating ∷ [])) (handle k creating) [] [] refl refl)

      sent : Reach K (state ((k, 0) ∷ []) (k ∷ []) (handle k (closing false) ∷ []))
      sent = next published (
          drop_guard (state ((k, 0) ∷ []) [] (handle k (holding false) ∷ []))
            (handle k (holding false)) false [] [] refl refl)

      looked_at :
          record (try_cleanup_entry
            (state ((k, 0) ∷ []) (k ∷ []) (handle k (closing false) ∷ []))
            k) { channel = [] }
          ≡ state ((k, 0) ∷ []) [] (handle k (closing false) ∷ [])
      looked_at = ground (arith, ==_refl k)

      cleaned : Reach K (state ((k, 0) ∷ []) [] (handle k (closing false) ∷ []))
      cleaned = subst (Reach K) looked_at (
          next sent
            (clean (state ((k, 0) ∷ []) (k ∷ []) (handle k (closing false) ∷ [])) k [] refl))

      dropped : Reach K (state ((k, 0) ∷ []) [] [])
      dropped = next cleaned (
          drop_value (state ((k, 0) ∷ []) [] (handle k (closing false) ∷ []))
            (handle k (closing false)) false [] [] refl refl)
