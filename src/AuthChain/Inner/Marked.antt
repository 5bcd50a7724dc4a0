-- ===== src/AuthChain/Inner/Marked.antt =====
-- One authorisation event of get_auth_chain_inner: the numbers that are found stand for events.
use grapevine.Prelude.{
  ℕ, ◌<◌, Bool, true, false, ◌||◌, List, [], none, some, ◌==◌, ==_iff, ==_refl, List-Eq, ℕ-Eq, ◌≡◌,
  sym, ◌∙◌, arith, Bool-cases, Option-cases, inl, inr,
}
use grapevine.Utils.{Bytes, u64_mod, to_be_bytes, u64_from_bytes}
use grapevine.Utils.Laws.{u64_from_bytes-to_be_bytes}
use grapevine.HashSet.{contains, insert}
use grapevine.HashSet.Laws.{contains-insert}
use grapevine.LruCache.{LruCache}
use grapevine.Database.Tree.{KvTree}
use grapevine.Short.{Types, EventShorts, event_db_key, read_event_id}
use grapevine.Short.Bijection.{HasShort, HasShort-injective}
use grapevine.Short.Cached.{IsSound, IsNew}

module _ (T : Types) (E : KvTree) (N : LruCache Bytes ℕ) (I : LruCache ℕ Bytes) where
  abbrev pub IsSoundly : ℕ → EventShorts T E N I → Type 0
  IsSoundly = IsSound E event_db_key (read_event_id T) N I

  -- The number of the event is found.
  unfoldable pub marked : EventShorts T E N I → List ℕ → Bytes → Bool
  marked s found event = elim (E.get s.trees.forward event) [
    | none ↦ false
    | some bytes ↦ elim (u64_from_bytes bytes) [ none ↦ false | some n ↦ contains n found ]
  ]

  -- Each number that is found is that of an event.
  abbrev pub AreEvents : EventShorts T E N I → List ℕ → Type 0
  AreEvents s found =
      (n : ℕ)
      → contains n found ≡ true
      → (n < u64_mod) × ((event : Bytes) × HasShort E s.trees.forward event n)

  pub marked-HasShort :
      (s : EventShorts T E N I) (found : List ℕ) (event : Bytes) (n : ℕ)
      → n < u64_mod
      → HasShort E s.trees.forward event n
      → marked s found event ≡ contains n found
  unfolding marked
  marked-HasShort s found event n below has =
      ground (arith, has, u64_from_bytes-to_be_bytes n below)

  pub marked-nil : (s : EventShorts T E N I) (event : Bytes) → marked s [] event ≡ false
  unfolding marked contains
  marked-nil s event = ground arith

  module _ (count : ℕ) (s : EventShorts T E N I) (sound : IsSoundly count s) (found : List ℕ)
      (events : AreEvents s found) (event : Bytes) (n : ℕ) (t : EventShorts T E N I)
      (new : IsNew E event_db_key (read_event_id T) N I count s event n t) where
    -- A new number is found if its event was marked.
    pub found-marked : contains n found ≡ marked s found event
    found-marked = elim (Option-cases (E.get s.trees.forward event)) [
      | inl missing ↦ elim (Bool-cases (contains n found)) [
        | inr not_found ↦ unfold marked in ground (arith, missing, not_found)
        | inl is_found ↦
            let (below, (other, has)) = events n is_found in
            let same : event ≡ other =
              HasShort-injective E new.count' t.trees event other n new.numbered.sound.bijection
                new.numbered.has_short (new.keeps other (to_be_bytes n) has) in
            absurd (ground (arith, missing, has, same))
      ]
      | inr (bytes, has) ↦
          let kept : E.get t.trees.forward event ≡ some bytes = new.keeps event bytes has in
          sym (
            marked-HasShort s found event n new.below
              (ground (arith, kept, new.numbered.has_short, has)))
    ]

    -- With its number the event is marked, and no other.
    pub marked-insert :
        (a : Bytes) → marked t (insert n found) a ≡ ((a == event) || marked s found a)
    marked-insert a = elim (Bool-cases (a == event)) [
      | inl same ↦ ground (
        arith,
        ==_iff a event,
        marked-HasShort t (insert n found) event n new.below new.numbered.has_short,
        contains-insert n n found,
        ==_refl n,
      )
      | inr differs ↦
          let alike : E.get t.trees.forward a ≡ E.get s.trees.forward a =
            new.others a (λ p. ground (arith, p, ==_refl a)) in
          elim (Option-cases (E.get s.trees.forward a)) [
            | inl missing ↦ unfold marked in ground (arith, missing, alike, differs)
            | inr (bytes, has) ↦
                let (m, handed_out, below, is, back) = sound.bijection.there a bytes has in
                let has_s : HasShort E s.trees.forward a m = ground (arith, has, is) in
                let has_t : HasShort E t.trees.forward a m = alike ∙ has_s in
                ground (
                  arith,
                  differs,
                  marked-HasShort s found a m below has_s,
                  marked-HasShort t (insert n found) a m below has_t,
                  contains-insert m n found,
                  ==_iff m n,
                  ==_iff a event,
                  HasShort-injective E new.count' t.trees a event n new.numbered.sound.bijection,
                  has_t,
                  new.numbered.has_short,
                )
          ]
    ]

    pub AreEvents-insert : AreEvents t (insert n found)
    AreEvents-insert m h = elim (Bool-cases (m == n)) [
      | inl same ↦ (
        ground (arith, ==_iff m n, new.below),
        (event, ground (arith, ==_iff m n, new.numbered.has_short)),
      )
      | inr differs ↦
          let (below, (other, has)) = events m (ground (arith, contains-insert m n found)) in
          (below, (other, new.keeps other (to_be_bytes m) has))
    ]

    -- A number is only handed out for an event that is not marked.
    pub count-marked : marked s found event ≡ true → new.count' ≡ count
    unfolding marked
    count-marked h = elim (Option-cases (E.get s.trees.forward event)) [
      | inl missing ↦ absurd (ground (arith, missing))
      | inr (bytes, has) ↦ new.once bytes has
    ]
