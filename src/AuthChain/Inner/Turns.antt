-- ===== src/AuthChain/Inner/Turns.antt =====
-- The loop over authorisation events marks what add_unseen sees.
use grapevine.Prelude.{
  ℕ, ◌+◌, ◌<◌, ◌≤◌, true, false, List, [], ◌∷◌, Result, ok, ==_iff, ==_refl, List-Eq, ℕ-Eq, ◌≡◌,
  refl, subst, ◌∙◌, arith, Bool-cases, inl, inr,
}
use grapevine.Utils.{Bytes, u64_mod}
use grapevine.Utils.Utf8.{is_utf8}
use grapevine.HashSet.{contains, insert}
use grapevine.LruCache.{LruCache}
use grapevine.Database.Tree.{KvTree}
use grapevine.Short.{Types, EventShorts, event_db_key, read_event_id, get_or_create_shorteventid}
use grapevine.Short.Ids.{read_event_id-event_db_key}
use grapevine.Short.Cached.{IsNew, get_or_create_short-IsNew}
use grapevine.Timeline.Store.{Events}
use grapevine.AuthChain.Explore.{add_unseen, unseen, unseen-new}
use grapevine.AuthChain.Inner.{add_auth_events}
use grapevine.AuthChain.Inner.Marked.{
  IsSoundly, marked, AreEvents, found-marked, marked-insert, AreEvents-insert, count-marked,
}

module _ (T : Types) (E : KvTree) (V : Events) (C : LruCache Bytes V.Pdu) (N : LruCache Bytes ℕ)
    (I : LruCache ℕ Bytes) where
  -- The numbers that are found are those of the events that are seen.
  pub record IsSeen (count : ℕ) (s : EventShorts T E N I) (found : List ℕ) (seen : List Bytes)
      : Type 0 where
    pub sound : IsSoundly T E N I count s
    pub events : AreEvents T E N I s found
    pub same : (a : Bytes) → marked T E N I s found a ≡ contains a seen

  -- The event ids of a list are valid.
  abbrev pub AreValid : List Bytes → Type 0
  AreValid universe =
      (a : Bytes) → contains a universe ≡ true → (is_utf8 a ≡ true) × (T.is_event_id a ≡ true)

  -- One more event.
  module _ (count : ℕ) (s : EventShorts T E N I) (found : List ℕ) (seen : List Bytes)
      (is : IsSeen count s found seen) (a : Bytes) (n : ℕ) (t : EventShorts T E N I)
      (new : IsNew E event_db_key (read_event_id T) N I count s a n t) where
    found-seen : contains n found ≡ contains a seen
    found-seen = found-marked T E N I count s is.sound found is.events a n t new ∙ is.same a

    IsSeen-new : IsSeen new.count' t (insert n found) (a ∷ seen)
    unfolding contains
    IsSeen-new = record {
      sound = new.numbered.sound;
      events = AreEvents-insert T E N I count s is.sound found is.events a n t new;
      same = λ b.
          ground
            (arith, marked-insert T E N I count s is.sound found is.events a n t new b, is.same b);
    }

    IsSeen-old : contains a seen ≡ true → IsSeen count t found seen
    unfolding insert
    IsSeen-old old =
        let one : insert n found ≡ found = ground (arith, found-seen, old) in
        record {
          sound =
              subst (λ c. IsSoundly T E N I c t)
                (count-marked T E N I count s is.sound found is.events a n t new (is.same a ∙ old))
                new.numbered.sound;
          events =
              subst (AreEvents T E N I t) one
                (AreEvents-insert T E N I count s is.sound found is.events a n t new);
          same = λ b. ground (
            arith,
            one,
            marked-insert T E N I count s is.sound found is.events a n t new b,
            is.same b,
            old,
            ==_iff b a,
          );
        }

  module _ (universe : List Bytes) (valid : AreValid universe) where
    -- A run of the loop over the authorisation events has come to what is to be done and seen.
    abbrev pub ComesTo :
        Result (List Bytes × List ℕ) × EventShorts T E N I → List Bytes × List Bytes → ℕ → Type 0
    ComesTo answer next bound =
        (count' : ℕ) × (found' : List ℕ) × (t : EventShorts T E N I) × (answer
          ≡ (ok (next.0, found'), t))
        × IsSeen count' t found' next.1
        × (count' + unseen universe next.1 ≤ bound)

    module _ (count : ℕ) (s : EventShorts T E N I) (found : List ℕ) (seen : List Bytes)
        (is : IsSeen count s found seen) (a : Bytes) (n : ℕ) (t : EventShorts T E N I)
        (new : IsNew E event_db_key (read_event_id T) N I count s a n t)
        (more todo : List Bytes) where
      turn-old :
          (bound : ℕ)
          → contains a seen ≡ true
          → ComesTo
              (add_auth_events T E V C N I t more (todo, found))
              (add_unseen more (todo, seen))
              bound
          → ComesTo
              (add_auth_events T E V C N I s (a ∷ more) (todo, found))
              (add_unseen (a ∷ more) (todo, seen))
              bound
      unfolding add_auth_events add_unseen get_or_create_shorteventid
      turn-old bound old (count', found', u, runs, still, small) =
          let same : add_unseen more (todo, seen) ≡ add_unseen (a ∷ more) (todo, seen) =
            ground (arith, old) in
          subst
            (λ next. ComesTo (add_auth_events T E V C N I s (a ∷ more) (todo, found)) next bound)
            same
            (
              count',
              found',
              u,
              ground (arith, runs, new.result, found-seen count s found seen is a n t new, old),
              still,
              small,
            )

      turn-new :
          (bound : ℕ)
          → contains a seen ≡ false
          → ComesTo
              (add_auth_events T E V C N I t more (a ∷ todo, insert n found))
              (add_unseen more (a ∷ todo, a ∷ seen))
              bound
          → ComesTo
              (add_auth_events T E V C N I s (a ∷ more) (todo, found))
              (add_unseen (a ∷ more) (todo, seen))
              bound
      unfolding add_auth_events add_unseen get_or_create_shorteventid
      turn-new bound fresh (count', found', u, runs, still, small) =
          let same : add_unseen more (a ∷ todo, a ∷ seen) ≡ add_unseen (a ∷ more) (todo, seen) =
            ground (arith, fresh) in
          subst
            (λ next. ComesTo (add_auth_events T E V C N I s (a ∷ more) (todo, found)) next bound)
            same
            (
              count',
              found',
              u,
              ground (arith, runs, new.result, found-seen count s found seen is a n t new, fresh),
              still,
              small,
            )

    -- The loop over the authorisation events does what add_unseen does.
    pub add_auth_events-add_unseen :
        (count : ℕ) (s : EventShorts T E N I) (more todo : List Bytes) (found : List ℕ)
        (seen : List Bytes) (bound : ℕ)
        → IsSeen count s found seen
        → ((a : Bytes) → contains a more ≡ true → contains a universe ≡ true)
        → count + unseen universe seen ≤ bound
        → bound + 1 < u64_mod
        → ComesTo
            (add_auth_events T E V C N I s more (todo, found))
            (add_unseen more (todo, seen))
            bound
    unfolding contains
    add_auth_events-add_unseen count s [] todo found seen bound is known small room =
        unfold add_auth_events in unfold add_unseen in (count, found, s, refl, is, small)
    add_auth_events-add_unseen count s (a ∷ more) todo found seen bound is known small room =
        let here = known a (ground (arith, ==_refl a)) in
        let rest : (b : Bytes) → contains b more ≡ true → contains b universe ≡ true =
          λ b h. known b (ground (arith, h)) in
        let (n, t, new) =
          get_or_create_short-IsNew E event_db_key (read_event_id T) N I count s is.sound a
            (omega (arith, small, room))
            (read_event_id-event_db_key T a (valid a here).0 (valid a here).1) in
        elim (Bool-cases (contains a seen)) [
          | inl old ↦ turn-old count s found seen is a n t new more todo bound old (
              add_auth_events-add_unseen count t more todo found seen bound
                (IsSeen-old count s found seen is a n t new old) rest small room)
          | inr fresh ↦ turn-new count s found seen is a n t new more todo bound fresh (
              add_auth_events-add_unseen new.count' t more (a ∷ todo) (insert n found) (a ∷ seen)
                bound (IsSeen-new count s found seen is a n t new) rest
                (omega (arith, new.counts, unseen-new universe seen a here fresh, small)) room)
        ]
