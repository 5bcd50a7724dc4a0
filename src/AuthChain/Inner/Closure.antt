-- ===== src/AuthChain/Inner/Closure.antt =====
-- get_auth_chain_inner finds the numbers of exactly the events that can be reached.
use grapevine.Prelude.{
  ℕ, zero, suc, ◌+◌, ◌<◌, ◌≤◌, true, List, [], ◌∷◌, Option, none, some, Result, ok, err, ==_iff,
  ==_refl, List-Eq, ℕ-Eq, ◌≡◌, ◌↔◌, refl, ap, subst, ◌∙◌, arith, length,
}
use grapevine.Utils.{Bytes, u64_mod}
use grapevine.HashSet.{contains}
use grapevine.LruCache.{LruCache}
use grapevine.Database.Tree.{KvTree}
use grapevine.Short.{Types}
use grapevine.Short.Bijection.{HasShort}
use grapevine.Timeline.Store.{Events, get_pdu_in_db}
use grapevine.Timeline.Store.Cached.{IsCoherent, get_pdu_lem, another_cache}
use grapevine.AuthChain.Explore.{
  AreIn, AreIn-add_unseen, unseen-nil, explore-IsInvariant, add_unseen, explore, Reach, unseen,
  explore-Reach, explore_ends,
}
use grapevine.AuthChain.Inner.{Search, get_auth_chain_loop, get_auth_chain_inner}
use grapevine.AuthChain.Inner.Marked.{IsSoundly, marked-HasShort, marked-nil}
use grapevine.AuthChain.Inner.Turns.{IsSeen, AreValid, add_auth_events-add_unseen}

module _ (T : Types) (E : KvTree) (V : Events) (C : LruCache Bytes V.Pdu) (N : LruCache Bytes ℕ)
    (I : LruCache ℕ Bytes) where
  -- The authorisation events of an event in the trees; none of one that is missing or unreadable.
  unfoldable pub auth_events_of : Result (Option V.Pdu) → List Bytes
  auth_events_of (err e) = []
  auth_events_of (ok none) = []
  auth_events_of (ok (some pdu)) = V.auth_events pdu

  module _ (db : Bytes → Result (Option V.Pdu)) (room_id : Bytes) (universe : List Bytes)
      (bound : ℕ) (valid : AreValid T E V C N I universe)
      (in_room : (a : Bytes) (pdu : V.Pdu)
        → contains a universe ≡ true
        → db a ≡ ok (some pdu)
        → V.room_id pdu ≡ room_id)
      (known : (d : Bytes) → contains d universe ≡ true → AreIn (auth_events_of (db d)) universe)
      (room : bound + 1 < u64_mod) where
    -- The state of the search, and what it has seen.
    record IsOn (count : ℕ) (s : Search T E V C N I) (found : List ℕ) (seen : List Bytes)
        : Type 0 where
      pub coherent : IsCoherent E V C s.timeline
      pub same_db : (a : Bytes) → get_pdu_in_db E V C s.timeline a ≡ db a
      pub is_seen : IsSeen T E V C N I count s.shorts found seen
      pub small : count + unseen universe seen ≤ bound

    -- With this fuel the loop finds what is seen in the end.
    abbrev Finds : ℕ → Type 0
    Finds fuel =
        (count : ℕ) (s : Search T E V C N I) (todo : List Bytes) (found : List ℕ)
        (seen out : List Bytes)
        → IsOn count s found seen
        → AreIn todo universe
        → explore (λ d. auth_events_of (db d)) fuel todo seen ≡ some out
        → (count' : ℕ) × (found' : List ℕ) × (t : Search T E V C N I) × (get_auth_chain_loop T E V C
              N I fuel room_id s todo found
            ≡ (ok found', t))
          × IsOn count' t found' out

    module _ (fuel : ℕ) (rest : Finds fuel) (count : ℕ) (s : Search T E V C N I) (d : Bytes)
        (todo : List Bytes) (found : List ℕ) (seen out : List Bytes) (on : IsOn count s found seen)
        (d_in : contains d universe ≡ true) (todo_in : AreIn todo universe) where
      passed_over :
          auth_events_of (db d) ≡ []
          → (cache : C.Cache) → IsCoherent E V C (record s.timeline { pdu_cache = cache })
          → get_auth_chain_loop T E V C N I (suc fuel) room_id s (d ∷ todo) found
            ≡ get_auth_chain_loop T E V C N I fuel room_id
                (record s { timeline = record s.timeline { pdu_cache = cache } })
                todo
                found
          → explore (λ b. auth_events_of (db b)) (suc fuel) (d ∷ todo) seen ≡ some out
          → (count' : ℕ) × (found' : List ℕ) × (t : Search T E V C N I) × (get_auth_chain_loop T E V
                C N I
                (suc fuel)
                room_id
                s
                (d ∷ todo)
                found
              ≡ (ok found', t))
            × IsOn count' t found' out
      unfolding explore add_unseen
      passed_over nothing cache coherent steps explores =
          let (count', found', t, runs, after) =
            rest count (record s { timeline = record s.timeline { pdu_cache = cache } }) todo found
              seen out
              (record {
                coherent = coherent;
                same_db = λ a. another_cache E V C s.timeline cache a ∙ on.same_db a;
                is_seen = on.is_seen;
                small = on.small;
              })
              todo_in (ground (arith, explores, nothing)) in
          (count', found', t, steps ∙ runs, after)

      turn :
          (r : Result (Option V.Pdu))
          → db d ≡ r
          → explore (λ b. auth_events_of (db b)) (suc fuel) (d ∷ todo) seen ≡ some out
          → (count' : ℕ) × (found' : List ℕ) × (t : Search T E V C N I) × (get_auth_chain_loop T E V
                C N I
                (suc fuel)
                room_id
                s
                (d ∷ todo)
                found
              ≡ (ok found', t))
            × IsOn count' t found' out
      unfolding auth_events_of
      turn (err e) is explores =
          let (cache, answers, coherent) = get_pdu_lem E V C s.timeline d on.coherent in
          passed_over (ap auth_events_of is) cache coherent
            (unfold get_auth_chain_loop in ground (arith, answers, is, on.same_db d)) explores
      turn (ok none) is explores =
          let (cache, answers, coherent) = get_pdu_lem E V C s.timeline d on.coherent in
          passed_over (ap auth_events_of is) cache coherent
            (unfold get_auth_chain_loop in ground (arith, answers, is, on.same_db d)) explores
      turn (ok (some pdu)) is explores =
          let (cache, answers, coherent) = get_pdu_lem E V C s.timeline d on.coherent in
          let more = V.auth_events pdu in
          let (count', found', shorts, adds, seen', small) =
            add_auth_events-add_unseen T E V C N I universe valid count s.shorts more todo found
              seen bound on.is_seen (λ a h. known d d_in a (ground (arith, is, h))) on.small room in
          let (count'', found'', t, runs, after) =
            rest count'
              (record { timeline = record s.timeline { pdu_cache = cache }; shorts = shorts })
              (add_unseen more (todo, seen)).0 found' (add_unseen more (todo, seen)).1 out
              (record {
                coherent = coherent;
                same_db = λ a. another_cache E V C s.timeline cache a ∙ on.same_db a;
                is_seen = seen';
                small = small;
              })
              (AreIn-add_unseen universe more todo seen
                (λ a h. known d d_in a (ground (arith, is, h))) todo_in)
              (unfold explore in ground (arith, explores, is)) in
          (
            count'',
            found'',
            t,
            unfold get_auth_chain_loop in
                ground (
                  arith,
                  answers,
                  is,
                  on.same_db d,
                  in_room d pdu d_in is,
                  ==_refl room_id,
                  adds,
                  runs,
                ),
            after,
          )

    finds : (fuel : ℕ) → Finds fuel
    finds zero count s todo found seen out on todo_in explores = unfold explore in cc
    finds (suc fuel) count s [] found seen out on todo_in explores =
        let same : seen ≡ out = unfold explore in ground (arith, explores) in
        (count, found, s, unfold get_auth_chain_loop in refl, subst (IsOn count s found) same on)
    finds (suc fuel) count s (d ∷ todo) found seen out on todo_in explores =
        turn fuel (finds fuel) count s d todo found seen out on
          (unfold contains in todo_in d (ground (arith, ==_refl d)))
          (unfold contains in λ a h. todo_in a (ground (arith, h))) (db d) refl explores

  -- In a room whose stored events have valid authorisation events of this room, all in a list of
  -- events with the one to start from, get_auth_chain_inner succeeds with fuel for the list, on sound
  -- short ids that can count on for the list and a coherent cache of events: it finds the short ids of
  -- exactly the events that can be reached by authorisation events, and the short ids stay sound.
  pub get_auth_chain_inner_lem :
      (count fuel : ℕ) (s : Search T E V C N I) (room_id start : Bytes) (universe : List Bytes)
      → IsSoundly T E N I count s.shorts
      → IsCoherent E V C s.timeline
      → count + length universe + 1 < u64_mod
      → length universe + 1 < fuel
      → contains start universe ≡ true
      → AreValid T E V C N I universe
      → ((a : Bytes) (pdu : V.Pdu)
          → contains a universe ≡ true
          → get_pdu_in_db E V C s.timeline a ≡ ok (some pdu)
          → V.room_id pdu ≡ room_id)
      → ((d : Bytes)
          → contains d universe ≡ true
          → AreIn (auth_events_of (get_pdu_in_db E V C s.timeline d)) universe)
      → (count' : ℕ) × (found : List ℕ) × (t : Search T E V C N I) × (get_auth_chain_inner T E V C N
            I fuel room_id s start
          ≡ (ok found, t))
        × IsSoundly T E N I count' t.shorts
        × ((n : ℕ)
            → n < u64_mod
            → (contains n found ≡ true) ↔ (
                (a : Bytes) × Reach (λ d. auth_events_of (get_pdu_in_db E V C s.timeline d)) start a
                × HasShort E t.shorts.trees.forward a n))
  unfolding get_auth_chain_inner
  get_auth_chain_inner_lem count fuel s room_id start universe sound coherent room enough start_in
        valid in_room known =
      let auth : Bytes → List Bytes = λ d. auth_events_of (get_pdu_in_db E V C s.timeline d) in
      let start_only : AreIn (start ∷ []) universe =
        λ a h. unfold contains in ground (arith, start_in, ==_iff a start) in
      let (out, explores) =
        explore_ends auth universe known fuel (start ∷ []) [] start_only
          (omega (arith, unseen-nil universe)) in
      let (count', found, t, runs, on) =
        finds (get_pdu_in_db E V C s.timeline) room_id universe (count + length universe) valid
          in_room known room fuel count s (start ∷ []) [] [] out
          (record {
            coherent = coherent;
            same_db = λ a. refl;
            is_seen = record {
              sound = sound;
              events = λ n h. unfold contains in cc;
              same = λ a. unfold contains in marked-nil T E N I s.shorts a;
            };
            small = omega (arith, unseen-nil universe);
          })
          start_only explores in
      (
        count',
        found,
        t,
        runs,
        on.is_seen.sound,
        λ n below. (
          λ h.
              let (small, (a, has)) = on.is_seen.events n h in
              (
                a,
                (explore-Reach auth start fuel (start ∷ []) [] out (explore-IsInvariant auth start)
                      explores a).0
                    (ground (
                      arith,
                      h,
                      on.is_seen.same a,
                      marked-HasShort T E N I t.shorts found a n below has,
                    )),
                has,
              ),
          λ reached.
              let (a, reach, has) = reached in
              let seen : contains a out ≡ true =
                (explore-Reach auth start fuel (start ∷ []) [] out (explore-IsInvariant auth start)
                    explores a).1
                  reach in
              ground (
                arith,
                seen,
                on.is_seen.same a,
                marked-HasShort T E N I t.shorts found a n below has,
              ),
        ),
      )
