-- ===== src/AuthChain/Explore.antt =====
-- The search of get_auth_chain_inner on event ids alone: what it finds is what can be reached, and it
-- ends after as many turns as there are events.
use grapevine.Prelude.{
  ℕ, zero, suc, ◌+◌, ◌<◌, ◌≤◌, true, false, not, ◌||◌, ◌&&◌, List, [], ◌∷◌, Option, none, some,
  if◌then◌else◌, Eq, ◌==◌, ==_iff, ==_refl, ◌≡◌, ◌↔◌, ◌⊎◌, inl, inr, refl, arith, length, filter,
  Bool-cases,
}
use grapevine.HashSet.{contains}

module _ {A : Type 0} ⦃e : Eq A⦄ where
  -- Each of the authorising events that was not seen before is seen, and is to be done.
  unfoldable pub add_unseen : List A → List A × List A → List A × List A
  unfolding contains
  add_unseen [] (todo, seen) = (todo, seen)
  add_unseen (a ∷ more) (todo, seen) =
      add_unseen more (if contains a seen then (todo, seen) else (a ∷ todo, a ∷ seen))

  unfoldable pub explore : (A → List A) → ℕ → List A → List A → Option (List A)
  unfolding add_unseen
  explore auth zero todo seen = none
  explore auth (suc fuel) [] seen = some seen
  explore auth (suc fuel) (d ∷ todo) seen =
      let (todo', seen') = add_unseen (auth d) (todo, seen) in explore auth fuel todo' seen'

  -- The authorisation events of an event, those of these, and so on.
  pub data Reach (auth : A → List A) (start : A) : A → Type 0 where
    direct : (a : A) → contains a (auth start) ≡ true → Reach auth start a
    further : (d a : A) → Reach auth start d → contains a (auth d) ≡ true → Reach auth start a

  -- What add_unseen adds.
  pub contains-add_unseen :
      (more todo seen : List A) (a : A)
      → (contains a (add_unseen more (todo, seen)).1 ≡ (contains a more || contains a seen))
        × (contains a (add_unseen more (todo, seen)).0
            ≡ (contains a todo || (not (contains a seen) && contains a more)))
  unfolding add_unseen contains
  contains-add_unseen [] todo seen a = ground arith
  contains-add_unseen (b ∷ more) todo seen a = elim (Bool-cases (contains b seen)) [
    | inl old ↦ ground (arith, contains-add_unseen more todo seen a, old, ==_iff a b)
    | inr new ↦ ground (arith, contains-add_unseen more (b ∷ todo) (b ∷ seen) a, new, ==_iff a b)
  ]

  -- What is seen can be reached, and what is seen and not to be done has its events seen.
  pub record IsInvariant (auth : A → List A) (start : A) (todo seen : List A) : Type 0 where
    pub seen_reached : (a : A) → contains a seen ≡ true → Reach auth start a
    pub todo_reached : (a : A) → contains a todo ≡ true → (a ≡ start) ⊎ Reach auth start a
    pub closed :
        (d a : A)
        → (d ≡ start) ⊎ (contains d seen ≡ true)
        → contains d todo ≡ false
        → contains a (auth d) ≡ true
        → contains a seen ≡ true

  module _ (auth : A → List A) (start : A) where
    next_reached :
        (d a : A)
        → (d ≡ start) ⊎ Reach auth start d
        → contains a (auth d) ≡ true
        → Reach auth start a
    next_reached d a (inl same) h = direct a (ground (arith, same))
    next_reached d a (inr reached) h = further d a reached h

    add_unseen-IsInvariant :
        (d : A) (todo seen : List A)
        → IsInvariant auth start (d ∷ todo) seen
        → IsInvariant auth start
            (add_unseen (auth d) (todo, seen)).0
            (add_unseen (auth d) (todo, seen)).1
    unfolding contains
    add_unseen-IsInvariant d todo seen i =
        let has = contains-add_unseen (auth d) todo seen in
        let of_d = i.todo_reached d (ground (arith, ==_refl d)) in
        let unseen_reached : (a : A) → contains a (auth d) ≡ true → Reach auth start a =
          λ a h. next_reached d a of_d h in
        record {
          seen_reached = λ a h. ground (arith, has a, i.seen_reached a, unseen_reached a);
          todo_reached = λ a h. elim (Bool-cases (contains a todo)) [
            | inl old ↦ i.todo_reached a (ground arith)
            | inr new ↦ inr (unseen_reached a (ground (arith, has a)))
          ];
          closed = λ b a of_b done from_b. elim (Bool-cases (b == d)) [
            | inl same ↦ ground (arith, has a, ==_iff b d)
            | inr differs ↦ elim of_b [
              | inl same ↦ ground (arith, has a, has b, i.closed b a (inl same), ==_iff b d)
              | inr marked ↦ elim (Bool-cases (contains b seen)) [
                | inl old ↦ ground (arith, has a, has b, i.closed b a (inr old), ==_iff b d)
                | inr new ↦ absurd (ground (arith, has b))
              ]
            ]
          ];
        }

    all_seen :
        (seen : List A)
        → IsInvariant auth start [] seen
        → (b : A) → Reach auth start b
        → contains b seen ≡ true
    unfolding contains
    all_seen seen i b (direct _ is) = i.closed start b (inl refl) refl is
    all_seen seen i b (further d _ reached is) =
        i.closed d b (inr (all_seen seen i d reached)) refl is

    pub explore-Reach :
        (fuel : ℕ) (todo seen out : List A)
        → IsInvariant auth start todo seen
        → explore auth fuel todo seen ≡ some out
        → (a : A) → (contains a out ≡ true) ↔ Reach auth start a
    unfolding explore contains
    explore-Reach zero todo seen out i h a = cc
    explore-Reach (suc fuel) [] seen out i h a =
        let same : seen ≡ out = ground (arith, h) in
        (
          λ found. i.seen_reached a (ground (arith, same)),
          λ reached. ground (arith, same, all_seen seen i a reached),
        )
    explore-Reach (suc fuel) (d ∷ todo) seen out i h a =
        let next = add_unseen (auth d) (todo, seen) in
        explore-Reach fuel next.0 next.1 out (add_unseen-IsInvariant d todo seen i) h a

  -- How many of the events are not seen.
  pub unseen : List A → List A → ℕ
  unfolding contains
  unseen events seen = length (filter (λ a. not (contains a seen)) events)

  pub unseen-seen : (events seen : List A) (a : A) → unseen events (a ∷ seen) ≤ unseen events seen
  unfolding unseen filter contains
  unseen-seen [] seen a = omega arith
  unseen-seen (b ∷ events) seen a = ground (arith, unseen-seen events seen a)

  pub unseen-new :
      (events seen : List A) (a : A)
      → contains a events ≡ true
      → contains a seen ≡ false
      → unseen events (a ∷ seen) + 1 ≤ unseen events seen
  unfolding unseen filter contains
  unseen-new [] seen a here new = cc
  unseen-new (b ∷ events) seen a here new =
      ground (arith, unseen-new events seen a, unseen-seen events seen a, ==_iff a b, ==_iff b a)

  pub unseen-add_unseen :
      (events more todo seen : List A)
      → ((a : A) → contains a more ≡ true → contains a events ≡ true)
      → length (add_unseen more (todo, seen)).0 + unseen events (add_unseen more (todo, seen)).1
        ≤ length todo + unseen events seen
  unfolding add_unseen contains
  unseen-add_unseen events [] todo seen known = omega arith
  unseen-add_unseen events (a ∷ more) todo seen known =
      let rest : (b : A) → contains b more ≡ true → contains b events ≡ true =
        λ b h. known b (ground (arith, h)) in
      elim (Bool-cases (contains a seen)) [
        | inl old ↦ ground (arith, old, unseen-add_unseen events more todo seen rest)
        | inr new ↦ ground (
          arith,
          new,
          unseen-add_unseen events more (a ∷ todo) (a ∷ seen) rest,
          unseen-new events seen a (known a (ground (arith, ==_refl a))) new,
        )
      ]

  -- A list has events of another only.
  abbrev pub AreIn : List A → List A → Type 0
  AreIn more events = (a : A) → contains a more ≡ true → contains a events ≡ true

  pub AreIn-add_unseen :
      (events more todo seen : List A)
      → AreIn more events
      → AreIn todo events
      → AreIn (add_unseen more (todo, seen)).0 events
  AreIn-add_unseen events more todo seen of_more of_todo a h =
      ground (arith, contains-add_unseen more todo seen a, of_more a, of_todo a)

  pub unseen-nil : (events : List A) → unseen events [] ≤ length events
  unfolding unseen filter contains
  unseen-nil [] = omega arith
  unseen-nil (a ∷ events) = ground (arith, unseen-nil events)

  -- With more fuel than events that are unseen or to be done, the search ends.
  pub explore_ends :
      (auth : A → List A) (events : List A)
      → ((d : A) → contains d events ≡ true → AreIn (auth d) events)
      → (fuel : ℕ) (todo seen : List A) → AreIn todo events
      → length todo + unseen events seen < fuel
      → (out : List A) × (explore auth fuel todo seen ≡ some out)
  unfolding explore contains
  explore_ends auth events known zero todo seen todo_in enough = absurd (omega arith)
  explore_ends auth events known (suc fuel) [] seen todo_in enough = (seen, refl)
  explore_ends auth events known (suc fuel) (d ∷ todo) seen todo_in enough =
      let next = add_unseen (auth d) (todo, seen) in
      let of_d : AreIn (auth d) events = known d (todo_in d (ground (arith, ==_refl d))) in
      explore_ends auth events known fuel next.0 next.1
        (AreIn-add_unseen events (auth d) todo seen of_d (λ a h. todo_in a (ground (arith, h))))
        (omega (arith, unseen-add_unseen events (auth d) todo seen of_d))

  -- The search from one event sees exactly what can be reached from it.
  pub explore-IsInvariant : (auth : A → List A) (start : A) → IsInvariant auth start (start ∷ []) []
  unfolding contains
  explore-IsInvariant auth start = record {
    seen_reached = λ a h. cc;
    todo_reached = λ a h. inl (ground (arith, ==_iff a start));
    closed = λ d a of_d done from_d. elim of_d [
      | inl same ↦ absurd (ground (arith, same, ==_refl start))
      | inr marked ↦ cc
    ];
  }
