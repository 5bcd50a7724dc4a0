-- ===== src/Uiaa/Stages.antt =====
-- What a request must prove, and when it succeeds.
use grapevine.Prelude.{
  ◌>>=◌, if◌then◌else◌, Option-cases, Bool, true, false, List, [], ◌∷◌, ◌++◌, Option, none, some,
  ◌≡◌, refl, sym, subst, ◌∙◌, ap, arith, Result, ok, err, ◌⊎◌, inl, inr, List-Eq, ℕ-Eq,
}
use mathlib.Core.List.{Memᴰ}
use mathlib.Core.List.Memᴰ
use grapevine.Utils.{Bytes}
use grapevine.Database.Tree.{KvTree}
use grapevine.Uiaa.{
  AuthType, AuthData, UiaaInfo, Outside, Uiaa, any_completed, check_stage, complete, finish,
  update_uiaa_session, get_uiaa_session, try_auth,
}
use grapevine.Uiaa.Flows.{Completes, any_completed-Completes, Completes-any_completed}
use grapevine.Uiaa.Proves.{Proves, Leaves, Proves-check_stage, check_stage-Leaves}

module _ (E : KvTree) (O : Outside) where
  -- The info that a request works on: the given one, or that of the session it names.
  abbrev pub started : Uiaa E O → Bytes → Bytes → Option Bytes → UiaaInfo → Result UiaaInfo
  started s user device asked given = elim asked [
    | none ↦ ok given
    | some session ↦ get_uiaa_session E O s user device session
  ]

  -- The info with a session, a new one where it has none.
  begun : UiaaInfo → Bytes → UiaaInfo
  begun found generated = elim found.session [
    | none ↦ record found { session = some generated }
    | some _ ↦ found
  ]

  begun-Keeps :
      (found : UiaaInfo) (generated : Bytes)
      → ((begun found generated).flows ≡ found.flows)
        × ((begun found generated).completed ≡ found.completed)
        × ((session : Bytes) × ((begun found generated).session ≡ some session))
  unfolding begun
  begun-Keeps found generated = elim (Option-cases found.session) [
    | inl unset ↦ (ground (arith, unset), ground (arith, unset), (generated, ground (arith, unset)))
    | inr (session, set) ↦
        (ground (arith, set), ground (arith, set), (session, ground (arith, set)))
  ]

  -- From the info on, the check of the stage and then the loop over the flows.
  proceed :
      Uiaa E O → Bytes → Bytes → Result (Bool × UiaaInfo) → Result ((Bool × UiaaInfo) × Uiaa E O)
  proceed s user device (err e) = err e
  proceed s user device (ok (true, checked)) = finish E O s user device checked
  proceed s user device (ok (false, checked)) = ok ((false, checked), s)

  proceed_bind :
      (s : Uiaa E O) (user device : Bytes) (r : Result (Bool × UiaaInfo))
      → (r >>= λ (goes_on, checked).
          if goes_on then finish E O s user device checked else ok ((false, checked), s))
        ≡ proceed s user device r
  unfolding proceed
  proceed_bind s user device (err e) = refl
  proceed_bind s user device (ok (true, checked)) = refl
  proceed_bind s user device (ok (false, checked)) = refl

  try_auth-proceed :
      (s : Uiaa E O) (user device : Bytes) (asked : Option Bytes) (auth : AuthData)
      (given found : UiaaInfo) (generated : Bytes)
      → started s user device asked given ≡ ok found
      → try_auth E O s user device asked auth given generated
        ≡ proceed s user device (check_stage E O s (begun found generated) auth)
  unfolding try_auth begun proceed
  try_auth-proceed s user device asked auth given found generated start =
      ap
        (λ (r : Result UiaaInfo). r >>= λ i.
          check_stage E O s (begun i generated) auth >>= λ (goes_on, checked).
          if goes_on then finish E O s user device checked else ok ((false, checked), s))
        start
      ∙ proceed_bind s user device (check_stage E O s (begun found generated) auth)

  finish_success :
      (s t : Uiaa E O) (user device : Bytes) (checked info : UiaaInfo)
      → finish E O s user device checked ≡ ok ((true, info), t)
      → any_completed checked.completed checked.flows ≡ true
  unfolding finish
  finish_success s t user device checked info success = ground (arith, success)

  finish-any_completed :
      (s : Uiaa E O) (user device session : Bytes) (checked : UiaaInfo)
      → checked.session ≡ some session
      → any_completed checked.completed checked.flows ≡ true
      → (t : Uiaa E O) × (finish E O s user device checked ≡ ok ((true, checked), t))
  unfolding finish
  finish-any_completed s user device session checked set all =
      (update_uiaa_session E O s user device session none, ground (arith, set, all))

  -- What proceeds to a success has passed the check of the stage and completed a flow.
  proceed_success :
      (s t : Uiaa E O) (user device : Bytes) (info : UiaaInfo) (r : Result (Bool × UiaaInfo))
      → proceed s user device r ≡ ok ((true, info), t)
      → (checked : UiaaInfo) × (r ≡ ok (true, checked))
        × (any_completed checked.completed checked.flows ≡ true)
  unfolding proceed
  proceed_success s t user device info (err e) success = ground (arith, success)
  proceed_success s t user device info (ok (true, checked)) success =
      (checked, refl, finish_success s t user device checked info success)
  proceed_success s t user device info (ok (false, checked)) success = ground (arith, success)

  -- When try_auth of a request answers with success, some flow of the info it started from has all
  -- its stages completed before, or proved by the data of the request.
  pub try_auth-Proves :
      (s t : Uiaa E O) (user device : Bytes) (asked : Option Bytes) (auth : AuthData)
      (given info found : UiaaInfo) (generated : Bytes)
      → started s user device asked given ≡ ok found
      → try_auth E O s user device asked auth given generated ≡ ok ((true, info), t)
      → (flow : List AuthType) × Memᴰ flow found.flows
        × ((stage : AuthType)
            → Memᴰ stage flow
            → Memᴰ stage found.completed ⊎ Proves E O s auth stage)
  unfolding Leaves
  try_auth-Proves s t user device asked auth given info found generated start success =
      let (same_flows, same_completed, _) = begun-Keeps found generated in
      let (checked, passed, all) =
        proceed_success s t user device info (check_stage E O s (begun found generated) auth)
          (sym (try_auth-proceed s user device asked auth given found generated start) ∙ success) in
      let (kept, old_or_proved) =
        check_stage-Leaves E O s (begun found generated) checked auth passed in
      let (flow, m, completes) = any_completed-Completes checked.completed checked.flows all in
      (
        flow,
        subst (λ fs. Memᴰ flow fs) (kept ∙ same_flows) m,
        λ stage of_flow.
            subst (λ completed. Memᴰ stage completed ⊎ Proves E O s auth stage) same_completed
              (old_or_proved stage (completes stage of_flow)),
      )

  -- When the data of a request proves a stage, and the other stages of some flow of the info it
  -- started from are completed before, try_auth answers with success.
  pub Proves-try_auth :
      (s : Uiaa E O) (user device : Bytes) (asked : Option Bytes) (auth : AuthData)
      (given found : UiaaInfo) (generated : Bytes) (proved : AuthType) (flow : List AuthType)
      → started s user device asked given ≡ ok found
      → Proves E O s auth proved
      → Memᴰ flow found.flows
      → ((stage : AuthType) → Memᴰ stage flow → Memᴰ stage found.completed ⊎ (stage ≡ proved))
      → (info : UiaaInfo) × (t : Uiaa E O) × (try_auth E O s user device asked auth given generated
          ≡ ok ((true, info), t))
  unfolding proceed complete
  Proves-try_auth s user device asked auth given found generated proved flow start proves m all =
      let (same_flows, same_completed, (session, set)) = begun-Keeps found generated in
      let before : UiaaInfo = begun found generated in
      let after : UiaaInfo = record before { completed = before.completed ++ proved ∷ [] } in
      let completes : Completes after.completed flow = λ stage of_flow. elim (all stage of_flow) [
        | inl old ↦
            Memᴰ.append_left (proved ∷ [])
              (subst (λ completed. Memᴰ stage completed) (sym same_completed) old)
        | inr same ↦ Memᴰ.append_right before.completed (Memᴰ.head same)
      ] in
      let (t, success) = finish-any_completed s user device session after set (
        Completes-any_completed after.completed after.flows flow
          (subst (λ fs. Memᴰ flow fs) (sym same_flows) m) completes) in
      (
        after,
        t,
        try_auth-proceed s user device asked auth given found generated start
            ∙ ap (proceed s user device) (Proves-check_stage E O s before auth proved proves)
            ∙ success,
      )
