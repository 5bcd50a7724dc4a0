-- ===== src/Uiaa/Proves.antt =====
-- The stage that the data of a request proves, against the match on its kind in `try_auth`.
use grapevine.Prelude.{
  ==_refl, ◌==◌, ==_iff, Result-cases, Bool-cases, Option-cases, Bool, true, none, some, ◌≡◌, refl,
  sym, subst, ◌∙◌, ap, arith, ok, ◌⊎◌, inl, inr, List-Eq, ℕ-Eq,
}
use mathlib.Core.List.{Memᴰ}
use mathlib.Core.List.Memᴰ
use grapevine.Utils.{Bytes}
use grapevine.Database.Tree.{KvTree}
use grapevine.Uiaa.{
  AuthType, password, registration_token, dummy, AuthData, password_data, token_data, dummy_data,
  user_id_or_localpart, other_identifier, other_data, UiaaInfo, Outside, Uiaa, check_stage,
  complete, reject, password_hash,
}

module _ (E : KvTree) (O : Outside) where
  -- The stage that the data of a request proves: a password that fits the stored hash, any password
  -- for a user without one, the configured token, or nothing for the dummy stage.
  pub data Proves (s : Uiaa E O) : AuthData → AuthType → Type 0 where
    by_password :
        {name user hash word : Bytes}
        → O.parse_with_server_name name ≡ some user
        → password_hash E O s user ≡ ok (some hash)
        → O.verify_password hash word ≡ true
        → Proves s (password_data (user_id_or_localpart name) word) password
    without_hash :
        {name user word : Bytes}
        → O.parse_with_server_name name ≡ some user
        → password_hash E O s user ≡ ok none
        → Proves s (password_data (user_id_or_localpart name) word) password
    by_token :
        {token : Bytes}
        → s.config_token ≡ some token
        → Proves s (token_data token) registration_token
    by_dummy : Proves s dummy_data dummy

  -- A proved stage is completed.
  pub Proves-check_stage :
      (s : Uiaa E O) (info : UiaaInfo) (auth : AuthData) (stage : AuthType)
      → Proves s auth stage
      → check_stage E O s info auth ≡ ok (complete E O info stage)
  unfolding check_stage
  Proves-check_stage s info auth stage (by_password parsed found fits) =
      ground (arith, parsed, found, fits)
  Proves-check_stage s info auth stage (without_hash parsed missing) =
      ground (arith, parsed, missing)
  Proves-check_stage s info auth stage (by_token {token} configured) =
      ground (arith, configured, ==_refl token)
  Proves-check_stage s info auth stage by_dummy = refl

  -- What a request leaves of the info: its flows, its session and its completed stages, of which the
  -- request proves the new ones.
  unfoldable pub Leaves : Uiaa E O → AuthData → UiaaInfo → UiaaInfo → Type 0
  Leaves s auth before after =
      (after.flows ≡ before.flows)
      × ((stage : AuthType)
          → Memᴰ stage after.completed
          → Memᴰ stage before.completed ⊎ Proves s auth stage)

  complete-Leaves :
      (s : Uiaa E O) (auth : AuthData) (info checked : UiaaInfo) (stage : AuthType)
      → Proves s auth stage
      → complete E O info stage ≡ (true, checked)
      → Leaves s auth info checked
  unfolding Leaves complete
  complete-Leaves s auth info checked stage proved same = (
    sym (ap (λ r. r.1.flows) same),
    λ other m.
        elim (Memᴰ.append_cases info.completed
          (subst (λ (r : Bool × UiaaInfo). Memᴰ other r.1.completed) (sym same) m)) [
            | inl old ↦ inl old
            | inr new ↦ inr (subst (Proves s auth) (sym (Memᴰ.eq_of_singleton new)) proved)
          ],
  )

  check_stage-complete :
      (s : Uiaa E O) (info checked : UiaaInfo) (auth : AuthData)
      → check_stage E O s info auth ≡ ok (true, checked)
      → ((stage : AuthType) × Proves s auth stage × (complete E O info stage ≡ (true, checked)))
        ⊎ (info ≡ checked)
  unfolding check_stage reject complete
  check_stage-complete s info checked (password_data (user_id_or_localpart name) word) h =
      elim (Option-cases (O.parse_with_server_name name)) [
        | inl unparsed ↦ ground (arith, unparsed, h)
        | inr (user, parsed) ↦ elim (Result-cases (password_hash E O s user)) [
          | inr (e, failed) ↦ ground (arith, parsed, failed, h)
          | inl (none, missing) ↦
              inl (password, without_hash parsed missing, ground (arith, parsed, missing, h))
          | inl (some hash, found) ↦ elim (Bool-cases (O.verify_password hash word)) [
            | inl fits ↦
                inl
                  (password, by_password parsed found fits, ground (arith, parsed, found, fits, h))
            | inr wrong ↦ ground (arith, parsed, found, wrong, h)
          ]
        ]
      ]
  check_stage-complete s info checked (password_data other_identifier word) h = ground (arith, h)
  check_stage-complete s info checked (token_data token) h = elim (Option-cases s.config_token) [
    | inl unset ↦ ground (arith, unset, h)
    | inr (configured, set) ↦ elim (Bool-cases (token == configured)) [
      | inl same ↦ inl (
        registration_token,
        by_token (set ∙ ap some (sym ((==_iff token configured).0 same))),
        ground (arith, set, same, h),
      )
      | inr apart ↦ ground (arith, set, apart, h)
    ]
  ]
  check_stage-complete s info checked dummy_data h = inl (dummy, by_dummy, ground (arith, h))
  check_stage-complete s info checked other_data h = inr (ground (arith, h))

  pub check_stage-Leaves :
      (s : Uiaa E O) (info checked : UiaaInfo) (auth : AuthData)
      → check_stage E O s info auth ≡ ok (true, checked)
      → Leaves s auth info checked
  unfolding Leaves
  check_stage-Leaves s info checked auth h = elim (check_stage-complete s info checked auth h) [
    | inl (stage, proved, same) ↦ complete-Leaves s auth info checked stage proved same
    | inr same ↦ (
      sym (ap (λ i. i.flows) same),
      λ stage m. inl (subst (λ (i : UiaaInfo). Memᴰ stage i.completed) (sym same) m),
    )
  ]
