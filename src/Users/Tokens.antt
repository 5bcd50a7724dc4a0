-- ===== src/Users/Tokens.antt =====
-- Access tokens: a token stands for one device, and a device has one token.
use grapevine.Prelude.{
  true, none, some, ok, ◌==◌, ==_iff, ==_refl, List-Eq, ℕ-Eq, if◌then◌else◌, ◌≡◌, ◌≢◌, arith,
  Option-cases, Bool-cases, inl, inr,
}
use grapevine.Utils.{Bytes}
use grapevine.Utils.Utf8.{is_utf8, is_utf8_no_ff, string_from_bytes}
use grapevine.Database.Tree.{KvTree}
use grapevine.Database.Parts.{part, split_ff-part, split_ff-IsPart}
use grapevine.StateCache.{has}
use grapevine.Users.{
  Formats, Users, find_from_token, read_device, without_token, set_token, remove_device,
}

module _ (E : KvTree) where
  -- The trees of tokens are inverse to each other.
  pub record IsTokens (s : Users E) : Type 0 where
    pub there :
        (device token : Bytes)
        → E.get s.userdeviceid_token device ≡ some token
        → E.get s.token_userdeviceid token ≡ some device
    pub back :
        (token device : Bytes)
        → E.get s.token_userdeviceid token ≡ some device
        → E.get s.userdeviceid_token device ≡ some token

  module _ (s : Users E) (tokens : IsTokens s) where
    -- Without the token of a device no token leads to it, and the others lead where they led.
    pub get-without_token :
        (device token : Bytes)
        → E.get (without_token E s device) token ≡ elim (E.get s.token_userdeviceid token) [
          | none ↦ none
          | some other ↦ if other == device then none else some other
        ]
    unfolding without_token
    get-without_token device token = elim (Option-cases (E.get s.userdeviceid_token device)) [
      | inl missing ↦ elim (Option-cases (E.get s.token_userdeviceid token)) [
        | inl none_led ↦ ground (arith, missing, none_led)
        | inr (other, led) ↦
            ground (arith, missing, led, tokens.back token other led, ==_iff other device)
      ]
      | inr (old, has_old) ↦ elim (Option-cases (E.get s.token_userdeviceid token)) [
        | inl none_led ↦
            ground (arith, has_old, none_led, E.get-remove s.token_userdeviceid old token)
        | inr (other, led) ↦ ground (
          arith,
          has_old,
          led,
          E.get-remove s.token_userdeviceid old token,
          tokens.back token other led,
          tokens.there device old has_old,
          ==_iff other device,
          ==_iff old token,
        )
      ]
    ]

    token_removed :
        (user device other : Bytes)
        → E.get (remove_device E s user device).userdeviceid_token other
          ≡ (if part user device == other then none else E.get s.userdeviceid_token other)
    unfolding remove_device
    token_removed user device other =
        elim (Option-cases (E.get s.userdeviceid_token (part user device))) [
          | inl missing ↦ ground (arith, missing, ==_iff (part user device) other)
          | inr (old, has_old) ↦
              ground (arith, has_old, E.get-remove s.userdeviceid_token (part user device) other)
        ]

    -- After remove_device no token leads to the device, each other token leads where it led, and the
    -- trees of tokens stay inverse to each other.
    pub find_from_token-remove_device :
        (F : Formats) (user device token : Bytes)
        → IsTokens (remove_device E s user device)
          × (find_from_token E F (remove_device E s user device) token
              ≡ elim (E.get s.token_userdeviceid token) [
                | none ↦ ok none
                | some other ↦ if other == part user device then ok none else read_device E F other
              ])
    unfolding remove_device find_from_token
    find_from_token-remove_device F user device token =
        let key = part user device in
        (
          record {
            there = λ other t h. elim (Bool-cases (key == other)) [
              | inl same ↦ absurd (ground (arith, token_removed user device other))
              | inr differs ↦
                  let had : E.get s.userdeviceid_token other ≡ some t =
                    ground (arith, token_removed user device other) in
                  ground (
                    arith,
                    get-without_token key t,
                    tokens.there other t had,
                    ==_iff other key,
                    ==_iff key other,
                  )
            ];
            back = λ t other h. elim (Option-cases (E.get s.token_userdeviceid t)) [
              | inl missing ↦ absurd (ground (arith, get-without_token key t, missing))
              | inr (led, leads) ↦ ground (
                arith,
                get-without_token key t,
                leads,
                token_removed user device other,
                tokens.back t led leads,
                ==_iff key other,
                ==_iff led key,
              )
            ];
          },
          ground (arith, get-without_token key token),
        )

    -- set_token on a device with metadata succeeds for a token that leads nowhere yet or to this device:
    -- the token then leads to user and device, no other token does, each token of another device leads
    -- where it led, and the trees of tokens stay inverse to each other.
    pub find_from_token-set_token :
        (F : Formats) (user device token : Bytes)
        → has E s.userdeviceid_metadata (part user device) ≡ true
        → ((other : Bytes)
            → E.get s.token_userdeviceid token ≡ some other
            → other ≡ part user device)
        → is_utf8 user ≡ true
        → F.is_user_id user ≡ true
        → is_utf8 device ≡ true
        → (t : Users E) × (set_token E s user device token ≡ ok t)
          × IsTokens t
          × (find_from_token E F t token ≡ ok (some (user, device)))
          × ((other : Bytes)
              → token ≢ other
              → find_from_token E F t other ≡ elim (E.get s.token_userdeviceid other) [
                | none ↦ ok none
                | some led ↦ if led == part user device then ok none else read_device E F led
              ])
    unfolding set_token find_from_token
    find_from_token-set_token F user device token metadata free utf8 valid device_utf8 =
        let key = part user device in
        let t : Users E = record s {
          userdeviceid_token = E.insert s.userdeviceid_token key token;
          token_userdeviceid = E.insert (without_token E s key) token key;
        } in
        (
          t,
          ground (arith, metadata),
          record {
            there = λ other u h. elim (Bool-cases (key == other)) [
              | inl same ↦ ground (
                arith,
                E.get-insert s.userdeviceid_token key token other,
                E.get-insert (without_token E s key) token key u,
                ==_iff key other,
                ==_iff token u,
              )
              | inr differs ↦
                  let had : E.get s.userdeviceid_token other ≡ some u =
                    ground (arith, E.get-insert s.userdeviceid_token key token other) in
                  ground (
                    arith,
                    E.get-insert (without_token E s key) token key u,
                    get-without_token key u,
                    tokens.there other u had,
                    free other,
                    ==_iff token u,
                    ==_iff other key,
                    ==_iff key other,
                  )
            ];
            back = λ u other h. elim (Bool-cases (token == u)) [
              | inl same ↦ ground (
                arith,
                E.get-insert (without_token E s key) token key u,
                E.get-insert s.userdeviceid_token key token other,
                ==_iff token u,
                ==_iff key other,
              )
              | inr differs ↦ elim (Option-cases (E.get s.token_userdeviceid u)) [
                | inl missing ↦ absurd (
                    ground (
                      arith,
                      E.get-insert (without_token E s key) token key u,
                      get-without_token key u,
                      missing,
                    ))
                | inr (led, leads) ↦ ground (
                  arith,
                  E.get-insert (without_token E s key) token key u,
                  get-without_token key u,
                  leads,
                  E.get-insert s.userdeviceid_token key token other,
                  tokens.back u led leads,
                  ==_iff key other,
                  ==_iff led key,
                )
              ]
            ];
          },
          unfold read_device in
              unfold string_from_bytes in
              ground (
                arith,
                E.get-insert (without_token E s key) token key token,
                ==_refl token,
                split_ff-part user device,
                split_ff-IsPart device,
                is_utf8_no_ff user,
                is_utf8_no_ff device,
              ),
          λ other differs. ground (
            arith,
            E.get-insert (without_token E s key) token key other,
            get-without_token key other,
            ==_iff token other,
          ),
        )
