-- ===== src/Uiaa.antt =====
-- User-interactive authentication: src/service/uiaa.rs over src/database/key_value/uiaa.rs. A client
-- completes the stages of a flow one request at a time; a session keeps what it has completed.
pub mod Flows
pub mod Proves
pub mod Sessions
pub mod Stages
use grapevine.Prelude.{
  Bool, true, false, ◌&&◌, ◌||◌, List, [], ◌∷◌, ◌++◌, Option, none, some, Eq, ℕ-Eq, List-Eq,
  Pair-Eq, ◌==◌, ==_iff, ◌≡◌, ◌↔◌, if◌then◌else◌, arith, Result, ok, err, ◌>>=◌, bad_database,
  bad_request, panic, forbidden, unrecognized, invalid_param,
}
use grapevine.Utils.{Bytes}
use grapevine.HashMap.{HashMap, get, insert}
use grapevine.Database.Tree.{KvTree}
use grapevine.Database.Parts.{part}
use grapevine.Utils.Utf8.{string_from_bytes}

-- `AuthType` of ruma: the stages that the code has, and any other by its name
pub data AuthType : Type 0 where
  password registration_token dummy : AuthType
  other : Bytes → AuthType

unfoldable pub same_stage : AuthType → AuthType → Bool
same_stage password password = true
same_stage registration_token registration_token = true
same_stage dummy dummy = true
same_stage (other a) (other b) = a == b
same_stage _ _ = false

-- `UserIdentifier` and `AuthData` of ruma. A token is what `trim` leaves of it.
pub data Identifier : Type 0 where
  user_id_or_localpart : Bytes → Identifier
  other_identifier : Identifier

pub data AuthData : Type 0 where
  password_data : Identifier → Bytes → AuthData
  token_data : Bytes → AuthData
  dummy_data : AuthData
  other_data : AuthData

-- `StandardErrorBody`, by its message
pub data AuthError : Type 0 where
  invalid_password invalid_token : AuthError

pub record UiaaInfo : Type 0 where
  pub flows : List (List AuthType)
  pub completed : List AuthType
  pub params : Bytes
  pub session : Option Bytes
  pub auth_error : Option AuthError

-- What is not the repository's: ruma's parser of user ids on this server, the Argon2 check behind
-- `utils::verify_password`, and serde_json for `UiaaInfo`.
pub record Outside : Type 0 where
  pub parse_with_server_name : Bytes → Option Bytes
  pub verify_password : Bytes → Bytes → Bool
  pub to_vec : UiaaInfo → Bytes
  pub from_slice : Bytes → Option UiaaInfo

-- completed.contains(stage)
unfoldable pub has_stage : List AuthType → AuthType → Bool
unfolding same_stage
has_stage [] stage = false
has_stage (c ∷ completed) stage = same_stage c stage || has_stage completed stage

-- One round of the loop over the flows, and the loop.
unfoldable pub flow_completed : List AuthType → List AuthType → Bool
unfolding has_stage
flow_completed completed [] = true
flow_completed completed (stage ∷ stages) =
    has_stage completed stage && flow_completed completed stages

unfoldable pub any_completed : List AuthType → List (List AuthType) → Bool
unfolding flow_completed
any_completed completed [] = false
any_completed completed (flow ∷ flows) =
    flow_completed completed flow || any_completed completed flows

abbrev pub session_key : Bytes → Bytes → Bytes → Bytes
session_key user device session = part user (part device session)

-- The key of a stored request: user, device and session.
abbrev pub RequestKey : Type 0
RequestKey = Bytes × (Bytes × Bytes)

instance abbrev pub RequestKey-Eq : Eq RequestKey
RequestKey-Eq = Pair-Eq ⦃e = List-Eq⦄ ⦃f = Pair-Eq ⦃e = List-Eq⦄ ⦃f = List-Eq⦄⦄

module _ (E : KvTree) (O : Outside) where
  pub record Uiaa : Type 0 where
    pub userdevicesessionid_uiaainfo : E.Tree
    pub userdevicesessionid_uiaarequest : HashMap RequestKey Bytes
    pub userid_password : E.Tree
    pub config_token : Option Bytes

  unfoldable pub set_uiaa_request : Uiaa → Bytes → Bytes → Bytes → Bytes → Uiaa
  set_uiaa_request s user device session request = record s {
    userdevicesessionid_uiaarequest =
        insert (user, (device, session)) request s.userdevicesessionid_uiaarequest;
  }

  unfoldable pub get_uiaa_request : Uiaa → Bytes → Bytes → Bytes → Option Bytes
  get_uiaa_request s user device session =
      let key : RequestKey = (user, (device, session)) in get key s.userdevicesessionid_uiaarequest

  -- update_uiaa_session
  unfoldable pub update_uiaa_session : Uiaa → Bytes → Bytes → Bytes → Option UiaaInfo → Uiaa
  update_uiaa_session s user device session (some info) = record s {
    userdevicesessionid_uiaainfo =
        E.insert s.userdevicesessionid_uiaainfo (session_key user device session) (O.to_vec info);
  }
  update_uiaa_session s user device session none = record s {
    userdevicesessionid_uiaainfo =
        E.remove s.userdevicesessionid_uiaainfo (session_key user device session);
  }

  unfoldable pub get_uiaa_session : Uiaa → Bytes → Bytes → Bytes → Result UiaaInfo
  get_uiaa_session s user device session =
      elim (E.get s.userdevicesessionid_uiaainfo (session_key user device session)) [
        | none ↦ err (bad_request forbidden)
        | some bytes ↦ elim (O.from_slice bytes) [ none ↦ err bad_database | some info ↦ ok info ]
      ]

  -- Data::password_hash of the users
  unfoldable pub password_hash : Uiaa → Bytes → Result (Option Bytes)
  password_hash s user = elim (E.get s.userid_password user) [
    | none ↦ ok none
    | some bytes ↦ do hash ← string_from_bytes bytes; ok (some hash)
  ]

  unfoldable pub create : Uiaa → Bytes → Bytes → UiaaInfo → Bytes → Result Uiaa
  unfolding set_uiaa_request update_uiaa_session
  create s user device info json_body = elim info.session [
    | none ↦ err panic
    | some session ↦ ok (
        update_uiaa_session (set_uiaa_request s user device session json_body) user device session
          (some info))
  ]

  -- What a request with a stage comes to: the stage is wrong, or the info goes on to the flows.
  unfoldable pub reject : UiaaInfo → AuthError → Bool × UiaaInfo
  reject info error = (false, record info { auth_error = some error })

  unfoldable pub complete : UiaaInfo → AuthType → Bool × UiaaInfo
  complete info stage = (true, record info { completed = info.completed ++ stage ∷ [] })

  -- The match on the kind of `auth`.
  unfoldable pub check_stage : Uiaa → UiaaInfo → AuthData → Result (Bool × UiaaInfo)
  unfolding password_hash reject complete
  check_stage s info (password_data other_identifier word) = err (bad_request unrecognized)
  check_stage s info (password_data (user_id_or_localpart name) word) =
      elim (O.parse_with_server_name name) [
        | none ↦ err (bad_request invalid_param)
        | some user ↦ do
          hash ← password_hash s user
          elim hash [
            | none ↦ ok (complete info password)
            | some h ↦ ok (
                if O.verify_password h word
                then complete info password
                else reject info invalid_password)
          ]
      ]
  check_stage s info (token_data token) = ok (elim s.config_token [
    | none ↦ reject info invalid_token
    | some configured ↦
        if token == configured then complete info registration_token else reject info invalid_token
  ])
  check_stage s info dummy_data = ok (complete info dummy)
  check_stage s info other_data = ok (true, info)

  -- The end of `try_auth`: a completed flow removes the session, and others keep it.
  unfoldable pub finish : Uiaa → Bytes → Bytes → UiaaInfo → Result ((Bool × UiaaInfo) × Uiaa)
  unfolding any_completed update_uiaa_session
  finish s user device info = elim info.session [
    | none ↦ err panic
    | some session ↦ ok (
        if any_completed info.completed info.flows
        then ((true, info), update_uiaa_session s user device session none)
        else ((false, info), update_uiaa_session s user device session (some info)))
  ]

  -- `asked` is the session of the request's auth data, and `generated` a random string.
  unfoldable pub try_auth :
      Uiaa
      → Bytes
      → Bytes
      → Option Bytes
      → AuthData
      → UiaaInfo
      → Bytes
      → Result ((Bool × UiaaInfo) × Uiaa)
  unfolding get_uiaa_session check_stage finish
  try_auth s user device asked auth given generated = do
    found ← elim asked [ none ↦ ok given | some session ↦ get_uiaa_session s user device session ]
    let info : UiaaInfo = elim found.session [
      | none ↦ record found { session = some generated }
      | some _ ↦ found
    ]
    (goes_on, checked) ← check_stage s info auth
    if goes_on then finish s user device checked else ok ((false, checked), s)
