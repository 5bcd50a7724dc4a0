-- ===== src/Tests/Login.antt =====
-- A client in front of a flow with two stages.
use grapevine.Prelude.{
  true, false, List, ◌⊎◌, inr, [], ◌∷◌, none, some, ◌≡◌, refl, ◌&&◌, ◌==◌, List-Eq, ℕ-Eq,
  if◌then◌else◌, ok, err, bad_request, forbidden,
}
use mathlib.Core.List.{Memᴰ}
use mathlib.Core.List.Memᴰ
use grapevine.Utils.{Bytes}
use grapevine.Database.Tree.{find}
use grapevine.Database.Parts.{IsPart-nil, IsPart-cons}
use grapevine.Database.ListTree.{list_tree}
use grapevine.Uiaa.{
  AuthType, password_hash, password, dummy, dummy_data, password_data, user_id_or_localpart,
  UiaaInfo, Outside, Uiaa, any_completed, finish, try_auth, check_stage, complete, flow_completed,
  has_stage, same_stage, update_uiaa_session,
}
use grapevine.Uiaa.Sessions.{Client, same_client, stored, stored-finish}
use grapevine.Uiaa.Proves.{Proves, without_hash}
use grapevine.Uiaa.Stages.{try_auth-Proves, Proves-try_auth}

abbrev info : UiaaInfo
info = record {
  flows = (dummy ∷ []) ∷ [];
  completed = [];
  params = [];
  session = some (4 ∷ []);
  auth_error = none;
}

abbrev outside : Outside
outside = record {
  parse_with_server_name = λ name. some name;
  verify_password = λ hash word. false;
  to_vec = λ i. [];
  from_slice = λ bytes. some info;
}

abbrev sid : Bytes
sid = 4 ∷ []

abbrev nobody : Uiaa list_tree outside
nobody = record {
  userdevicesessionid_uiaainfo = [];
  userdevicesessionid_uiaarequest = [];
  userid_password = [];
  config_token = none;
}

abbrev phone : Client
phone = record {
  user = 1 ∷ [];
  device = 2 ∷ [];
  user_part = IsPart-cons 1 [] refl IsPart-nil;
  device_part = IsPart-cons 2 [] refl IsPart-nil;
}

stored-finish_example :
    (t : Uiaa list_tree outside) × (finish list_tree outside nobody (1 ∷ []) (2 ∷ []) info
      ≡ ok ((any_completed [] ((dummy ∷ []) ∷ []), info), t))
    × (stored list_tree outside t phone (4 ∷ []) ≡ (
        if same_client phone phone && (sid == sid)
        then (if any_completed [] ((dummy ∷ []) ∷ []) then err (bad_request forbidden) else ok info)
        else stored list_tree outside nobody phone (4 ∷ [])))
stored-finish_example =
    stored-finish list_tree outside nobody phone phone info (4 ∷ []) (4 ∷ []) refl refl

-- A flow of two stages, the password's completed in an earlier request.
abbrev half : UiaaInfo
half = record info { flows = (password ∷ dummy ∷ []) ∷ []; completed = password ∷ [] }

abbrev done : UiaaInfo
done = record half { completed = password ∷ dummy ∷ [] }

try_auth-Proves_example :
    (flow : List AuthType) × Memᴰ flow ((password ∷ dummy ∷ []) ∷ [])
    × ((stage : AuthType)
        → Memᴰ stage flow
        → Memᴰ stage (password ∷ []) ⊎ Proves list_tree outside nobody dummy_data stage)
unfolding try_auth check_stage complete finish any_completed flow_completed has_stage same_stage
try_auth-Proves_example =
    try_auth-Proves list_tree outside nobody
      (update_uiaa_session list_tree outside nobody (1 ∷ []) (2 ∷ []) (4 ∷ []) none) (1 ∷ [])
      (2 ∷ []) none dummy_data half done half (4 ∷ []) refl refl

abbrev only_password : UiaaInfo
only_password = record info { flows = (password ∷ []) ∷ [] }

unknown_user :
    Proves list_tree outside nobody (password_data (user_id_or_localpart (6 ∷ [])) []) password
unfolding password_hash find
unknown_user = without_hash refl refl

password_only : (stage : AuthType) → Memᴰ stage (password ∷ []) → Memᴰ stage [] ⊎ (stage ≡ password)
password_only stage m = inr (Memᴰ.eq_of_singleton m)

-- The user 6 does not exist, and the empty password passes.
Proves-try_auth_example :
    (after : UiaaInfo) × (t : Uiaa list_tree outside) × (try_auth list_tree outside nobody
        (1 ∷ [])
        (2 ∷ [])
        none
        (password_data (user_id_or_localpart (6 ∷ [])) [])
        only_password
        (4 ∷ [])
      ≡ ok ((true, after), t))
Proves-try_auth_example =
    Proves-try_auth list_tree outside nobody (1 ∷ []) (2 ∷ []) none
      (password_data (user_id_or_localpart (6 ∷ [])) []) only_password only_password (4 ∷ [])
      password (password ∷ []) refl unknown_user (Memᴰ.head refl) password_only
