-- ===== src/Uiaa/Sessions.antt =====
-- The end of a request: what its session reads as afterwards, and all others.
use grapevine.Prelude.{
  Bool, ◌&&◌, none, some, ◌==◌, ℕ-Eq, List-Eq, ◌≡◌, if◌then◌else◌, arith, Result, ok, err,
  bad_request, forbidden,
}
use grapevine.Utils.{Bytes}
use grapevine.HashMap.{get-insert}
use grapevine.Database.Tree.{KvTree}
use grapevine.Database.Parts.{IsPart, part, same-part}
use grapevine.Uiaa.{
  UiaaInfo, Outside, Uiaa, any_completed, session_key, update_uiaa_session, create,
  set_uiaa_request, get_uiaa_request, RequestKey, RequestKey-Eq, get_uiaa_session, finish,
}

-- A user and a device of theirs.
pub record Client : Type 0 where
  pub user : Bytes
  pub device : Bytes
  pub user_part : IsPart user
  pub device_part : IsPart device

pub same_client : Client → Client → Bool
same_client a b = (a.user == b.user) && (a.device == b.device)

same-session_key :
    (a b : Client) (s t : Bytes)
    → (session_key a.user a.device s == session_key b.user b.device t)
      ≡ (same_client a b && (s == t))
unfolding same_client
same-session_key a b s t = ground (
  arith,
  same-part a.user b.user (part a.device s) (part b.device t) a.user_part b.user_part,
  same-part a.device b.device s t a.device_part b.device_part,
)

module _ (E : KvTree) (O : Outside) where
  pub stored : Uiaa E O → Client → Bytes → Result UiaaInfo
  stored s c session = get_uiaa_session E O s c.user c.device session

  -- The end of try_auth succeeds exactly if all stages of some flow are completed. Then the session
  -- is gone, and else it reads as the info with what was completed, if serde_json reads what it has
  -- written; all other sessions stay.
  pub stored-finish :
      (s : Uiaa E O) (a b : Client) (info : UiaaInfo) (session other : Bytes)
      → info.session ≡ some session
      → O.from_slice (O.to_vec info) ≡ some info
      → (t : Uiaa E O) × (finish E O s a.user a.device info
          ≡ ok ((any_completed info.completed info.flows, info), t))
        × (stored t b other ≡ (
            if same_client a b && (session == other)
            then (if any_completed info.completed info.flows
                then err (bad_request forbidden)
                else ok info)
            else stored s b other))
  unfolding finish stored update_uiaa_session get_uiaa_session
  stored-finish s a b info session other has reads =
      let done = any_completed info.completed info.flows in
      let key = session_key a.user a.device session in
      (
        update_uiaa_session E O s a.user a.device session (if done then none else some info),
        ground (arith, has),
        ground (
          arith,
          has,
          same-session_key a b session other,
          E.get-remove s.userdevicesessionid_uiaainfo key (session_key b.user b.device other),
          E.get-insert s.userdevicesessionid_uiaainfo key (O.to_vec info)
              (session_key b.user b.device other),
          reads,
        ),
      )

  -- After create the session reads as its info, if serde_json reads what it has written, and has the
  -- request; all other sessions and requests stay.
  pub create_lem :
      (s : Uiaa E O) (a b : Client) (info : UiaaInfo) (session other json_body : Bytes)
      → info.session ≡ some session
      → O.from_slice (O.to_vec info) ≡ some info
      → (t : Uiaa E O) × (create E O s a.user a.device info json_body ≡ ok t)
        × (stored t b other
            ≡ (if same_client a b && (session == other) then ok info else stored s b other))
        × (get_uiaa_request E O t b.user b.device other ≡ (
            if same_client a b && (session == other)
            then some json_body
            else get_uiaa_request E O s b.user b.device other))
  unfolding create stored set_uiaa_request get_uiaa_request update_uiaa_session get_uiaa_session
      same_client
  create_lem s a b info session other json_body has reads =
      let key = session_key a.user a.device session in
      let asked : RequestKey = (b.user, (b.device, other)) in
      let given : RequestKey = (a.user, (a.device, session)) in
      (
        update_uiaa_session E O (set_uiaa_request E O s a.user a.device session json_body) a.user
            a.device session (some info),
        ground (arith, has),
        ground (
          arith,
          same-session_key a b session other,
          E.get-insert s.userdevicesessionid_uiaainfo key (O.to_vec info)
              (session_key b.user b.device other),
          reads,
        ),
        ground (arith, get-insert s.userdevicesessionid_uiaarequest given json_body asked),
      )
