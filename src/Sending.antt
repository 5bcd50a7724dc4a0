-- ===== src/Sending.antt =====
-- src/service/sending.rs and src/database/key_value/sending.rs: where events go, and the keys under
-- which they wait. A text is its UTF-8 bytes.
pub mod Keys
pub mod Queue
pub mod Handler
pub mod System
pub mod Exclusion
pub mod Start
pub mod Backoff
pub mod Delivery
use grapevine.Prelude.{
  ℕ, Bool, true, false, ◌&&◌, List, [], ◌∷◌, ◌++◌, Option, none, some, if◌then◌else◌, nat_eq,
  Result, ok, err, bad_database, ◌>>=◌, ok_or, ◌==◌, Eq, ℕ-Eq, List-Eq, ◌≡◌, refl, arith, ◌↔◌,
  ==_iff, drop,
}
use grapevine.Utils.{Bytes, to_be_bytes, starts_with}
use grapevine.Utils.Utf8.{string_from_bytes}
use grapevine.Database.Parts.{split_ff}

pub data Destination : Type 0 where
  appservice : Bytes → Destination
  push : Bytes → Bytes → Destination
  normal : Bytes → Destination

-- SendingEventType
pub data SendingEvent : Type 0 where
  pdu : Bytes → SendingEvent
  edu : Bytes → SendingEvent

unfoldable pub get_prefix : Destination → Bytes
get_prefix (appservice server) = b'+' ∷ (server ++ 0xff ∷ [])
get_prefix (push user pushkey) = b'$' ∷ (user ++ 0xff ∷ (pushkey ++ 0xff ∷ []))
get_prefix (normal server) = server ++ 0xff ∷ []

-- value.is_empty()
unfoldable pub event_of : Bytes → Bytes → SendingEvent
event_of event [] = pdu event
event_of event (v ∷ value) = edu (v ∷ value)

-- `UserId::parse` and `ServerName::try_from` of ruma, as tests.
pub record Ruma : Type 0 where
  pub is_user_id : Bytes → Bool
  pub is_server_name : Bytes → Bool
  -- A server name starts with a letter, a digit or a bracket.
  pub server_name_start :
      (s : Bytes)
      → is_server_name s ≡ true
      → (starts_with (b'+' ∷ []) s ≡ false) × (starts_with (b'$' ∷ []) s ≡ false)

module _ (R : Ruma) where
  unfoldable pub parse_appservice : Bytes → Bytes → Result (Destination × SendingEvent)
  parse_appservice key value =
      let (server, rest) = split_ff key in
      do
        event ← ok_or rest bad_database
        server' ← string_from_bytes server
        ok (appservice server', event_of event value)

  unfoldable pub parse_push : Bytes → Bytes → Result (Destination × SendingEvent)
  parse_push key value =
      let (user, rest) = split_ff key in
      do
        user' ← string_from_bytes user
        user_id ← if R.is_user_id user' then ok user' else err bad_database
        after_user ← ok_or rest bad_database
        pushkey ← string_from_bytes (split_ff after_user).0
        event ← ok_or (split_ff after_user).1 bad_database
        ok (push user_id pushkey, event_of event value)

  unfoldable pub parse_normal : Bytes → Bytes → Result (Destination × SendingEvent)
  parse_normal key value =
      let (server, rest) = split_ff key in
      do
        event ← ok_or rest bad_database
        server' ← string_from_bytes server
        server_name ← if R.is_server_name server' then ok server' else err bad_database
        ok (normal server_name, event_of event value)

  unfoldable pub parse_servercurrentevent : Bytes → Bytes → Result (Destination × SendingEvent)
  unfolding parse_appservice parse_push parse_normal
  parse_servercurrentevent key value =
      if starts_with (b'+' ∷ []) key
      then parse_appservice (drop 1 key) value
      else if starts_with (b'$' ∷ []) key
      then parse_push (drop 1 key) value
      else parse_normal key value
