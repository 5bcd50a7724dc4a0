-- ===== src/KeyBackups/Sessions.antt =====
-- A session that is added is the one that is read back, and no other changes.
use grapevine.Prelude.{
  ℕ, Bool, ◌&&◌, ◌==◌, List-Eq, ℕ-Eq, Option, some, Result, ok, if◌then◌else◌, ◌≡◌, arith,
}
use grapevine.Utils.{Bytes, to_be_bytes}
use grapevine.Database.Tree.{KvTree}
use grapevine.Database.Parts.{IsPart, same-part, part}
use grapevine.Globals.{next_count}
use grapevine.KeyBackups.{
  Backups, Json, add_key, create_backup, get_backup, get_session, parsed_value, session_key,
  version_key,
}
use grapevine.Utils.Decimal.{to_string}

-- A user, a version and a room.
pub record Room : Type 0 where
  pub user : Bytes
  pub version : Bytes
  pub room : Bytes
  pub user_part : IsPart user
  pub version_part : IsPart version
  pub room_part : IsPart room

unfoldable pub same_room : Room → Room → Bool
same_room a b = (a.user == b.user) && ((a.version == b.version) && (a.room == b.room))

abbrev pub key_of : Room → Bytes → Bytes
key_of r session = session_key r.user r.version r.room session

-- The keys of two sessions are the same if the rooms and the sessions are.
pub same-session_key :
    (a b : Room) (s t : Bytes) → (key_of a s == key_of b t) ≡ (same_room a b && (s == t))
unfolding same_room
same-session_key a b s t = ground (
  arith,
  same-part a.user b.user (part a.version (part a.room s)) (part b.version (part b.room t))
      a.user_part b.user_part,
  same-part a.version b.version (part a.room s) (part b.room t) a.version_part b.version_part,
  same-part a.room b.room s t a.room_part b.room_part,
)

module _ (E : KvTree) (J : Json) where
  abbrev pub session_of : Backups E → Room → Bytes → Result (Option Bytes)
  session_of s r session = get_session E J s r.user r.version r.room session

  -- After add_key to an existing version, with a counter that can count on, the session reads as
  -- the data (as JSON), and every session with another room or id reads as before.
  pub add_key-get_session :
      (s : Backups E) (a b : Room) (session other key_data algorithm : Bytes) (n : ℕ)
      (global : E.Tree)
      → E.get s.backupid_algorithm (version_key a.user a.version) ≡ some algorithm
      → next_count E s.global ≡ ok (n, global)
      → (t : Backups E) × (add_key E s a.user a.version a.room session key_data ≡ ok t)
        × (session_of t b other ≡ (
            if same_room a b && (session == other)
            then parsed_value E J (some key_data)
            else session_of s b other))
  unfolding add_key get_session
  add_key-get_session s a b session other key_data algorithm n global exists counts =
      let key = version_key a.user a.version in
      let t : Backups E = record s {
        backupid_etag = E.insert s.backupid_etag key (to_be_bytes n);
        backupkeyid_backup = E.insert s.backupkeyid_backup (key_of a session) key_data;
        global = global;
      } in
      (
        t,
        ground (arith, exists, counts),
        ground (
          arith,
          E.get-insert s.backupkeyid_backup (key_of a session) key_data (key_of b other),
          same-session_key a b session other,
        ),
      )

  -- After create_backup, with a counter that can count on twice, the first count is the version, with
  -- the given algorithm (as JSON) if it is read by its user; all other versions read as before.
  pub create_backup-get_backup :
      (s : Backups E) (user u v metadata : Bytes) (n m : ℕ) (global global' : E.Tree)
      → IsPart user
      → IsPart u
      → next_count E s.global ≡ ok (n, global)
      → next_count E global ≡ ok (m, global')
      → (t : Backups E) × (create_backup E s user metadata ≡ ok (to_string n, t))
        × (get_backup E J t u v ≡ (
            if (user == u) && (to_string n == v)
            then parsed_value E J (some metadata)
            else get_backup E J s u v))
  unfolding create_backup get_backup
  create_backup-get_backup s user u v metadata n m global global' user_part u_part counts counts' =
      let key = version_key user (to_string n) in
      let t : Backups E = record s {
        backupid_algorithm = E.insert s.backupid_algorithm key metadata;
        backupid_etag = E.insert s.backupid_etag key (to_be_bytes m);
        global = global';
      } in
      (
        t,
        ground (arith, counts, counts'),
        ground (
          arith,
          E.get-insert s.backupid_algorithm key metadata (version_key u v),
          same-part user u (to_string n) v user_part u_part,
        ),
      )
