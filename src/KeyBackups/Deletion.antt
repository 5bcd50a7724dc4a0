-- ===== src/KeyBackups/Deletion.antt =====
-- What the deletions take, and what a count counts.
use grapevine.Prelude.{
  Bool, true, ◌&&◌, [], ◌∷◌, ◌==◌, ==_iff, List-Eq, ℕ-Eq, none, some, ok, if◌then◌else◌, ◌≡◌, arith,
  length, ◌≤◌, List,
}
use grapevine.Utils.{Bytes, starts_with}
use grapevine.Database.Tree.{KvTree, get-remove_prefix, find}
use grapevine.Database.Parts.{same-part, starts_with-part, starts_with_longer, part}
use grapevine.KeyBackups.{
  Backups, Json, get_session, get_backup, parsed_value, version_key, version_prefix, room_prefix,
  delete_backup, delete_room_keys, delete_room_key, remove_sessions, count_keys,
}
use grapevine.KeyBackups.Sessions.{Room, same_room, key_of, session_of}

pub same_version : Room → Room → Bool
same_version a b = (a.user == b.user) && (a.version == b.version)

starts_with-version_prefix :
    (a b : Room) (s : Bytes)
    → starts_with (version_prefix a.user a.version) (key_of b s) ≡ same_version a b
unfolding same_version starts_with
starts_with-version_prefix a b s = ground (
  arith,
  starts_with-part a.user b.user (part a.version []) (part b.version (part b.room s)) a.user_part
      b.user_part,
  starts_with-part a.version b.version [] (part b.room s) a.version_part b.version_part,
)

starts_with-room_prefix :
    (a b : Room) (s : Bytes)
    → starts_with (room_prefix a.user a.version a.room) (key_of b s) ≡ same_room a b
unfolding same_room starts_with
starts_with-room_prefix a b s = ground (
  arith,
  starts_with-part a.user b.user (part a.version (part a.room [])) (part b.version (part b.room s))
      a.user_part b.user_part,
  starts_with-part a.version b.version (part a.room []) (part b.room s) a.version_part
      b.version_part,
  starts_with-part a.room b.room [] s a.room_part b.room_part,
)

starts_with-session_key :
    (a b : Room) (s t : Bytes)
    → starts_with (key_of a s) (key_of b t) ≡ (same_room a b && starts_with s t)
unfolding same_room
starts_with-session_key a b s t = ground (
  arith,
  starts_with-part a.user b.user (part a.version (part a.room s)) (part b.version (part b.room t))
      a.user_part b.user_part,
  starts_with-part a.version b.version (part a.room s) (part b.room t) a.version_part
      b.version_part,
  starts_with-part a.room b.room s t a.room_part b.room_part,
)

find-length : (k : Bytes) (l : List (Bytes × Bytes)) (v : Bytes) → find k l ≡ some v → 1 ≤ length l
unfolding find
find-length k [] v h = ground (arith, h)
find-length k (e ∷ l) v h = omega arith

module _ (E : KvTree) (J : Json) (s : Backups E) (a b : Room) where
  removed_session :
      (prefix session : Bytes)
      → session_of E J (remove_sessions E s prefix) b session
        ≡ (if starts_with prefix (key_of b session) then ok none else session_of E J s b session)
  unfolding remove_sessions get_session parsed_value
  removed_session prefix session =
      ground (arith, get-remove_prefix E s.backupkeyid_backup prefix (key_of b session))

  -- delete_room_keys takes the sessions of its room, and no other.
  pub get_session-delete_room_keys :
      (session : Bytes)
      → session_of E J (delete_room_keys E s a.user a.version a.room) b session
        ≡ (if same_room a b then ok none else session_of E J s b session)
  unfolding delete_room_keys
  get_session-delete_room_keys session = ground (
    arith,
    removed_session (room_prefix a.user a.version a.room) session,
    starts_with-room_prefix a b session,
  )

  -- delete_room_key takes every session of the room whose id starts with the one that is given, and
  -- no other.
  pub get_session-delete_room_key :
      (session other : Bytes)
      → session_of E J (delete_room_key E s a.user a.version a.room session) b other
        ≡ (if same_room a b && starts_with session other then ok none else session_of E J s b other)
  unfolding delete_room_key
  get_session-delete_room_key session other =
      ground
        (arith, removed_session (key_of a session) other, starts_with-session_key a b session other)

  -- delete_backup takes the version and all of its sessions, and no other version's.
  pub delete_backup_lem :
      (session : Bytes)
      → (get_backup E J (delete_backup E s a.user a.version) b.user b.version
          ≡ (if same_version a b then ok none else get_backup E J s b.user b.version))
        × (session_of E J (delete_backup E s a.user a.version) b session
            ≡ (if same_version a b then ok none else session_of E J s b session))
  unfolding delete_backup get_backup get_session parsed_value same_version remove_sessions
  delete_backup_lem session = (
    ground (
      arith,
      E.get-remove s.backupid_algorithm (version_key a.user a.version)
          (version_key b.user b.version),
      same-part a.user b.user a.version b.version a.user_part b.user_part,
    ),
    ground (
      arith,
      get-remove_prefix E s.backupkeyid_backup (version_prefix a.user a.version) (key_of b session),
      starts_with-version_prefix a b session,
    ),
  )

  -- count_keys counts a session of another version of the user too, if the name of that version
  -- starts with the name of the one that is given.
  pub count_keys_longer :
      (session stored : Bytes)
      → a.user ≡ b.user
      → starts_with a.version b.version ≡ true
      → E.get s.backupkeyid_backup (key_of b session) ≡ some stored
      → 1 ≤ count_keys E s a.user a.version
  unfolding count_keys
  count_keys_longer session stored same starts there =
      let scanned = E.scan_prefix s.backupkeyid_backup (version_key a.user a.version) in
      find-length (key_of b session) scanned stored (
        ground (
          arith,
          there,
          E.find-scan_prefix s.backupkeyid_backup (version_key a.user a.version) (key_of b session),
          starts_with-part a.user b.user a.version (part b.version (part b.room session))
              a.user_part b.user_part,
          starts_with_longer a.version b.version (0xff ∷ part b.room session) starts,
          ==_iff a.user b.user,
        ))
