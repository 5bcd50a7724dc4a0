-- ===== src/KeyBackups.antt =====
-- src/database/key_value/key_backups.rs: the versions of a user's key backup, with an etag each,
-- and the sessions stored in them. A `Raw` value is the text of its JSON.
pub mod Latest
pub mod Sessions
pub mod Deletion
use grapevine.Prelude.{
  ℕ, suc, ◌/◌, ◌%◌, ◌+◌, ltb, Bool, true, false, List, [], ◌∷◌, ◌++◌, length, Option, none, some,
  if◌then◌else◌, Result, ok, err, ◌>>=◌, bad_database, bad_request, not_found, zero,
}
use grapevine.Utils.{Bytes, to_be_bytes, u64_from_bytes}
use grapevine.Database.Tree.{KvTree, remove_entries}
use grapevine.Utils.Decimal.{to_string}
use grapevine.Database.Parts.{part}
use grapevine.Globals.{next_count}

-- serde_json as the backups use it: the text of a value that is read as `Raw`, or nothing where it
-- is not valid JSON.
pub record Json : Type 0 where
  pub from_slice : Bytes → Option Bytes

-- The keys: a version, what all keys of a version, or of a room of it, start with, and a session.
abbrev pub version_key : Bytes → Bytes → Bytes
version_key user version = part user version

abbrev pub version_prefix : Bytes → Bytes → Bytes
version_prefix user version = part user (part version [])

abbrev pub room_prefix : Bytes → Bytes → Bytes → Bytes
room_prefix user version room = part user (part version (part room []))

abbrev pub session_key : Bytes → Bytes → Bytes → Bytes → Bytes
session_key user version room session = part user (part version (part room session))

module _ (E : KvTree) where
  pub record Backups : Type 0 where
    pub backupid_algorithm : E.Tree
    pub backupid_etag : E.Tree
    pub backupkeyid_backup : E.Tree
    pub global : E.Tree

  unfoldable pub create_backup : Backups → Bytes → Bytes → Result (Bytes × Backups)
  create_backup s user metadata = do
    (n, global) ← next_count E s.global
    let version = to_string n
    let key = version_key user version
    (etag, global') ← next_count E global
    ok (
      version,
      record s {
        backupid_algorithm = E.insert s.backupid_algorithm key metadata;
        backupid_etag = E.insert s.backupid_etag key (to_be_bytes etag);
        global = global';
      },
    )

  -- The loop over the keys with a prefix.
  unfoldable pub remove_sessions : Backups → Bytes → Backups
  remove_sessions s prefix = record s {
    backupkeyid_backup =
        remove_entries E (E.scan_prefix s.backupkeyid_backup prefix) s.backupkeyid_backup;
  }

  unfoldable pub delete_backup : Backups → Bytes → Bytes → Backups
  unfolding remove_sessions
  delete_backup s user version =
      let key = version_key user version in
      remove_sessions
        (record s {
          backupid_algorithm = E.remove s.backupid_algorithm key;
          backupid_etag = E.remove s.backupid_etag key;
        })
        (version_prefix user version)

  unfoldable pub update_backup : Backups → Bytes → Bytes → Bytes → Result (Bytes × Backups)
  update_backup s user version metadata =
      let key = version_key user version in
      elim (E.get s.backupid_algorithm key) [
        | none ↦ err (bad_request not_found)
        | some _ ↦ do
          (etag, global) ← next_count E s.global
          ok (
            version,
            record s {
              backupid_algorithm = E.insert s.backupid_algorithm key metadata;
              backupid_etag = E.insert s.backupid_etag key (to_be_bytes etag);
              global = global;
            },
          )
      ]

  unfoldable pub add_key : Backups → Bytes → Bytes → Bytes → Bytes → Bytes → Result Backups
  add_key s user version room session key_data =
      let key = version_key user version in
      elim (E.get s.backupid_algorithm key) [
        | none ↦ err (bad_request not_found)
        | some _ ↦ do
          (etag, global) ← next_count E s.global
          ok (record s {
            backupid_etag = E.insert s.backupid_etag key (to_be_bytes etag);
            backupkeyid_backup =
                E.insert s.backupkeyid_backup (session_key user version room session) key_data;
            global = global;
          })
      ]

  unfoldable pub count_keys : Backups → Bytes → Bytes → ℕ
  count_keys s user version = length (E.scan_prefix s.backupkeyid_backup (version_key user version))

  unfoldable pub get_etag : Backups → Bytes → Bytes → Result Bytes
  get_etag s user version = elim (E.get s.backupid_etag (version_key user version)) [
    | none ↦ err bad_database
    | some bytes ↦ elim (u64_from_bytes bytes) [
      | none ↦ err bad_database
      | some n ↦ ok (to_string n)
    ]
  ]

  unfoldable pub delete_all_keys : Backups → Bytes → Bytes → Backups
  unfolding remove_sessions
  delete_all_keys s user version = remove_sessions s (version_prefix user version)

  unfoldable pub delete_room_keys : Backups → Bytes → Bytes → Bytes → Backups
  unfolding remove_sessions
  delete_room_keys s user version room = remove_sessions s (room_prefix user version room)

  unfoldable pub delete_room_key : Backups → Bytes → Bytes → Bytes → Bytes → Backups
  unfolding remove_sessions
  delete_room_key s user version room session =
      remove_sessions s (session_key user version room session)

  module _ (J : Json) where
    -- serde_json::from_slice(&value), where there is a value
    unfoldable pub parsed_value : Option Bytes → Result (Option Bytes)
    parsed_value none = ok none
    parsed_value (some bytes) = elim (J.from_slice bytes) [
      | none ↦ err bad_database
      | some raw ↦ ok (some raw)
    ]

    unfoldable pub get_backup : Backups → Bytes → Bytes → Result (Option Bytes)
    unfolding parsed_value
    get_backup s user version = parsed_value (E.get s.backupid_algorithm (version_key user version))

    unfoldable pub get_session : Backups → Bytes → Bytes → Bytes → Bytes → Result (Option Bytes)
    unfolding parsed_value
    get_session s user version room session =
        parsed_value (E.get s.backupkeyid_backup (session_key user version room session))
