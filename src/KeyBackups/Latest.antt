-- ===== src/KeyBackups/Latest.antt =====
-- The latest backup of src/database/key_value/key_backups.rs: the last key of the user in the order of
-- bytes, which the text of a version need not be in.
use grapevine.Prelude.{
  ◌-◌, true, List, [], ◌∷◌, Option, none, some, Result, ok, ◌>>=◌, bad_database, ok_or,
}
use grapevine.Utils.{Bytes, u64_mod, to_be_bytes}
use grapevine.Utils.Utf8.{string_from_bytes}
use grapevine.Database.Tree.{KvTree, iter_page}
use grapevine.Database.Parts.{part}
use grapevine.StateCache.{last_part}
use grapevine.KeyBackups.{Backups, Json}

-- iterator.next()
unfoldable pub first_entry : List (Bytes × Bytes) → Option (Bytes × Bytes)
first_entry [] = none
first_entry (e ∷ entries) = some e

module _ (E : KvTree) where
  -- The entries of the user, the last first.
  unfoldable pub latest_entry : Backups E → Bytes → Option (Bytes × Bytes)
  unfolding first_entry iter_page
  latest_entry s user =
      first_entry (iter_page E s.backupid_algorithm (part user []) (to_be_bytes (u64_mod - 1)) true)

  unfoldable pub get_latest_backup_version : Backups E → Bytes → Result (Option Bytes)
  unfolding latest_entry last_part string_from_bytes
  get_latest_backup_version s user = elim (latest_entry s user) [
    | none ↦ ok none
    | some (key, _) ↦ do version ← string_from_bytes (last_part key); ok (some version)
  ]

  unfoldable pub get_latest_backup : Json → Backups E → Bytes → Result (Option (Bytes × Bytes))
  unfolding latest_entry last_part string_from_bytes
  get_latest_backup J s user = elim (latest_entry s user) [
    | none ↦ ok none
    | some (key, value) ↦ do
      version ← string_from_bytes (last_part key)
      algorithm ← ok_or (J.from_slice value) bad_database
      ok (some (version, algorithm))
  ]
