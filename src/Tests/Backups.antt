-- ===== src/Tests/Backups.antt =====
-- A backup with one version.
use grapevine.Prelude.{
  [], ◌∷◌, filter, take_while, none, some, ◌≡◌, ◌≤◌, refl, ◌&&◌, ◌==◌, List-Eq, ℕ-Eq, list_eq,
  if◌then◌else◌, ok,
}
use grapevine.Utils.{Bytes, to_be_bytes, starts_with, u64_from_bytes, increment}
use grapevine.Database.Tree.{find, KvTree, iter_page}
use grapevine.Database.Parts.{IsPart-nil, IsPart-cons, part}
use grapevine.Database.ListTree.{list_tree, sorted, put_sorted}
use grapevine.KeyBackups.Latest.{get_latest_backup_version, latest_entry, first_entry}
use grapevine.Database.Order.{page, entries_from, bytes_le}
use grapevine.StateCache.{last_part}
use grapevine.HashSet.{contains}
use grapevine.Utils.Utf8.{string_from_bytes, is_utf8}
use grapevine.Globals.{next_count}
use grapevine.KeyBackups.{
  Backups, Json, add_key, delete_room_key, parsed_value, count_keys, session_key,
}
use grapevine.KeyBackups.Sessions.{Room, same_room, session_of, add_key-get_session}
use grapevine.KeyBackups.Deletion.{get_session-delete_room_key, count_keys_longer}

abbrev json : Json
json = record { from_slice = λ bytes. some bytes }

abbrev one : Room
one = record {
  user = 1 ∷ [];
  version = b'1' ∷ [];
  room = 3 ∷ [];
  user_part = IsPart-cons 1 [] refl IsPart-nil;
  version_part = IsPart-cons b'1' [] refl IsPart-nil;
  room_part = IsPart-cons 3 [] refl IsPart-nil;
}

abbrev twelve : Room
twelve = record {
  user = 1 ∷ [];
  version = b'1' ∷ b'2' ∷ [];
  room = 3 ∷ [];
  user_part = IsPart-cons 1 [] refl IsPart-nil;
  version_part = IsPart-cons b'1' (b'2' ∷ []) refl (IsPart-cons b'2' [] refl IsPart-nil);
  room_part = IsPart-cons 3 [] refl IsPart-nil;
}

abbrev sid : Bytes
sid = 5 ∷ []

abbrev backups : Backups list_tree
backups = record {
  backupid_algorithm = (1 ∷ 0xff ∷ b'1' ∷ [], 9 ∷ []) ∷ [];
  backupid_etag = [];
  backupkeyid_backup = (session_key (1 ∷ []) (b'1' ∷ b'2' ∷ []) (3 ∷ []) sid, 8 ∷ []) ∷ [];
  global = [];
}

add_key-get_session_example :
    (t : Backups list_tree) × (add_key list_tree backups (1 ∷ []) (b'1' ∷ []) (3 ∷ []) sid (7 ∷ [])
      ≡ ok t)
    × (session_of list_tree json t one sid ≡ (
        if same_room one one && (sid == sid)
        then parsed_value list_tree json (some (7 ∷ []))
        else session_of list_tree json backups one sid))
unfolding find list_eq next_count u64_from_bytes increment
add_key-get_session_example =
    add_key-get_session list_tree json backups one one sid sid (7 ∷ []) (9 ∷ []) 1
      (KvTree.insert list_tree [] (b'c' ∷ []) (0 ∷ 0 ∷ 0 ∷ 0 ∷ 0 ∷ 0 ∷ 0 ∷ 1 ∷ [])) refl refl

count_keys_longer_example : 1 ≤ count_keys list_tree backups (1 ∷ []) (b'1' ∷ [])
unfolding starts_with find list_eq
count_keys_longer_example =
    count_keys_longer list_tree json backups one twelve sid (8 ∷ []) refl refl refl

abbrev first : KvTree.Tree list_tree
first = KvTree.insert list_tree [] (b'c' ∷ []) (0 ∷ 0 ∷ 0 ∷ 0 ∷ 0 ∷ 0 ∷ 0 ∷ 1 ∷ [])

abbrev one_text : Bytes
one_text = b'1' ∷ []

get_session-delete_room_key_example :
    session_of list_tree json
      (delete_room_key list_tree backups (1 ∷ []) (b'1' ∷ b'2' ∷ []) (3 ∷ []) sid)
      twelve
      (5 ∷ 6 ∷ [])
    ≡ (if same_room twelve twelve && starts_with sid (5 ∷ 6 ∷ [])
        then ok none
        else session_of list_tree json backups twelve (5 ∷ 6 ∷ []))
get_session-delete_room_key_example =
    get_session-delete_room_key list_tree json backups twelve twelve sid (5 ∷ 6 ∷ [])

-- Version 9 counts as later than version 10.
latest_is_nine :
    get_latest_backup_version list_tree
      (record backups {
        backupid_algorithm =
            (part (1 ∷ []) (b'9' ∷ []), []) ∷ (part (1 ∷ []) (b'1' ∷ b'0' ∷ []), []) ∷ [];
      })
      (1 ∷ [])
    ≡ ok (some (b'9' ∷ []))
unfolding get_latest_backup_version latest_entry first_entry iter_page page entries_from last_part
    string_from_bytes bytes_le starts_with contains is_utf8 filter take_while sorted put_sorted
    list_eq to_be_bytes
latest_is_nine = refl
