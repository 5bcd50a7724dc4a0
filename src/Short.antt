-- ===== src/Short.antt =====
-- src/database/key_value/rooms/short.rs: events, state keys and rooms have numbers for short, which
-- `next_count` hands out.
pub mod Bijection
pub mod Cached
pub mod Ids
use grapevine.Prelude.{
  ℕ, Bool, true, Option, none, some, Result, ok, err, ◌>>=◌, ok_or, bad_database, if◌then◌else◌, Eq,
  List-Eq, ℕ-Eq, Pair-Eq, ◌≡◌,
}
use grapevine.Utils.{Bytes, to_be_bytes, u64_from_bytes}
use grapevine.Utils.Utf8.{string_from_bytes, is_utf8}
use grapevine.LruCache.{LruCache}
use grapevine.Database.Tree.{KvTree}
use grapevine.Database.Parts.{part, split_ff}
use grapevine.Globals.{next_count}

-- `StateEventType` of ruma as text and back, and `EventId::parse_arc` as a test.
pub record Types : Type 1 where
  pub StateEventType : Type 0
  pub to_string : StateEventType → Bytes
  pub from_string : Bytes → StateEventType
  pub is_utf8-to_string : (t : StateEventType) → is_utf8 (to_string t) ≡ true
  pub from_string-to_string : (t : StateEventType) → from_string (to_string t) ≡ t
  pub is_event_id : Bytes → Bool

module _ (E : KvTree) where
  -- The number that a tree has for a key.
  unfoldable pub stored_short : E.Tree → Bytes → Result (Option ℕ)
  stored_short t key = elim (E.get t key) [
    | none ↦ ok none
    | some bytes ↦ do short ← ok_or (u64_from_bytes bytes) bad_database; ok (some short)
  ]

  -- A tree from keys to numbers, the tree back from numbers, and the counter.
  pub record ShortTrees : Type 0 where
    pub forward : E.Tree
    pub backward : E.Tree
    pub global : E.Tree

  -- The stored number of a key, or a new one that is stored both ways.
  unfoldable pub get_or_create : ShortTrees → Bytes → Result (ℕ × ShortTrees)
  unfolding stored_short
  get_or_create s key = do
    stored ← stored_short s.forward key
    elim stored [
      | some short ↦ ok (short, s)
      | none ↦ do
        (short, global) ← next_count E s.global
        ok (
          short,
          record {
            forward = E.insert s.forward key (to_be_bytes short);
            backward = E.insert s.backward (to_be_bytes short) key;
            global = global;
          },
        )
    ]

  unfoldable pub get_shortroomid : E.Tree → Bytes → Result (Option ℕ)
  unfolding stored_short
  get_shortroomid roomid_shortroomid room_id = stored_short roomid_shortroomid room_id

  -- The number of the room, with its tree and the counter.
  unfoldable pub get_or_create_shortroomid :
      E.Tree → E.Tree → Bytes → Result (ℕ × (E.Tree × E.Tree))
  unfolding stored_short
  get_or_create_shortroomid roomid_shortroomid global room_id = do
    stored ← stored_short roomid_shortroomid room_id
    elim stored [
      | some short ↦ ok (short, (roomid_shortroomid, global))
      | none ↦ do
        (short, global') ← next_count E global
        ok (short, (E.insert roomid_shortroomid room_id (to_be_bytes short), global'))
    ]

  -- Numbers of keys of any type, with a cache of the numbers and one of the keys: `db_key` makes the
  -- bytes of a key in the trees, `read_key` reads them.
  module _ {K : Type 0} (db_key : K → Bytes) (read_key : Bytes → Result K) (C : LruCache K ℕ)
      (D : LruCache ℕ K) where
    pub record Shorts : Type 0 where
      pub trees : ShortTrees
      pub short_cache : C.Cache
      pub key_cache : D.Cache

    -- The state is kept where the code fails, as the trees are.
    unfoldable pub get_short : Shorts → K → Result (Option ℕ) × Shorts
    unfolding stored_short
    get_short s key =
        let (hit, cache) = C.get_mut s.short_cache key in
        let s' : Shorts = record s { short_cache = cache } in
        elim hit [
          | some short ↦ (ok (some short), s')
          | none ↦ elim (stored_short s'.trees.forward (db_key key)) [
            | err e ↦ (err e, s')
            | ok none ↦ (ok none, s')
            | ok (some short) ↦
                (ok (some short), record s' { short_cache = C.insert s'.short_cache key short })
          ]
        ]

    unfoldable pub get_or_create_short : Shorts → K → Result ℕ × Shorts
    unfolding get_or_create
    get_or_create_short s key =
        let (hit, cache) = C.get_mut s.short_cache key in
        let s' : Shorts = record s { short_cache = cache } in
        elim hit [
          | some short ↦ (ok short, s')
          | none ↦ elim (get_or_create s'.trees (db_key key)) [
            | err e ↦ (err e, s')
            | ok (short, trees) ↦ (
              ok short,
              record s' { trees = trees; short_cache = C.insert s'.short_cache key short },
            )
          ]
        ]

    unfoldable pub key_of : E.Tree → ℕ → Result K
    key_of backward short = do
      bytes ← ok_or (E.get backward (to_be_bytes short)) bad_database
      read_key bytes

    unfoldable pub get_from_short : Shorts → ℕ → Result K × Shorts
    unfolding key_of
    get_from_short s short =
        let (hit, cache) = D.get_mut s.key_cache short in
        let s' : Shorts = record s { key_cache = cache } in
        elim hit [
          | some key ↦ (ok key, s')
          | none ↦ elim (key_of s'.trees.backward short) [
            | err e ↦ (err e, s')
            | ok key ↦ (ok key, record s' { key_cache = D.insert s'.key_cache short key })
          ]
        ]

-- An event id is its own key.
abbrev pub event_db_key : Bytes → Bytes
event_db_key event_id = event_id

module _ (T : Types) where
  unfoldable pub read_event_id : Bytes → Result Bytes
  unfolding string_from_bytes
  read_event_id bytes = do
    event_id ← string_from_bytes bytes
    if T.is_event_id event_id then ok event_id else err bad_database

  unfoldable pub state_db_key : T.StateEventType × Bytes → Bytes
  state_db_key (event_type, state_key) = part (T.to_string event_type) state_key

  unfoldable pub read_state_key : Bytes → Result (T.StateEventType × Bytes)
  unfolding string_from_bytes split_ff
  read_state_key bytes = do
    statekey_bytes ← ok_or (split_ff bytes).1 bad_database
    event_type ← string_from_bytes (split_ff bytes).0
    state_key ← string_from_bytes statekey_bytes
    ok (T.from_string event_type, state_key)

  module _ (E : KvTree) (C : LruCache Bytes ℕ) (D : LruCache ℕ Bytes) where
    -- eventid_shorteventid and shorteventid_eventid with eventidshort_cache and shorteventid_cache
    abbrev pub EventShorts : Type 0
    EventShorts = Shorts E event_db_key read_event_id C D

    unfoldable pub get_or_create_shorteventid : EventShorts → Bytes → Result ℕ × EventShorts
    unfolding get_or_create_short
    get_or_create_shorteventid = get_or_create_short E event_db_key read_event_id C D

    unfoldable pub get_eventid_from_short : EventShorts → ℕ → Result Bytes × EventShorts
    unfolding get_from_short read_event_id
    get_eventid_from_short = get_from_short E event_db_key read_event_id C D

  module _ (E : KvTree) (C : LruCache (T.StateEventType × Bytes) ℕ)
      (D : LruCache ℕ (T.StateEventType × Bytes)) where
    -- statekey_shortstatekey and shortstatekey_statekey with statekeyshort_cache and
    -- shortstatekey_cache
    abbrev pub StateKeyShorts : Type 0
    StateKeyShorts = Shorts E state_db_key read_state_key C D

    unfoldable pub get_shortstatekey :
        StateKeyShorts → T.StateEventType × Bytes → Result (Option ℕ) × StateKeyShorts
    unfolding get_short state_db_key
    get_shortstatekey = get_short E state_db_key read_state_key C D

    unfoldable pub get_or_create_shortstatekey :
        StateKeyShorts → T.StateEventType × Bytes → Result ℕ × StateKeyShorts
    unfolding get_or_create_short state_db_key
    get_or_create_shortstatekey = get_or_create_short E state_db_key read_state_key C D

    unfoldable pub get_statekey_from_short :
        StateKeyShorts → ℕ → Result (T.StateEventType × Bytes) × StateKeyShorts
    unfolding get_from_short read_state_key
    get_statekey_from_short = get_from_short E state_db_key read_state_key C D
