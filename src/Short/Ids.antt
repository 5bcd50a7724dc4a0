-- ===== src/Short/Ids.antt =====
-- The numbers of events and of state keys.
use grapevine.Prelude.{ℕ, ◌<◌, ◌≤◌, ◌+◌, true, some, ok, ◌≡◌, arith}
use grapevine.Utils.{Bytes, u64_mod, to_be_bytes}
use grapevine.Utils.Utf8.{is_utf8, is_utf8_no_ff, string_from_bytes}
use grapevine.LruCache.{LruCache}
use grapevine.Database.Tree.{KvTree}
use grapevine.Database.Parts.{split_ff-part}
use grapevine.Short.{
  Types, event_db_key, read_event_id, state_db_key, read_state_key, EventShorts, StateKeyShorts,
  get_or_create_shorteventid, get_eventid_from_short, get_or_create_shortstatekey,
  get_shortstatekey, get_statekey_from_short,
}
use grapevine.Short.Bijection.{HasShort}
use grapevine.Short.Cached.{IsSound, get_or_create_short-IsNew}

module _ (T : Types) where
  pub read_event_id-event_db_key :
      (id : Bytes) → is_utf8 id ≡ true → T.is_event_id id ≡ true → read_event_id T id ≡ ok id
  unfolding read_event_id string_from_bytes
  read_event_id-event_db_key id utf8 valid = ground arith

  read_state_key-state_db_key :
      (event_type : T.StateEventType) (state_key : Bytes)
      → is_utf8 state_key ≡ true
      → read_state_key T (state_db_key T (event_type, state_key)) ≡ ok (event_type, state_key)
  unfolding read_state_key state_db_key string_from_bytes
  read_state_key-state_db_key event_type state_key utf8 = ground (
    arith,
    split_ff-part (T.to_string event_type) state_key,
    T.is_utf8-to_string event_type,
    is_utf8_no_ff (T.to_string event_type),
    T.from_string-to_string event_type,
  )

  -- On a sound state with a counter that can count on, get_or_create_shorteventid of an event id in
  -- UTF-8 that ruma accepts succeeds; the state stays sound, get_eventid_from_short gives the event
  -- id back from the number, and every event that had a number keeps it.
  pub get_eventid-get_or_create :
      (E : KvTree) (C : LruCache Bytes ℕ) (D : LruCache ℕ Bytes) (count : ℕ)
      (s : EventShorts T E C D) (sound : IsSound E event_db_key (read_event_id T) C D count s)
      (id : Bytes)
      → count + 1 < u64_mod
      → is_utf8 id ≡ true
      → T.is_event_id id ≡ true
      → (n : ℕ) × (t : EventShorts T E C D) × (get_or_create_shorteventid T E C D s id ≡ (ok n, t))
        × ((count' : ℕ) × (count' ≤ count + 1)
            × IsSound E event_db_key (read_event_id T) C D count' t)
        × ((get_eventid_from_short T E C D t n).0 ≡ ok id)
        × ((other : Bytes) (m : ℕ)
            → HasShort E s.trees.forward other m
            → HasShort E t.trees.forward other m)
  unfolding get_or_create_shorteventid get_eventid_from_short
  get_eventid-get_or_create E C D count s sound id room utf8 valid =
      let (n, t, is) =
        get_or_create_short-IsNew E event_db_key (read_event_id T) C D count s sound id room
          (read_event_id-event_db_key id utf8 valid) in
      (
        n,
        t,
        is.result,
        (is.count', is.counts, is.numbered.sound),
        is.numbered.gives_key,
        λ other m had. is.keeps other (to_be_bytes m) had,
      )

  -- On a sound state with a counter that can count on, get_or_create_shortstatekey of an event type
  -- and a state key in UTF-8 succeeds; the state stays sound, get_shortstatekey then has the number,
  -- get_statekey_from_short gives type and key back from it, and whatever had a number keeps it.
  pub get_statekey-get_or_create :
      (E : KvTree) (C : LruCache (T.StateEventType × Bytes) ℕ)
      (D : LruCache ℕ (T.StateEventType × Bytes)) (count : ℕ) (s : StateKeyShorts T E C D)
      (sound : IsSound E (state_db_key T) (read_state_key T) C D count s)
      (event_type : T.StateEventType) (state_key : Bytes)
      → count + 1 < u64_mod
      → is_utf8 state_key ≡ true
      → (n : ℕ) × (t : StateKeyShorts T E C D) × (get_or_create_shortstatekey T E C D s
            (event_type, state_key)
          ≡ (ok n, t))
        × ((count' : ℕ) × (count' ≤ count + 1)
            × IsSound E (state_db_key T) (read_state_key T) C D count' t)
        × ((get_shortstatekey T E C D t (event_type, state_key)).0 ≡ ok (some n))
        × ((get_statekey_from_short T E C D t n).0 ≡ ok (event_type, state_key))
        × ((other : T.StateEventType × Bytes) (m : ℕ)
            → HasShort E s.trees.forward (state_db_key T other) m
            → HasShort E t.trees.forward (state_db_key T other) m)
  unfolding get_or_create_shortstatekey get_shortstatekey get_statekey_from_short
  get_statekey-get_or_create E C D count s sound event_type state_key room utf8 =
      let (n, t, is) =
        get_or_create_short-IsNew E (state_db_key T) (read_state_key T) C D count s sound
          (event_type, state_key) room (read_state_key-state_db_key event_type state_key utf8) in
      (
        n,
        t,
        is.result,
        (is.count', is.counts, is.numbered.sound),
        is.numbered.gives_short,
        is.numbered.gives_key,
        λ other m had. is.keeps (state_db_key T other) (to_be_bytes m) had,
      )
