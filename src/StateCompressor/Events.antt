-- ===== src/StateCompressor/Events.antt =====
-- compress_state_event and parse_compressed_state_event of src/service/rooms/state_compressor.rs:
-- the 16 bytes of an event in a state, over the numbers that Short hands out.
use grapevine.Prelude.{
  ℕ, ◌+◌, ◌<◌, ◌≤◌, true, take, drop, some, ◌≡◌, arith, length, length-append, none, Result, ok,
  err, panic, take-append_length, drop-append_length, ◌++◌,
}
use grapevine.Utils.{Bytes, u64_mod, to_be_bytes, u64_from_bytes}
use grapevine.Utils.Laws.{length-to_be_bytes, u64_from_bytes-to_be_bytes}
use grapevine.Utils.Utf8.{is_utf8}
use grapevine.LruCache.{LruCache}
use grapevine.Database.Tree.{KvTree}
use grapevine.Short.{
  Types, event_db_key, read_event_id, EventShorts, get_or_create_shorteventid,
  get_eventid_from_short,
}
use grapevine.Short.Cached.{IsSound, get_or_create_short-IsNew}
use grapevine.Short.Ids.{read_event_id-event_db_key}

module _ (T : Types) (E : KvTree) (C : LruCache Bytes ℕ) (D : LruCache ℕ Bytes) where
  unfoldable pub compress_state_event :
      EventShorts T E C D → ℕ → Bytes → Result Bytes × EventShorts T E C D
  unfolding get_or_create_shorteventid
  compress_state_event s shortstatekey event_id =
      let (short, t) = get_or_create_shorteventid T E C D s event_id in
      elim short [
        | err e ↦ (err e, t)
        | ok n ↦ (ok (to_be_bytes shortstatekey ++ to_be_bytes n), t)
      ]

  -- A failed `expect` on the length of a slice is `panic`.
  unfoldable pub parse_compressed_state_event :
      EventShorts T E C D → Bytes → Result (ℕ × Bytes) × EventShorts T E C D
  unfolding get_eventid_from_short
  parse_compressed_state_event s event = elim (u64_from_bytes (take 8 event)) [
    | none ↦ (err panic, s)
    | some shortstatekey ↦ elim (u64_from_bytes (drop 8 event)) [
      | none ↦ (err panic, s)
      | some n ↦
          let (event_id, t) = get_eventid_from_short T E C D s n in
          elim event_id [ err e ↦ (err e, t) | ok id ↦ (ok (shortstatekey, id), t) ]
    ]
  ]

  parse-halves :
      (s : EventShorts T E C D) (k n : ℕ) (id : Bytes)
      → k < u64_mod
      → n < u64_mod
      → (get_eventid_from_short T E C D s n).0 ≡ ok id
      → (parse_compressed_state_event s (to_be_bytes k ++ to_be_bytes n)).0 ≡ ok (k, id)
  unfolding parse_compressed_state_event
  parse-halves s k n id k_below n_below gives = ground (
    arith,
    take-append_length (to_be_bytes k) (to_be_bytes n),
    drop-append_length (to_be_bytes k) (to_be_bytes n),
    length-to_be_bytes k,
    u64_from_bytes-to_be_bytes k k_below,
    u64_from_bytes-to_be_bytes n n_below,
    gives,
  )

  -- On a sound state with a counter that can count on, compress_state_event of a u64 and an event id
  -- in UTF-8 that ruma accepts gives 16 bytes; the state stays sound, and
  -- parse_compressed_state_event gives the u64 and the event id back from the bytes.
  pub parse-compress_state_event :
      (count : ℕ) (s : EventShorts T E C D) (k : ℕ) (id : Bytes)
      → IsSound E event_db_key (read_event_id T) C D count s
      → count + 1 < u64_mod
      → k < u64_mod
      → is_utf8 id ≡ true
      → T.is_event_id id ≡ true
      → (event : Bytes) × (t : EventShorts T E C D) × (compress_state_event s k id ≡ (ok event, t))
        × (length event ≡ 16)
        × ((count' : ℕ) × (count' ≤ count + 1)
            × IsSound E event_db_key (read_event_id T) C D count' t)
        × ((parse_compressed_state_event t event).0 ≡ ok (k, id))
  unfolding compress_state_event get_or_create_shorteventid get_eventid_from_short
  parse-compress_state_event count s k id sound room k_below utf8 valid =
      let (n, t, is) =
        get_or_create_short-IsNew E event_db_key (read_event_id T) C D count s sound id room
          (read_event_id-event_db_key T id utf8 valid) in
      (
        to_be_bytes k ++ to_be_bytes n,
        t,
        ground (arith, is.result),
        ground (
          arith,
          length-append (to_be_bytes k) (to_be_bytes n),
          length-to_be_bytes k,
          length-to_be_bytes n,
        ),
        (is.count', is.counts, is.numbered.sound),
        parse-halves t k n id k_below is.below is.numbered.gives_key,
      )
