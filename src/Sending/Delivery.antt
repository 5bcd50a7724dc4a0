-- ===== src/Sending/Delivery.antt =====
-- What a response does to the waiting requests: the delivered ones go, the queued ones stay, and no
-- other destination's are touched.
use grapevine.Prelude.{
  ℕ, zero, suc, Bool, true, false, List, [], ◌∷◌, map, Option, none, some, ◌≡◌, refl, arith, take,
  ==_iff, if◌then◌else◌, ◌||◌, ◌&&◌, not, List-Eq, ℕ-Eq, ◌++◌, ◌≢◌,
}
use grapevine.Utils.{Bytes, starts_with}
use grapevine.HashSet.{contains}
use grapevine.Database.Tree.{KvTree, find, get-remove_prefix}
use grapevine.Sending.{Destination, SendingEvent, Ruma, get_prefix}
use grapevine.Sending.Keys.{IsDestination, get_prefix_apart}
use grapevine.Sending.Queue.{
  Queues, value_of, mark_one, mark_as_active, delete_all_active_requests_for, parsed,
  queued_requests,
}
use grapevine.Sending.Handler.{Sender, handle_response}

abbrev pub is_some {ℓ} : {A : Type ℓ} → Option A → Bool
is_some none = false
is_some (some a) = true

abbrev event_keys : List (SendingEvent × Bytes) → List Bytes
event_keys events = map (λ x. x.1) events

module _ (E : KvTree) where
  -- Whether a request with the key is queued or active.
  abbrev pub pending : Queues E → Bytes → Bool
  pending q j =
      is_some (E.get q.servernameevent_data j) || is_some (E.get q.servercurrentevent_data j)

  -- What is marked as active leaves the queue.
  get-mark_as_active_queue :
      (events : List (SendingEvent × Bytes)) (q : Queues E) (j : Bytes)
      → E.get (mark_as_active E events q).servernameevent_data j
        ≡ (if contains j (event_keys events) then none else E.get q.servernameevent_data j)
  unfolding mark_as_active contains
  get-mark_as_active_queue [] q j = refl
  get-mark_as_active_queue ((event, key) ∷ events) q j = ground (
    arith,
    get-mark_as_active_queue events (mark_one E event key q) j,
    E.get-remove q.servernameevent_data key j,
    ==_iff key j,
    ==_iff j key,
  )

  -- It is active, and nothing else becomes so.
  is_some-mark_as_active :
      (events : List (SendingEvent × Bytes)) (q : Queues E) (j : Bytes)
      → is_some (E.get (mark_as_active E events q).servercurrentevent_data j)
        ≡ (contains j (event_keys events) || is_some (E.get q.servercurrentevent_data j))
  unfolding mark_as_active contains
  is_some-mark_as_active [] q j = refl
  is_some-mark_as_active ((event, key) ∷ events) q j = ground (
    arith,
    is_some-mark_as_active events (mark_one E event key q) j,
    E.get-insert q.servercurrentevent_data key (value_of event) j,
    ==_iff key j,
    ==_iff j key,
  )

  get-mark_as_active_ne :
      (events : List (SendingEvent × Bytes)) (q : Queues E) (j : Bytes)
      → contains j (event_keys events) ≡ false
      → E.get (mark_as_active E events q).servercurrentevent_data j
        ≡ E.get q.servercurrentevent_data j
  unfolding mark_as_active contains
  get-mark_as_active_ne [] q j h = refl
  get-mark_as_active_ne ((event, key) ∷ events) q j h = ground (
    arith,
    get-mark_as_active_ne events (mark_one E event key q) j,
    E.get-insert q.servercurrentevent_data key (value_of event) j,
    ==_iff key j,
    ==_iff j key,
  )

  module _ (R : Ruma) where
    abbrev marked : List (Bytes × Destination × SendingEvent) → List (SendingEvent × Bytes)
    marked = map (λ x. (x.2, x.0))

    -- The keys of what was parsed are keys of entries.
    contains-parsed :
        (entries : List (Bytes × Bytes)) (n : ℕ) (j : Bytes)
        → contains j (event_keys (marked (take n (parsed E R entries)))) ≡ true
        → is_some (find j entries) ≡ true
    unfolding parsed contains find take
    contains-parsed [] n j h = nothing_parsed n h
      where
        nothing_parsed :
            (n : ℕ)
            → contains j (event_keys (marked (take n []))) ≡ true
            → is_some (find j []) ≡ true
        nothing_parsed zero h = h
        nothing_parsed (suc n) h = h
    contains-parsed ((k, v) ∷ entries) zero j h = absurd (ground arith)
    contains-parsed ((k, v) ∷ entries) (suc n) j h =
        ground (arith, contains-parsed entries (suc n) j, contains-parsed entries n j, ==_iff j k)

    module _ (s : Sender E R) (d : Destination) (now : ℕ) where
      abbrev cleared : Queues E
      cleared = delete_all_active_requests_for E s.queues d

      abbrev batch : List (Bytes × Destination × SendingEvent)
      batch = take 30 (queued_requests E R cleared d)

      -- The queues after a successful response.
      queues-handle_response :
          (handle_response E R now s d true).1.queues ≡ mark_as_active E (marked batch) cleared
      unfolding handle_response mark_as_active
      queues-handle_response = ground arith

      -- What is picked up for the next transaction was queued under the destination's prefix.
      batch_queued :
          (j : Bytes)
          → contains j (event_keys (marked batch)) ≡ true
          → (is_some (E.get s.queues.servernameevent_data j) ≡ true)
            × (starts_with (get_prefix d) j ≡ true)
      unfolding queued_requests delete_all_active_requests_for
      batch_queued j h = ground (
        arith,
        contains-parsed (E.scan_prefix s.queues.servernameevent_data (get_prefix d)) 30 j h,
        E.find-scan_prefix s.queues.servernameevent_data (get_prefix d) j,
      )

      -- After a successful response for a destination a key is queued or active exactly if it was
      -- queued before, or was active and does not start with the prefix of the destination.
      pub pending-handle_response :
          (j : Bytes)
          → pending (handle_response E R now s d true).1.queues j ≡ (
              is_some (E.get s.queues.servernameevent_data j)
              || (not (starts_with (get_prefix d) j)
                  && is_some (E.get s.queues.servercurrentevent_data j)))
      unfolding delete_all_active_requests_for
      pending-handle_response j = rw queues-handle_response (
          ground (
            arith,
            get-mark_as_active_queue (marked batch) cleared j,
            is_some-mark_as_active (marked batch) cleared j,
            get-remove_prefix E s.queues.servercurrentevent_data (get_prefix d) j,
            batch_queued j,
          ))

      -- A successful response for one valid destination leaves every key of another valid
      -- destination as it is, in the queue and among the active requests.
      pub handle_response_others :
          (e : Destination) (event : Bytes)
          → IsDestination R d
          → IsDestination R e
          → d ≢ e
          → let after = (handle_response E R now s d true).1.queues in
            (E.get after.servernameevent_data (get_prefix e ++ event)
              ≡ E.get s.queues.servernameevent_data (get_prefix e ++ event))
            × (E.get after.servercurrentevent_data (get_prefix e ++ event)
                ≡ E.get s.queues.servercurrentevent_data (get_prefix e ++ event))
      unfolding delete_all_active_requests_for
      handle_response_others e event hd he ne =
          let j = get_prefix e ++ event in
          rw queues-handle_response (
            ground (
              arith,
              get-mark_as_active_queue (marked batch) cleared j,
              batch_queued j,
              get_prefix_apart R d e event hd he ne,
            ),
            ground (
              arith,
              get-mark_as_active_ne (marked batch) cleared j,
              get-remove_prefix E s.queues.servercurrentevent_data (get_prefix d) j,
              batch_queued j,
              get_prefix_apart R d e event hd he ne,
            ),
          )
