-- ===== src/Sending/Backoff.antt =====
-- After a failure a destination is left alone for a time that grows with the failures.
use Prim.Native.Nat.{min}
use grapevine.Prelude.{
  ℕ, ◌+◌, ◌*◌, ◌-◌, ◌≤◌, ◌<◌, false, List, map, none, some, Result, ◌≡◌, refl, arith, ==_refl,
  ==_iff,
}
use grapevine.Utils.{Bytes}
use grapevine.HashMap.{get, get-insert}
use grapevine.Database.Tree.{KvTree}
use grapevine.Sending.{Destination, SendingEvent, Ruma}
use grapevine.Sending.Queue.{active_requests_for}
use grapevine.Sending.Handler.{
  Destination-Eq, failed, retrying, nothing, retries, Sender, from_secs, min_elapsed_duration,
  handle_response, select_events,
}

-- The wait is 30 seconds times the square of the failures, and never more than a day.
pub min_elapsed_duration_lem :
    (tries : ℕ)
    → min_elapsed_duration tries ≡ min (from_secs 30 * tries * tries) (from_secs (60 * 60 * 24))
unfolding min_elapsed_duration
min_elapsed_duration_lem tries = ground arith

module _ (E : KvTree) (R : Ruma) (s : Sender E R) (d : Destination) where
  -- A failed transaction is remembered with one more failure and the time of it, and nothing else
  -- changes: the active requests stay for the retry.
  pub handle_response_failed :
      (now tries : ℕ)
      → get d s.status ≡ some (retrying tries)
      → ((handle_response E R now s d false).0 ≡ none)
        × ((handle_response E R now s d false).1.queues ≡ s.queues)
        × (get d (handle_response E R now s d false).1.status ≡ some (failed (tries + 1) now))
  unfolding handle_response
  handle_response_failed now tries h = (
    refl,
    ground (arith, h),
    ground (arith, h, get-insert s.status d (failed (tries + 1) now) d, ==_refl d),
  )

  -- For a destination whose transaction failed some number of times, the last time less than
  -- min_elapsed_duration ago, select_events selects nothing, leaves the queues as they are and
  -- changes no status that can be read.
  pub select_events_waiting :
      (now time tries : ℕ) (edus : Result (List Bytes × ℕ))
      (new_events : List (SendingEvent × Bytes))
      → get d s.status ≡ some (failed tries time)
      → now - time < min_elapsed_duration tries
      → ((select_events E R now edus s d new_events).0 ≡ nothing)
        × ((select_events E R now edus s d new_events).1.queues ≡ s.queues)
        × ((e : Destination)
            → get e (select_events E R now edus s d new_events).1.status ≡ get e s.status)
  unfolding select_events
  select_events_waiting now time tries edus new_events h early = (
    ground (arith, h, early),
    ground (arith, h, early),
    λ e. ground (arith, h, early, get-insert s.status d (failed tries time) e, ==_iff d e),
  )

  -- Once min_elapsed_duration has passed since the last failure, select_events selects the active
  -- requests of the destination for a retry, leaves the queues as they are and marks the
  -- transaction as retrying with the same count of failures.
  pub select_events_retry :
      (now time tries : ℕ) (edus : Result (List Bytes × ℕ))
      (new_events : List (SendingEvent × Bytes))
      → get d s.status ≡ some (failed tries time)
      → min_elapsed_duration tries ≤ now - time
      → ((select_events E R now edus s d new_events).0
          ≡ retries (map (λ x. x.2) (active_requests_for E R s.queues d)))
        × ((select_events E R now edus s d new_events).1.queues ≡ s.queues)
        × (get d (select_events E R now edus s d new_events).1.status ≡ some (retrying tries))
  unfolding select_events
  select_events_retry now time tries edus new_events h late = (
    ground (arith, h, late),
    ground (arith, h, late),
    ground (arith, h, late, get-insert s.status d (retrying tries) d, ==_refl d),
  )
