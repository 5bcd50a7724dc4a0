-- ===== src/Sending/Handler.antt =====
-- The handler of src/service/sending.rs: one transaction at a time for each destination, and the
-- back-off after a failure. Times are in nanoseconds, and `now` is the clock's reading. What
-- `select_edus` finds is an argument.
use grapevine.Prelude.{
  ℕ, ◌+◌, ◌*◌, ◌-◌, ◌^◌, Bool, true, false, ◌&&◌, List, [], ◌∷◌, ◌++◌, map, Option, none, some,
  Result, ok, ltb, if◌then◌else◌, take, Eq, ◌==◌, ==_iff, ◌≡◌, ◌↔◌, arith, List-Eq, ℕ-Eq,
}
use grapevine.Utils.{Bytes}
use grapevine.HashMap.{HashMap, get, insert, remove}
use grapevine.Database.Tree.{KvTree}
use grapevine.Sending.{Destination, appservice, push, normal, SendingEvent, edu, Ruma}
use grapevine.Sending.Queue.{
  Queues, mark_as_active, delete_all_active_requests_for, set_latest_educount, queued_requests,
  active_requests_for,
}

-- #[derive(PartialEq)] of `Destination`
unfoldable pub destination_eq : Destination → Destination → Bool
destination_eq (appservice a) (appservice b) = a == b
destination_eq (push u p) (push v q) = (u == v) && (p == q)
destination_eq (normal a) (normal b) = a == b
destination_eq _ _ = false

pub destination_eq_iff : (d e : Destination) → (destination_eq d e ≡ true) ↔ (d ≡ e)
unfolding destination_eq
destination_eq_iff (appservice a) (appservice b) =
    (λ h. ground (arith, ==_iff a b), λ h. ground (arith, ==_iff a b))
destination_eq_iff (push u p) (push v q) =
    (λ h. ground (arith, ==_iff u v, ==_iff p q), λ h. ground (arith, ==_iff u v, ==_iff p q))
destination_eq_iff (normal a) (normal b) =
    (λ h. ground (arith, ==_iff a b), λ h. ground (arith, ==_iff a b))
destination_eq_iff (appservice a) (push v q) = (λ h. cc, λ h. cc)
destination_eq_iff (appservice a) (normal b) = (λ h. cc, λ h. cc)
destination_eq_iff (push u p) (appservice b) = (λ h. cc, λ h. cc)
destination_eq_iff (push u p) (normal b) = (λ h. cc, λ h. cc)
destination_eq_iff (normal a) (appservice b) = (λ h. cc, λ h. cc)
destination_eq_iff (normal a) (push v q) = (λ h. cc, λ h. cc)

instance abbrev pub Destination-Eq : Eq Destination
Destination-Eq = record { same = destination_eq; same_iff = destination_eq_iff }

pub data TransactionStatus : Type 0 where
  running : TransactionStatus
  failed : ℕ → ℕ → TransactionStatus
  retrying : ℕ → TransactionStatus

pub record HandlerInputs : Type 0 where
  pub destination : Destination
  pub events : List SendingEvent

pub data SelectedEvents : Type 0 where
  nothing : SelectedEvents
  retries : List SendingEvent → SelectedEvents
  new : List SendingEvent → SelectedEvents

-- Duration::from_secs(n)
abbrev pub from_secs : ℕ → ℕ
from_secs n = n * 10 ^ 9

-- The time that must have passed since the last failure: 30 seconds times the square of the
-- failures, and a day at most.
unfoldable pub min_elapsed_duration : ℕ → ℕ
min_elapsed_duration tries =
    if ltb (from_secs (60 * 60 * 24)) (from_secs 30 * tries * tries)
    then from_secs (60 * 60 * 24)
    else from_secs 30 * tries * tries

-- The match in `handle_response` on the status of a transaction that failed.
unfoldable pub after_failure : ℕ → TransactionStatus → TransactionStatus
after_failure now running = failed 1 now
after_failure now (retrying n) = failed (n + 1) now
after_failure now (failed n time) = failed n time

-- The match in `select_events`: whether to go on, whether it is a retry, and the new status.
unfoldable pub admit : ℕ → Option TransactionStatus → Bool × Bool × TransactionStatus
unfolding min_elapsed_duration
admit now none = (true, false, running)
admit now (some running) = (false, false, running)
admit now (some (retrying n)) = (false, false, retrying n)
admit now (some (failed tries time)) =
    if ltb (now - time) (min_elapsed_duration tries)
    then (false, false, failed tries time)
    else (true, true, retrying tries)

module _ (E : KvTree) (R : Ruma) where
  pub record Sender : Type 0 where
    pub queues : Queues E
    pub status : HashMap Destination TransactionStatus

  unfoldable pub modify_status :
      (TransactionStatus → TransactionStatus) → Destination → Sender → Sender
  modify_status f d s = elim (get d s.status) [
    | none ↦ s
    | some old ↦ record s { status = insert d (f old) s.status }
  ]

  -- `handle_response`; `done` is whether the result was `Ok`.
  unfoldable pub handle_response : ℕ → Sender → Destination → Bool → Option HandlerInputs × Sender
  unfolding modify_status after_failure
  handle_response now s d false = (none, modify_status (after_failure now) d s)
  handle_response now s d true =
      let queues = delete_all_active_requests_for E s.queues d in
      let new_events = take 30 (queued_requests E R queues d) in
      elim new_events [
        | [] ↦ (none, record { queues = queues; status = remove d s.status })
        | e ∷ es ↦ (
          some (record { destination = d; events = map (λ x. x.2) (e ∷ es) }),
          record {
            queues = mark_as_active E (map (λ x. (x.2, x.0)) (e ∷ es)) queues;
            status = s.status;
          },
        )
      ]

  -- The EDUs that go along with a new transaction to a server.
  unfoldable pub add_edus :
      Destination
      → Result (List Bytes × ℕ)
      → List SendingEvent
      → Queues E
      → List SendingEvent × Queues E
  add_edus (normal server_name) (ok (edus, last_count)) events q =
      (events ++ map edu edus, set_latest_educount E q server_name last_count)
  add_edus _ _ events q = (events, q)

  -- `select_events`, on the events that were just queued, with their keys.
  unfoldable pub select_events :
      ℕ
      → Result (List Bytes × ℕ)
      → Sender
      → Destination
      → List (SendingEvent × Bytes)
      → SelectedEvents × Sender
  unfolding admit add_edus
  select_events now edus s d new_events =
      let (allow, retry, status) = admit now (get d s.status) in
      let s' : Sender = record s { status = insert d status s.status } in
      elim allow [
        | false ↦ (nothing, s')
        | true ↦ elim retry [
          | true ↦ (retries (map (λ x. x.2) (active_requests_for E R s'.queues d)), s')
          | false ↦
              let (events, queues) =
                add_edus d edus (map (λ x. x.0) new_events)
                  (mark_as_active E new_events s'.queues) in
              (new events, record s' { queues = queues })
        ]
      ]

  abbrev inputs_of : Destination → SelectedEvents → Option HandlerInputs
  inputs_of d nothing = none
  inputs_of d (retries events) = some (record { destination = d; events = events })
  inputs_of d (new events) = some (record { destination = d; events = events })

  unfoldable pub handle_receiver :
      ℕ
      → Result (List Bytes × ℕ)
      → Sender
      → Destination
      → SendingEvent
      → Bytes
      → Option HandlerInputs × Sender
  unfolding select_events
  handle_receiver now edus s d event key =
      let (selected, s') = select_events now edus s d ((event, key) ∷ []) in
      (inputs_of d selected, s')
