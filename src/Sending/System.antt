-- ===== src/Sending/System.antt =====
-- The loop of `handler` in src/service/sending.rs as a step relation. The futures under way are the
-- list of their destinations; the loop takes a request from the channel, or the response of a
-- future that ends, in any order.
use grapevine.Prelude.{
  ℕ, Bool, List, [], ◌∷◌, ◌++◌, map, Option, none, some, Result, ltb, length, ◌≡◌, if◌then◌else◌,
  List-Eq, ℕ-Eq,
}
use grapevine.Utils.{Bytes}
use grapevine.HashMap.{HashMap, get, insert}
use grapevine.Database.Tree.{KvTree}
use grapevine.Sending.{Destination, SendingEvent, Ruma}
use grapevine.Sending.Queue.{Queues, delete_active_request, parsed}
use grapevine.Sending.Handler.{
  Destination-Eq, TransactionStatus, running, HandlerInputs, Sender, handle_response,
  handle_receiver,
}

-- or_default()
unfoldable pub or_empty : Option (List SendingEvent) → List SendingEvent
or_empty none = []
or_empty (some events) = events

module _ (E : KvTree) (R : Ruma) where
  pub record System : Type 0 where
    pub sender : Sender E R
    pub in_flight : List Destination

  -- The loop that groups the active requests of the last run; what does not fit is dropped.
  unfoldable pub initial_transactions :
      List (Bytes × Destination × SendingEvent)
      → HashMap Destination (List SendingEvent)
      → Queues E
      → HashMap Destination (List SendingEvent) × Queues E
  unfolding or_empty
  initial_transactions [] m q = (m, q)
  initial_transactions ((key, d, event) ∷ requests) m q =
      let entry = or_empty (get d m) in
      initial_transactions requests
        (if ltb 30 (length entry) then insert d entry m else insert d (entry ++ event ∷ []) m)
        (if ltb 30 (length entry) then delete_active_request E q key else q)

  -- The loop that starts a transaction for each group.
  unfoldable pub start_all :
      HashMap Destination (List SendingEvent)
      → HashMap Destination TransactionStatus
      → HashMap Destination TransactionStatus × List HandlerInputs
  start_all [] status = (status, [])
  start_all ((d, events) ∷ m) status =
      let (status', inputs) = start_all m (insert d running status) in
      (status', record { destination = d; events = events } ∷ inputs)

  -- `handler` up to its loop. `iter` is a scan with the empty prefix.
  unfoldable pub start : Queues E → System
  unfolding initial_transactions start_all
  start q =
      let (m, q') =
        initial_transactions (parsed E R (E.scan_prefix q.servercurrentevent_data [])) [] q in
      let (status, inputs) = start_all m [] in
      record {
        sender = record { queues = q'; status = status };
        in_flight = map (λ (i : HandlerInputs). i.destination) inputs;
      }

  -- futures.push(handle_events(inputs))
  unfoldable pub launch : Option HandlerInputs → List Destination → List Destination
  launch none in_flight = in_flight
  launch (some inputs) in_flight = inputs.destination ∷ in_flight

  unfoldable pub received :
      ℕ → Result (List Bytes × ℕ) → System → Destination → SendingEvent → Bytes → System
  unfolding launch
  received now edus s d event key =
      let (inputs, sender) = handle_receiver E R now edus s.sender d event key in
      record { sender = sender; in_flight = launch inputs s.in_flight }

  -- `rest` is what is in flight beside the future that ended.
  unfoldable pub responded : ℕ → System → Destination → Bool → List Destination → System
  unfolding launch
  responded now s d done rest =
      let (inputs, sender) = handle_response E R now s.sender d done in
      record { sender = sender; in_flight = launch inputs rest }

  -- One round of the `select!` loop.
  pub data Step : System → System → Type 0 where
    receive :
        (s : System) (now : ℕ) (edus : Result (List Bytes × ℕ)) (d : Destination)
        (event : SendingEvent) (key : Bytes)
        → Step s (received now edus s d event key)
    respond :
        (s : System) (now : ℕ) (d : Destination) (done : Bool) (before after : List Destination)
        → s.in_flight ≡ before ++ d ∷ after
        → Step s (responded now s d done (before ++ after))

  -- The states that a run from the queues can come to.
  pub data Reach (q : Queues E) : System → Type 0 where
    started : Reach q (start q)
    next : {s t : System} → Reach q s → Step s t → Reach q t
