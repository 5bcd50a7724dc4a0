-- ===== src/Sending/Queue.antt =====
-- src/database/key_value/sending.rs: the queued events, in `servernameevent_data`, and those of the
-- transactions under way, in `servercurrentevent_data`.
use grapevine.Prelude.{ℕ, List, [], ◌∷◌, ◌++◌, none, some, Result, ok, err, ◌>>=◌, bad_database}
use grapevine.Utils.{Bytes, to_be_bytes, u64_from_bytes}
use grapevine.Database.Tree.{KvTree, remove_entries, insert_batch}
use grapevine.Globals.{next_count}
use grapevine.Sending.{
  Destination, SendingEvent, pdu, edu, get_prefix, Ruma, parse_servercurrentevent,
}

-- if let SendingEventType::Edu(value) = &event { value } else { &[] }
unfoldable pub value_of : SendingEvent → Bytes
value_of (pdu id) = []
value_of (edu value) = value

module _ (E : KvTree) where
  pub record Queues : Type 0 where
    pub servernameevent_data : E.Tree
    pub servercurrentevent_data : E.Tree
    pub servername_educount : E.Tree
    pub global : E.Tree

  -- The key of a request, and the counter, which an EDU takes a number of.
  unfoldable pub request_key : E.Tree → Destination → SendingEvent → Result (Bytes × E.Tree)
  request_key global d (pdu id) = ok (get_prefix d ++ id, global)
  request_key global d (edu value) = do
    (n, global') ← next_count E global
    ok (get_prefix d ++ to_be_bytes n, global')

  -- The loop of `queue_requests`: the keys, the batch and the counter.
  unfoldable pub make_batch :
      E.Tree
      → List (Destination × SendingEvent)
      → Result (List Bytes × List (Bytes × Bytes) × E.Tree)
  make_batch global [] = ok ([], [], global)
  make_batch global ((d, event) ∷ requests) = do
    (key, global') ← request_key global d event
    (keys, batch, global'') ← make_batch global' requests
    ok (key ∷ keys, (key, value_of event) ∷ batch, global'')

  unfoldable pub queue_requests :
      Queues → List (Destination × SendingEvent) → Result (List Bytes × Queues)
  queue_requests q requests = do
    (keys, batch, global) ← make_batch q.global requests
    ok (
      keys,
      record q {
        servernameevent_data = insert_batch E batch q.servernameevent_data;
        global = global;
      },
    )

  -- One round of the loop of `mark_as_active`.
  abbrev pub mark_one : SendingEvent → Bytes → Queues → Queues
  mark_one event key q = record q {
    servercurrentevent_data = E.insert q.servercurrentevent_data key (value_of event);
    servernameevent_data = E.remove q.servernameevent_data key;
  }

  unfoldable pub mark_as_active : List (SendingEvent × Bytes) → Queues → Queues
  mark_as_active [] q = q
  mark_as_active ((event, key) ∷ events) q = mark_as_active events (mark_one event key q)

  unfoldable pub delete_active_request : Queues → Bytes → Queues
  delete_active_request q key = record q {
    servercurrentevent_data = E.remove q.servercurrentevent_data key;
  }

  unfoldable pub delete_all_active_requests_for : Queues → Destination → Queues
  delete_all_active_requests_for q d = record q {
    servercurrentevent_data =
        remove_entries E (E.scan_prefix q.servercurrentevent_data (get_prefix d))
          q.servercurrentevent_data;
  }

  unfoldable pub set_latest_educount : Queues → Bytes → ℕ → Queues
  set_latest_educount q server_name count = record q {
    servername_educount = E.insert q.servername_educount server_name (to_be_bytes count);
  }

  unfoldable pub get_latest_educount : Queues → Bytes → Result ℕ
  get_latest_educount q server_name = elim (E.get q.servername_educount server_name) [
    | none ↦ ok 0
    | some bytes ↦ elim (u64_from_bytes bytes) [ none ↦ err bad_database | some n ↦ ok n ]
  ]

  module _ (R : Ruma) where
    -- .map(parse).filter_map(Result::ok) over the entries of a tree
    unfoldable pub parsed : List (Bytes × Bytes) → List (Bytes × Destination × SendingEvent)
    parsed [] = []
    parsed ((key, value) ∷ entries) =
        let rest = parsed entries in
        elim (parse_servercurrentevent R key value) [
          | ok (d, event) ↦ (key, d, event) ∷ rest
          | err e ↦ rest
        ]

    unfoldable pub queued_requests :
        Queues → Destination → List (Bytes × Destination × SendingEvent)
    unfolding parsed
    queued_requests q d = parsed (E.scan_prefix q.servernameevent_data (get_prefix d))

    unfoldable pub active_requests_for :
        Queues → Destination → List (Bytes × Destination × SendingEvent)
    unfolding parsed
    active_requests_for q d = parsed (E.scan_prefix q.servercurrentevent_data (get_prefix d))
