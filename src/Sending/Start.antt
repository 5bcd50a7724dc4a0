-- ===== src/Sending/Start.antt =====
-- The start of the handler after a restart: one transaction for each destination that has active
-- requests; so at most one is under way from then on.
use grapevine.Prelude.{
  ◌≤◌, false, List, [], ◌∷◌, map, ltb, ◌≡◌, refl, arith, ap, if◌then◌else◌, if_both, ◌==◌, ==_iff,
  ◌||◌, filter,
}
use grapevine.Utils.{Bytes}
use grapevine.HashMap.{HashMap, get, insert, remove, get-insert}
use grapevine.Database.Tree.{KvTree}
use grapevine.Sending.{Destination, SendingEvent, Ruma}
use grapevine.Sending.Queue.{Queues, parsed}
use grapevine.Sending.Handler.{Destination-Eq, TransactionStatus, running, HandlerInputs}
use grapevine.Sending.System.{System, initial_transactions, start_all, start, Reach, started, next}
use grapevine.Sending.Exclusion.{count, is_under_way, IsExclusive, Step-IsExclusive}

abbrev keys : {V : Type 0} → HashMap Destination V → List Destination
keys m = map (λ x. x.0) m

abbrev Groups : Type 0
Groups = HashMap Destination (List SendingEvent)

count-remove :
    (d k : Destination) (m : Groups)
    → count d (keys (remove k m)) ≡ (if k == d then 0 else count d (keys m))
unfolding count remove filter
count-remove d k [] = ground arith
count-remove d k ((j, v) ∷ m) =
    ground (arith, count-remove d k m, ==_iff k j, ==_iff d j, ==_iff k d)

count-insert :
    (d k : Destination) (v : List SendingEvent) (m : Groups)
    → count d (keys (insert k v m)) ≡ (if k == d then 1 else count d (keys m))
unfolding count insert
count-insert d k v m = ground (arith, count-remove d k m, ==_iff k d, ==_iff d k)

-- Each destination has one group at most.
abbrev Distinct : Groups → Type 0
Distinct m = (d : Destination) → count d (keys m) ≤ 1

Distinct-insert :
    (k : Destination) (v : List SendingEvent) (m : Groups) → Distinct m → Distinct (insert k v m)
Distinct-insert k v m h d = ground (arith, count-insert d k v m, h d)

nothing_under_way : (d : Destination) → is_under_way (get {V = TransactionStatus} d []) ≡ false
unfolding get is_under_way
nothing_under_way d = refl

module _ (E : KvTree) (R : Ruma) where
  Distinct-initial_transactions :
      (requests : List (Bytes × Destination × SendingEvent)) (m : Groups) (q : Queues E)
      → Distinct m
      → Distinct (initial_transactions E R requests m q).0
  unfolding initial_transactions
  Distinct-initial_transactions [] m q h = h
  Distinct-initial_transactions ((key, d, event) ∷ requests) m q h =
      Distinct-initial_transactions requests _ _
        (if_both Distinct _ _ _ (Distinct-insert d _ m h) (Distinct-insert d _ m h))

  start_all-flight :
      (m : Groups) (status : HashMap Destination TransactionStatus)
      → map (λ (i : HandlerInputs). i.destination) (start_all E R m status).1 ≡ keys m
  unfolding start_all
  start_all-flight [] status = refl
  start_all-flight ((d, events) ∷ m) status =
      ap (◌∷◌ d) (start_all-flight m (insert d running status))

  start_all-under_way :
      (m : Groups) (status : HashMap Destination TransactionStatus) (d : Destination)
      → is_under_way (get d (start_all E R m status).0)
        ≡ (ltb 0 (count d (keys m)) || is_under_way (get d status))
  unfolding start_all count is_under_way
  start_all-under_way [] status d = refl
  start_all-under_way ((k, events) ∷ m) status d = ground (
    arith,
    start_all-under_way m (insert k running status) d,
    get-insert status k running d,
    ==_iff k d,
    ==_iff d k,
  )

  start-IsExclusive : (q : Queues E) → IsExclusive E R (start E R q)
  unfolding start
  start-IsExclusive q =
      let requests = parsed E R (E.scan_prefix q.servercurrentevent_data []) in
      let m = (initial_transactions E R requests [] q).0 in
      record {
        one = λ d. rw (start_all-flight m []) (
            ground (
              arith,
              start_all-under_way m [] d,
              Distinct-initial_transactions requests [] q (λ e. unfold count in omega arith) d,
              nothing_under_way d,
            ));
      }

  -- In every state that the sending handler can come to from any queues, whatever the order of
  -- requests and responses, the number of futures under way to a destination is one if its status
  -- is running or retrying, and zero otherwise.
  pub Reach-IsExclusive : (q : Queues E) (s : System E R) → Reach E R q s → IsExclusive E R s
  Reach-IsExclusive q s started = start-IsExclusive q
  Reach-IsExclusive q s (next r step) = Step-IsExclusive E R step (Reach-IsExclusive q _ r)
