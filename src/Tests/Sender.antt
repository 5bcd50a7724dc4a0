-- ===== src/Tests/Sender.antt =====
-- Sending to two servers over trees as lists.
use grapevine.Prelude.{◌≡◌, ◌≢◌, refl, [], ◌∷◌, ◌++◌, ok, Bool, true, false, ◌&&◌, not, ◌||◌, arith}
use grapevine.Utils.{Bytes, starts_with}
use grapevine.Utils.Utf8.{is_utf8}
use grapevine.Database.Tree.{find}
use grapevine.Database.ListTree.{list_tree}
use grapevine.Sending.{
  Destination, push, normal, pdu, get_prefix, event_of, Ruma, parse_servercurrentevent,
}
use grapevine.Sending.Keys.{IsDestination, parse-get_prefix, get_prefix_apart}
use grapevine.Sending.Queue.{Queues}
use grapevine.Sending.Handler.{Destination-Eq, failed, Sender, handle_response}
use grapevine.Sending.System.{start, started}
use grapevine.Sending.Exclusion.{IsExclusive}
use grapevine.Sending.Start.{Reach-IsExclusive}
use grapevine.Sending.Delivery.{pending, is_some, pending-handle_response, handle_response_others}

plain_name : Bytes → Bool
plain_name s = not (starts_with (b'+' ∷ []) s) && not (starts_with (b'$' ∷ []) s)

plain_name_start :
    (s : Bytes)
    → plain_name s ≡ true
    → (starts_with (b'+' ∷ []) s ≡ false) × (starts_with (b'$' ∷ []) s ≡ false)
unfolding plain_name
plain_name_start s h = ground arith

abbrev ruma : Ruma
ruma = record {
  is_user_id = λ s. true;
  is_server_name = plain_name;
  server_name_start = plain_name_start;
}

-- "a.b" and "c.d", and a pusher of the user "u"
abbrev ab : Destination
ab = normal (b'a' ∷ b'.' ∷ b'b' ∷ [])

abbrev cd : Destination
cd = normal (b'c' ∷ b'.' ∷ b'd' ∷ [])

abbrev pusher : Destination
pusher = push (b'u' ∷ []) (b'k' ∷ [])

ab-IsDestination : IsDestination ruma ab
unfolding is_utf8 plain_name starts_with
ab-IsDestination = (refl, refl)

cd-IsDestination : IsDestination ruma cd
unfolding is_utf8 plain_name starts_with
cd-IsDestination = (refl, refl)

pusher-IsDestination : IsDestination ruma pusher
unfolding is_utf8
pusher-IsDestination = (refl, refl, refl)

ab-ne-cd : ab ≢ cd
ab-ne-cd e = ground arith

-- One PDU is active and one queued for "a.b", and one is active for "c.d".
abbrev queues : Queues list_tree
queues = record {
  servernameevent_data = (get_prefix ab ++ 2 ∷ [], []) ∷ [];
  servercurrentevent_data = (get_prefix ab ++ 1 ∷ [], []) ∷ (get_prefix cd ++ 1 ∷ [], []) ∷ [];
  servername_educount = [];
  global = [];
}

abbrev sender : Sender list_tree ruma
sender = record { queues = queues; status = (ab, failed 2 0) ∷ [] }

parse-get_prefix_example :
    parse_servercurrentevent ruma (get_prefix pusher ++ 1 ∷ 2 ∷ []) []
    ≡ ok (pusher, pdu (1 ∷ 2 ∷ []))
unfolding event_of
parse-get_prefix_example = parse-get_prefix ruma pusher (1 ∷ 2 ∷ []) [] pusher-IsDestination

get_prefix_apart_example : starts_with (get_prefix ab) (get_prefix cd ++ 1 ∷ []) ≡ false
get_prefix_apart_example =
    get_prefix_apart ruma ab cd (1 ∷ []) ab-IsDestination cd-IsDestination ab-ne-cd

Reach-IsExclusive_example : IsExclusive list_tree ruma (start list_tree ruma queues)
Reach-IsExclusive_example =
    Reach-IsExclusive list_tree ruma queues (start list_tree ruma queues) started

pending-handle_response_example :
    pending list_tree
      (handle_response list_tree ruma 0 sender ab true).1.queues
      (get_prefix ab ++ 2 ∷ [])
    ≡ (is_some (find (get_prefix ab ++ 2 ∷ []) queues.servernameevent_data)
        || (not (starts_with (get_prefix ab) (get_prefix ab ++ 2 ∷ []))
            && is_some (find (get_prefix ab ++ 2 ∷ []) queues.servercurrentevent_data)))
pending-handle_response_example =
    pending-handle_response list_tree ruma sender ab 0 (get_prefix ab ++ 2 ∷ [])

handle_response_others_example :
    let after = (handle_response list_tree ruma 0 sender ab true).1.queues in
    (find (get_prefix cd ++ 1 ∷ []) after.servernameevent_data
      ≡ find (get_prefix cd ++ 1 ∷ []) queues.servernameevent_data)
    × (find (get_prefix cd ++ 1 ∷ []) after.servercurrentevent_data
        ≡ find (get_prefix cd ++ 1 ∷ []) queues.servercurrentevent_data)
handle_response_others_example =
    handle_response_others list_tree ruma sender ab 0 cd (1 ∷ []) ab-IsDestination cd-IsDestination
      ab-ne-cd
