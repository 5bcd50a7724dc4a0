-- ===== src/AuthChain/Inner.antt =====
-- get_auth_chain_inner of src/service/rooms/auth_chain.rs: a search through the authorisation events,
-- over the stored timeline and the short ids.
pub mod Marked
pub mod Turns
pub mod Closure
use grapevine.Prelude.{
  ℕ, zero, suc, Bool, true, false, List, [], ◌∷◌, Option, none, some, Result, ok, err, out_of_fuel,
  bad_request, forbidden, if◌then◌else◌, ◌==◌, List-Eq, ℕ-Eq,
}
use grapevine.Utils.{Bytes}
use grapevine.HashSet.{contains, insert}
use grapevine.LruCache.{LruCache}
use grapevine.Database.Tree.{KvTree}
use grapevine.Timeline.Store.{Events, Timeline, get_pdu}
use grapevine.Short.{Types, EventShorts, get_or_create_shorteventid}

module _ (T : Types) (E : KvTree) (V : Events) (C : LruCache Bytes V.Pdu) (N : LruCache Bytes ℕ)
    (I : LruCache ℕ Bytes) where
  -- The services that the search calls.
  pub record Search : Type 0 where
    pub timeline : Timeline E V C
    pub shorts : EventShorts T E N I

  -- for auth_event in &pdu.auth_events: what is found, and what is to be done with the last first
  unfoldable pub add_auth_events :
      EventShorts T E N I
      → List Bytes
      → List Bytes × List ℕ
      → Result (List Bytes × List ℕ) × EventShorts T E N I
  unfolding contains insert
  add_auth_events shorts [] (todo, found) = (ok (todo, found), shorts)
  add_auth_events shorts (auth_event ∷ more) (todo, found) =
      let (answer, shorts') = get_or_create_shorteventid T E N I shorts auth_event in
      elim answer [
        | err e ↦ (err e, shorts')
        | ok sauthevent ↦ add_auth_events shorts' more (
            if contains sauthevent found
            then (todo, found)
            else (auth_event ∷ todo, insert sauthevent found))
      ]

  -- The loop, on fuel. An event that is missing or cannot be read is passed over.
  unfoldable pub get_auth_chain_loop :
      ℕ → Bytes → Search → List Bytes → List ℕ → Result (List ℕ) × Search
  unfolding add_auth_events
  get_auth_chain_loop zero room_id s todo found = (err out_of_fuel, s)
  get_auth_chain_loop (suc fuel) room_id s [] found = (ok found, s)
  get_auth_chain_loop (suc fuel) room_id s (event_id ∷ todo) found =
      let (answer, timeline) = get_pdu E V C s.timeline event_id in
      let s' : Search = record s { timeline = timeline } in
      elim answer [
        | err e ↦ get_auth_chain_loop fuel room_id s' todo found
        | ok none ↦ get_auth_chain_loop fuel room_id s' todo found
        | ok (some pdu) ↦ elim (V.room_id pdu == room_id) [
          | false ↦ (err (bad_request forbidden), s')
          | true ↦
              let (added, shorts) = add_auth_events s'.shorts (V.auth_events pdu) (todo, found) in
              let s'' : Search = record s' { shorts = shorts } in
              elim added [
                | err e ↦ (err e, s'')
                | ok (todo', found') ↦ get_auth_chain_loop fuel room_id s'' todo' found'
              ]
        ]
      ]

  unfoldable pub get_auth_chain_inner : ℕ → Bytes → Search → Bytes → Result (List ℕ) × Search
  unfolding get_auth_chain_loop
  get_auth_chain_inner fuel room_id s event_id =
      get_auth_chain_loop fuel room_id s (event_id ∷ []) []
