-- ===== src/LazyLoading.antt =====
-- src/service/rooms/lazy_loading.rs over src/database/key_value/rooms/lazy_load.rs: which members of
-- a room a device has been sent. What a sync response sends waits in memory under the position of
-- the response, until the device asks for more from there.
pub mod Delivery
use grapevine.Prelude.{
  ℕ, Bool, true, false, ◌&&◌, List, [], ◌∷◌, ◌++◌, Option, none, some, nat_eq, Eq, ℕ-Eq, List-Eq,
  Pair-Eq, ◌==◌, ==_iff, ◌≡◌, ◌↔◌, refl, arith,
}
use grapevine.Utils.{Bytes}
use grapevine.HashMap.{HashMap, get, insert, remove}
use grapevine.Database.Tree.{KvTree, remove_entries}
use grapevine.Timeline.{PduCount, PduCount-Eq}
use grapevine.Database.Parts.{part}

-- What `lazy_load_waiting` is keyed by: user, device, room and position.
abbrev pub Waiting : Type 0
Waiting = Bytes × (Bytes × (Bytes × PduCount))

instance abbrev pub Waiting-Eq : Eq Waiting
Waiting-Eq =
    Pair-Eq ⦃e = List-Eq⦄ ⦃f = Pair-Eq ⦃e = List-Eq⦄ ⦃f = Pair-Eq ⦃e = List-Eq⦄ ⦃f = PduCount-Eq⦄⦄⦄

-- All keys of the members that a device was sent of a room, and one of them.
abbrev pub sent_prefix : Bytes → Bytes → Bytes → Bytes
sent_prefix user device room = part user (part device (part room []))

abbrev pub sent_key : Bytes → Bytes → Bytes → Bytes → Bytes
sent_key user device room member = part user (part device (part room member))

module _ (E : KvTree) where
  pub record LazyLoading : Type 0 where
    pub lazyloadedids : E.Tree
    pub lazy_load_waiting : HashMap Waiting (List Bytes)

  unfoldable pub lazy_load_was_sent_before : LazyLoading → Bytes → Bytes → Bytes → Bytes → Bool
  lazy_load_was_sent_before s user device room ll_user =
      elim (E.get s.lazyloadedids (sent_key user device room ll_user)) [
        | none ↦ false
        | some _ ↦ true
      ]

  unfoldable pub lazy_load_mark_sent :
      LazyLoading → Bytes → Bytes → Bytes → List Bytes → PduCount → LazyLoading
  lazy_load_mark_sent s user device room lazy_load count = record s {
    lazy_load_waiting = insert (user, (device, (room, count))) lazy_load s.lazy_load_waiting;
  }

  -- Data::lazy_load_confirm_delivery
  unfoldable pub insert_confirmed : Bytes → Bytes → Bytes → List Bytes → E.Tree → E.Tree
  insert_confirmed user device room [] t = t
  insert_confirmed user device room (ll_id ∷ ids) t =
      insert_confirmed user device room ids (E.insert t (sent_key user device room ll_id) [])

  unfoldable pub lazy_load_confirm_delivery :
      LazyLoading → Bytes → Bytes → Bytes → PduCount → LazyLoading
  unfolding insert_confirmed
  lazy_load_confirm_delivery s user device room since =
      let key : Waiting = (user, (device, (room, since))) in
      elim (get key s.lazy_load_waiting) [
        | none ↦ s
        | some user_ids ↦ record {
          lazyloadedids = insert_confirmed user device room user_ids s.lazyloadedids;
          lazy_load_waiting = remove key s.lazy_load_waiting;
        }
      ]

  unfoldable pub lazy_load_reset : LazyLoading → Bytes → Bytes → Bytes → LazyLoading
  lazy_load_reset s user device room = record s {
    lazyloadedids =
        remove_entries E (E.scan_prefix s.lazyloadedids (sent_prefix user device room))
          s.lazyloadedids;
  }
