-- ===== src/LazyLoading/Delivery.antt =====
-- A member counts as sent exactly once the delivery of a response with it is confirmed, until the
-- reset of the room.
use grapevine.Prelude.{
  Bool, false, ◌&&◌, ◌||◌, List, [], ◌∷◌, none, some, ◌==◌, ==_iff, ==_refl, List-Eq, ℕ-Eq,
  if◌then◌else◌, ◌≡◌, ◌∙◌, arith,
}
use grapevine.Utils.{Bytes, starts_with}
use grapevine.HashSet.{contains}
use grapevine.HashMap.{get, get-insert}
use grapevine.Database.Tree.{KvTree, get-remove_prefix}
use grapevine.Database.Parts.{IsPart, part, same-part, starts_with-part}
use grapevine.LazyLoading.{
  LazyLoading, Waiting-Eq, Waiting, lazy_load_was_sent_before, lazy_load_mark_sent,
  lazy_load_confirm_delivery, lazy_load_reset, insert_confirmed, sent_key, sent_prefix,
}
use grapevine.Timeline.{PduCount}

-- A device of a user, and a room.
pub record View : Type 0 where
  pub user : Bytes
  pub device : Bytes
  pub room : Bytes
  pub user_part : IsPart user
  pub device_part : IsPart device
  pub room_part : IsPart room

pub same_view : View → View → Bool
same_view a b = (a.user == b.user) && ((a.device == b.device) && (a.room == b.room))

abbrev key_of : View → Bytes → Bytes
key_of v member = sent_key v.user v.device v.room member

same-sent_key :
    (a b : View) (m n : Bytes) → (key_of a m == key_of b n) ≡ (same_view a b && (m == n))
unfolding same_view
same-sent_key a b m n = ground (
  arith,
  same-part a.user b.user (part a.device (part a.room m)) (part b.device (part b.room n))
      a.user_part b.user_part,
  same-part a.device b.device (part a.room m) (part b.room n) a.device_part b.device_part,
  same-part a.room b.room m n a.room_part b.room_part,
)

starts_with-sent_prefix :
    (a b : View) (m : Bytes)
    → starts_with (sent_prefix a.user a.device a.room) (key_of b m) ≡ same_view a b
unfolding same_view starts_with
starts_with-sent_prefix a b m = ground (
  arith,
  starts_with-part a.user b.user (part a.device (part a.room [])) (part b.device (part b.room m))
      a.user_part b.user_part,
  starts_with-part a.device b.device (part a.room []) (part b.room m) a.device_part b.device_part,
  starts_with-part a.room b.room [] m a.room_part b.room_part,
)

module _ (E : KvTree) where
  pub was_sent : LazyLoading E → View → Bytes → Bool
  was_sent s v member = lazy_load_was_sent_before E s v.user v.device v.room member

  -- The members that wait for the confirmation of a position.
  pub waiting : LazyLoading E → View → PduCount → List Bytes
  waiting s v since =
      let key : Waiting = (v.user, (v.device, (v.room, since))) in
      elim (get key s.lazy_load_waiting) [ none ↦ [] | some members ↦ members ]

  get-insert_confirmed :
      (a b : View) (members : List Bytes) (t : E.Tree) (member : Bytes)
      → E.get (insert_confirmed E a.user a.device a.room members t) (key_of b member)
        ≡ (if same_view a b && contains member members then some [] else E.get t (key_of b member))
  unfolding insert_confirmed contains
  get-insert_confirmed a b [] t member = ground arith
  get-insert_confirmed a b (m ∷ members) t member = ground (
    arith,
    get-insert_confirmed a b members (E.insert t (key_of a m) []) member,
    E.get-insert t (key_of a m) [] (key_of b member),
    same-sent_key a b m member,
    ==_iff m member,
    ==_iff member m,
  )

  -- After the confirmation of a position exactly the members that waited for it count as sent to
  -- the device for the room, beside those that did before.
  pub was_sent-lazy_load_confirm_delivery :
      (s : LazyLoading E) (a b : View) (since : PduCount) (member : Bytes)
      → was_sent (lazy_load_confirm_delivery E s a.user a.device a.room since) b member
        ≡ ((same_view a b && contains member (waiting s a since)) || was_sent s b member)
  unfolding was_sent waiting lazy_load_confirm_delivery lazy_load_was_sent_before contains
  was_sent-lazy_load_confirm_delivery s a b since member =
      ground (arith, get-insert_confirmed a b (waiting s a since) s.lazyloadedids member)

  module _ (s : LazyLoading E) (a b : View) where
    -- What lazy_load_mark_sent marks with a position counts as sent after
    -- lazy_load_confirm_delivery of this position, to the same device for the same room, and
    -- nothing else is added.
    pub lazy_load_delivery :
        (members : List Bytes) (count : PduCount) (member : Bytes)
        → was_sent
            (lazy_load_confirm_delivery E
              (lazy_load_mark_sent E s a.user a.device a.room members count)
              a.user
              a.device
              a.room
              count)
            b
            member
          ≡ ((same_view a b && contains member members) || was_sent s b member)
    unfolding waiting was_sent lazy_load_mark_sent lazy_load_was_sent_before
    lazy_load_delivery members count member =
        let key : Waiting = (a.user, (a.device, (a.room, count))) in
        was_sent-lazy_load_confirm_delivery
          (lazy_load_mark_sent E s a.user a.device a.room members count) a b count member
        ∙ ground (arith, get-insert s.lazy_load_waiting key members key, ==_refl key)

    -- lazy_load_reset forgets what the device was sent of the room, and nothing else.
    pub was_sent-lazy_load_reset :
        (member : Bytes)
        → was_sent (lazy_load_reset E s a.user a.device a.room) b member
          ≡ (if same_view a b then false else was_sent s b member)
    unfolding was_sent lazy_load_reset lazy_load_was_sent_before
    was_sent-lazy_load_reset member = ground (
      arith,
      get-remove_prefix E s.lazyloadedids (sent_prefix a.user a.device a.room) (key_of b member),
      starts_with-sent_prefix a b member,
    )
