-- ===== src/Tests/Members.antt =====
-- A device that is sent the members of a room, and transactions of its user.
use grapevine.Prelude.{[], ◌∷◌, ◌≡◌, refl, ◌&&◌, ◌||◌, List-Eq, ℕ-Eq}
use grapevine.Utils.{Bytes}
use grapevine.HashSet.{contains}
use grapevine.Database.Parts.{IsPart-nil, IsPart-cons}
use grapevine.Database.ListTree.{list_tree}
use grapevine.LazyLoading.{LazyLoading, lazy_load_mark_sent, lazy_load_confirm_delivery}
use grapevine.Timeline.{normal}
use grapevine.LazyLoading.Delivery.{View, same_view, was_sent, lazy_load_delivery}

abbrev phone : View
phone = record {
  user = 1 ∷ [];
  device = 2 ∷ [];
  room = 3 ∷ [];
  user_part = IsPart-cons 1 [] refl IsPart-nil;
  device_part = IsPart-cons 2 [] refl IsPart-nil;
  room_part = IsPart-cons 3 [] refl IsPart-nil;
}

abbrev eve : Bytes
eve = 7 ∷ []

abbrev before : LazyLoading list_tree
before = record { lazyloadedids = []; lazy_load_waiting = [] }

abbrev marked : LazyLoading list_tree
marked = lazy_load_mark_sent list_tree before (1 ∷ []) (2 ∷ []) (3 ∷ []) (eve ∷ []) (normal 4)

lazy_load_delivery_example :
    was_sent list_tree
      (lazy_load_confirm_delivery list_tree marked (1 ∷ []) (2 ∷ []) (3 ∷ []) (normal 4))
      phone
      eve
    ≡ ((same_view phone phone && contains eve (eve ∷ [])) || was_sent list_tree before phone eve)
lazy_load_delivery_example =
    lazy_load_delivery list_tree before phone phone (eve ∷ []) (normal 4) eve
