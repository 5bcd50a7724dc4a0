-- ===== src/Tests/Account.antt =====
-- The first account data of a user.
use grapevine.Prelude.{
  ℕ, true, List, [], ◌∷◌, Option, none, some, ok, ◌≡◌, ◌≢◌, refl, ℕ-Eq, List-Eq, ◌<◌, arith,
}
use grapevine.Utils.{Bytes, u64_mod}
use grapevine.Database.ListTree.{list_tree}
use grapevine.Database.Tree.{find}
use grapevine.Globals.{current_count, next_count}
use grapevine.Globals.Counter.{next_count_total}
use grapevine.AccountData.{Values, AccountData, update_data, get_data}
use grapevine.AccountData.Latest.{data_key, get_data-update_data}

-- Each value is its bytes.
abbrev values : Values
values = record {
  Value = Bytes;
  to_vec = λ value. value;
  from_slice = λ bytes. some bytes;
  has_type = λ value. true;
  has_content = λ value. true;
}

abbrev no_data : AccountData list_tree values
no_data = record { roomuserdataid_accountdata = []; roomusertype_roomuserdataid = []; global = [] }

get_data-update_data_example :
    (t : AccountData list_tree values) × (update_data list_tree values no_data none
        (1 ∷ [])
        (2 ∷ [])
        (3 ∷ [])
      ≡ (ok tt, t))
    × (get_data list_tree values t none (1 ∷ []) (2 ∷ []) ≡ ok (some (3 ∷ [])))
    × ((other_room : Option Bytes) (other_user kind : Bytes)
        → data_key none (1 ∷ []) (2 ∷ []) ≢ data_key other_room other_user kind
        → get_data list_tree values t other_room other_user kind
          ≡ get_data list_tree values no_data other_room other_user kind)
unfolding find current_count
get_data-update_data_example =
    get_data-update_data list_tree values no_data none (1 ∷ []) (2 ∷ []) (3 ∷ []) (3 ∷ []) 0 refl
      (omega arith) refl refl refl (λ key h. cc) (λ key id h k. cc)

next_count_total_example :
    (n : ℕ) × (t : List (Bytes × Bytes)) × (n < u64_mod) × (next_count list_tree [] ≡ ok (n, t))
next_count_total_example = next_count_total list_tree []
