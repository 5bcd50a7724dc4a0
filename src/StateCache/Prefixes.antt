-- ===== src/StateCache/Prefixes.antt =====
-- rooms_joined scans for the id of the user with no separator after it.
use grapevine.Prelude.{
  Bool, true, List, [], ◌∷◌, ◌++◌, map, some, ok, ◌==◌, ==_iff, ==_refl, List-Eq, ℕ-Eq, ◌≡◌, arith,
  Option-cases, Bool-cases, inl, inr,
}
use grapevine.Utils.{Bytes}
use grapevine.Utils.Laws.{starts_with-append}
use grapevine.HashSet.{contains}
use grapevine.Database.Tree.{KvTree, find}
use grapevine.Database.Parts.{part, starts_with_longer}
use grapevine.StateCache.{Names, Members, name_of, oks, has, is_joined, rooms_joined}
use grapevine.StateCache.Scans.{IsName, name_of-part}

-- An entry that can be read is among the names.
contains-found :
    (valid : Bytes → Bool) (l : List (Bytes × Bytes)) (key v name : Bytes)
    → find key l ≡ some v
    → ((w : Bytes) → name_of valid (key, w) ≡ ok name)
    → contains name (oks (map (name_of valid) l)) ≡ true
unfolding find contains oks
contains-found valid [] key v name h reads = cc
contains-found valid ((j, w) ∷ l) key v name h reads = elim (Bool-cases (key == j)) [
  | inl same ↦ ground (arith, reads w, ==_iff key j, ==_refl name)
  | inr differs ↦
      let rest : find key l ≡ some v = ground (arith, h) in
      ground (arith, contains-found valid l key v name rest reads)
]

module _ (E : KvTree) (N : Names) (s : Members E) where
  -- rooms_joined of a user yields each room with a valid name that is joined by a user whose id starts
  -- with this one's.
  pub rooms_joined_longer :
      (user more room : Bytes)
      → IsName N.is_room_id room
      → is_joined E s (user ++ more) room ≡ true
      → contains room (oks (rooms_joined E N s user)) ≡ true
  unfolding rooms_joined is_joined has
  rooms_joined_longer user more room named joined =
      elim (Option-cases (E.get s.userroomid_joined (part (user ++ more) room))) [
        | inl missing ↦ absurd (ground arith)
        | inr (v, found) ↦
            contains-found N.is_room_id (E.scan_prefix s.userroomid_joined user)
              (part (user ++ more) room) v room
              (ground (
                arith,
                E.find-scan_prefix s.userroomid_joined user (part (user ++ more) room),
                starts_with_longer user (user ++ more) (0xff ∷ room),
                starts_with-append user more,
                found,
              ))
              (λ w. name_of-part N.is_room_id (user ++ more) room w named)
      ]
