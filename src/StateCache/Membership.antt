-- ===== src/StateCache/Membership.antt =====
-- The six trees as one map: a user is joined to, invited to or has left a room, or none of these.
use grapevine.Prelude.{
  Bool, true, false, ◌&&◌, List, [], ◌∷◌, Option, none, some, Result, ok, ◌>>=◌, ◌==◌, ==_iff,
  List-Eq, ℕ-Eq, if◌then◌else◌, ◌≡◌, refl, arith,
}
use grapevine.Utils.{Bytes, to_be_bytes}
use grapevine.Database.Tree.{KvTree}
use grapevine.Database.Parts.{IsPart, part, same-part}
use grapevine.Globals.Counter.{next_count_total}
use grapevine.StateCache.{
  Members, mark_as_joined, mark_as_invited, mark_as_left, forget, is_joined, is_invited, is_left,
  has,
}

pub data Membership : Type 0 where
  joined invited left : Membership

-- Who is what, by user and room.
abbrev pub Roster : Type 0
Roster = Bytes → Bytes → Option Membership

-- The roster with one entry changed.
pub update : Roster → Bytes → Bytes → Option Membership → Roster
update m user room now u r = if (user == u) && (room == r) then now else m u r

-- To forget a room takes the membership of one who has left it.
pub forgotten : Option Membership → Option Membership
forgotten (some left) = none
forgotten now = now

unfoldable pub is_at : Option Membership → Membership → Bool
is_at none _ = false
is_at (some joined) joined = true
is_at (some invited) invited = true
is_at (some left) left = true
is_at (some _) _ = false

module _ (E : KvTree) where
  -- The trees by user and those by room agree with the roster on all valid names, so with one
  -- another; and no user has two memberships of a room.
  pub record Shows (m : Roster) (s : Members E) : Type 0 where
    pub by_user :
        (u r : Bytes)
        → IsPart u
        → IsPart r
        → (is_joined E s u r ≡ is_at (m u r) joined)
          × (is_invited E s u r ≡ is_at (m u r) invited)
          × (is_left E s u r ≡ is_at (m u r) left)
    pub by_room :
        (u r : Bytes)
        → IsPart u
        → IsPart r
        → (has E s.roomuserid_joined (part r u) ≡ is_at (m u r) joined)
          × (has E s.roomuserid_invitecount (part r u) ≡ is_at (m u r) invited)
          × (has E s.roomuserid_leftcount (part r u) ≡ is_at (m u r) left)

  has-insert :
      (t : E.Tree) (a b v u r : Bytes)
      → IsPart a
      → IsPart u
      → has E (E.insert t (part a b) v) (part u r)
        ≡ (if (a == u) && (b == r) then true else has E t (part u r))
  unfolding has
  has-insert t a b v u r ha hu =
      ground (arith, E.get-insert t (part a b) v (part u r), same-part a u b r ha hu)

  has-remove :
      (t : E.Tree) (a b u r : Bytes)
      → IsPart a
      → IsPart u
      → has E (E.remove t (part a b)) (part u r)
        ≡ (if (a == u) && (b == r) then false else has E t (part u r))
  unfolding has
  has-remove t a b u r ha hu =
      ground (arith, E.get-remove t (part a b) (part u r), same-part a u b r ha hu)

  module _ (m : Roster) (s : Members E) (user room : Bytes) (user_part : IsPart user)
      (room_part : IsPart room) (shows : Shows m s) where
    mark_as_joined-Shows : Shows (update m user room (some joined)) (mark_as_joined E s user room)
    unfolding mark_as_joined is_joined is_invited is_left update is_at
    mark_as_joined-Shows = record {
      by_user = λ u r hu hr. ground (
        arith,
        shows.by_user u r hu hr,
        has-insert s.userroomid_joined user room [] u r user_part hu,
        has-remove s.userroomid_invitestate user room u r user_part hu,
        has-remove s.userroomid_leftstate user room u r user_part hu,
      );
      by_room = λ u r hu hr. ground (
        arith,
        shows.by_room u r hu hr,
        has-insert s.roomuserid_joined room user [] r u room_part hr,
        has-remove s.roomuserid_invitecount room user r u room_part hr,
        has-remove s.roomuserid_leftcount room user r u room_part hr,
      );
    }

    mark_as_invited-Shows :
        (last_state : Bytes)
        → (t : Members E) × (mark_as_invited E s user room last_state ≡ ok t)
          × Shows (update m user room (some invited)) t
    unfolding mark_as_invited is_joined is_invited is_left update is_at
    mark_as_invited-Shows last_state =
        let (count, global, below, counts) = next_count_total E s.global in
        let t : Members E = record s {
          userroomid_invitestate = E.insert s.userroomid_invitestate (part user room) last_state;
          roomuserid_invitecount =
              E.insert s.roomuserid_invitecount (part room user) (to_be_bytes count);
          userroomid_joined = E.remove s.userroomid_joined (part user room);
          roomuserid_joined = E.remove s.roomuserid_joined (part room user);
          userroomid_leftstate = E.remove s.userroomid_leftstate (part user room);
          roomuserid_leftcount = E.remove s.roomuserid_leftcount (part room user);
          global = global;
        } in
        (
          t,
          ground (arith, counts),
          record {
            by_user = λ u r hu hr. ground (
              arith,
              shows.by_user u r hu hr,
              has-insert s.userroomid_invitestate user room last_state u r user_part hu,
              has-remove s.userroomid_joined user room u r user_part hu,
              has-remove s.userroomid_leftstate user room u r user_part hu,
            );
            by_room = λ u r hu hr. ground (
              arith,
              shows.by_room u r hu hr,
              has-insert s.roomuserid_invitecount room user (to_be_bytes count) r u room_part hr,
              has-remove s.roomuserid_joined room user r u room_part hr,
              has-remove s.roomuserid_leftcount room user r u room_part hr,
            );
          },
        )

    mark_as_left-Shows :
        (t : Members E) × (mark_as_left E s user room ≡ ok t)
        × Shows (update m user room (some left)) t
    unfolding mark_as_left is_joined is_invited is_left update is_at
    mark_as_left-Shows =
        let (count, global, below, counts) = next_count_total E s.global in
        let t : Members E = record s {
          userroomid_leftstate =
              E.insert s.userroomid_leftstate (part user room) (b'[' ∷ b']' ∷ []);
          roomuserid_leftcount =
              E.insert s.roomuserid_leftcount (part room user) (to_be_bytes count);
          userroomid_joined = E.remove s.userroomid_joined (part user room);
          roomuserid_joined = E.remove s.roomuserid_joined (part room user);
          userroomid_invitestate = E.remove s.userroomid_invitestate (part user room);
          roomuserid_invitecount = E.remove s.roomuserid_invitecount (part room user);
          global = global;
        } in
        (
          t,
          ground (arith, counts),
          record {
            by_user = λ u r hu hr. ground (
              arith,
              shows.by_user u r hu hr,
              has-insert s.userroomid_leftstate user room (b'[' ∷ b']' ∷ []) u r user_part hu,
              has-remove s.userroomid_joined user room u r user_part hu,
              has-remove s.userroomid_invitestate user room u r user_part hu,
            );
            by_room = λ u r hu hr. ground (
              arith,
              shows.by_room u r hu hr,
              has-insert s.roomuserid_leftcount room user (to_be_bytes count) r u room_part hr,
              has-remove s.roomuserid_joined room user r u room_part hr,
              has-remove s.roomuserid_invitecount room user r u room_part hr,
            );
          },
        )

    forget-Shows : Shows (update m user room (forgotten (m user room))) (forget E s room user)
    unfolding forget is_joined is_invited is_left update is_at forgotten
    forget-Shows = record {
      by_user = λ u r hu hr. ground (
        arith,
        shows.by_user u r hu hr,
        has-remove s.userroomid_leftstate user room u r user_part hu,
        ==_iff user u,
        ==_iff room r,
      );
      by_room = λ u r hu hr. ground (
        arith,
        shows.by_room u r hu hr,
        has-remove s.roomuserid_leftcount room user r u room_part hr,
        ==_iff user u,
        ==_iff room r,
      );
    }

-- The changes of memberships, of a user in a room.
pub data Change : Type 0 where
  join : Bytes → Bytes → Change
  invite : Bytes → Bytes → Bytes → Change
  leave : Bytes → Bytes → Change
  forget_room : Bytes → Bytes → Change

abbrev pub IsChange : Change → Type 0
IsChange (join u r) = IsPart u × IsPart r
IsChange (invite u r state) = IsPart u × IsPart r
IsChange (leave u r) = IsPart u × IsPart r
IsChange (forget_room u r) = IsPart u × IsPart r

abbrev pub AreChanges : List Change → Type 0
AreChanges [] = Unit
AreChanges (c ∷ changes) = IsChange c × AreChanges changes

-- The changes on the roster alone.
unfoldable pub replay : List Change → Roster → Roster
replay [] m = m
replay (join u r ∷ changes) m = replay changes (update m u r (some joined))
replay (invite u r state ∷ changes) m = replay changes (update m u r (some invited))
replay (leave u r ∷ changes) m = replay changes (update m u r (some left))
replay (forget_room u r ∷ changes) m = replay changes (update m u r (forgotten (m u r)))

module _ (E : KvTree) where
  -- The methods, one after the other.
  unfoldable pub run : List Change → Members E → Result (Members E)
  run [] s = ok s
  run (join u r ∷ changes) s = run changes (mark_as_joined E s u r)
  run (invite u r state ∷ changes) s = mark_as_invited E s u r state >>= run changes
  run (leave u r ∷ changes) s = mark_as_left E s u r >>= run changes
  run (forget_room u r ∷ changes) s = run changes (forget E s r u)

  -- Any sequence of mark_as_joined, mark_as_invited, mark_as_left and forget on valid names succeeds,
  -- and the trees then show, by user and by room, the roster that the sequence makes of the one that
  -- they showed before: at most one membership for each user and room.
  pub run-Shows :
      (changes : List Change) (m : Roster) (s : Members E)
      → AreChanges changes
      → Shows E m s
      → (t : Members E) × (run changes s ≡ ok t) × Shows E (replay changes m) t
  unfolding run replay
  run-Shows [] m s valid shows = (s, refl, shows)
  run-Shows (join u r ∷ changes) m s ((hu, hr), valid) shows =
      run-Shows changes (update m u r (some joined)) (mark_as_joined E s u r) valid
        (mark_as_joined-Shows E m s u r hu hr shows)
  run-Shows (invite u r state ∷ changes) m s ((hu, hr), valid) shows =
      let (t, done, after) = mark_as_invited-Shows E m s u r hu hr shows state in
      rw done (run-Shows changes (update m u r (some invited)) t valid after)
  run-Shows (leave u r ∷ changes) m s ((hu, hr), valid) shows =
      let (t, done, after) = mark_as_left-Shows E m s u r hu hr shows in
      rw done (run-Shows changes (update m u r (some left)) t valid after)
  run-Shows (forget_room u r ∷ changes) m s ((hu, hr), valid) shows =
      run-Shows changes (update m u r (forgotten (m u r))) (forget E s r u) valid
        (forget-Shows E m s u r hu hr shows)
