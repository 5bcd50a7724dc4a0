-- ===== src/StateCache/Servers/Joined.antt =====
-- After update_joined_count a server is in the room if a joined member is of it.
use grapevine.Prelude.{
  true, not, ◌&&◌, ◌||◌, List, [], ◌∷◌, ◌==◌, ==_iff, ==_refl, List-Eq, ℕ-Eq, if◌then◌else◌, ◌≡◌,
  refl, arith,
}
use grapevine.Utils.{Bytes}
use grapevine.Utils.Utf8.{is_utf8_no_ff}
use grapevine.HashSet.{contains, remove, Nodup}
use grapevine.HashSet.Laws.{contains-remove}
use grapevine.Database.Tree.{KvTree}
use grapevine.Database.Parts.{part, IsPart, same-part}
use grapevine.StateCache.{Names, has}
use grapevine.StateCache.Scans.{IsName}
use grapevine.StateCache.Servers.{Own, remove_old, insert_new}

-- One of the two trees, with the key of a server in it.
module _ (E : KvTree) (key : Bytes → Bytes) (server : Bytes) where
  dropped : List Bytes → List Bytes → E.Tree → E.Tree
  unfolding contains remove
  dropped [] joined t = t
  dropped (old ∷ olds) joined t =
      dropped olds (remove old joined) (if contains old joined then t else E.remove t (key old))

  added : List Bytes → E.Tree → E.Tree
  added [] t = t
  added (new ∷ more) t = added more (E.insert t (key new) [])

  -- The keys of the servers tell them from this one.
  abbrev TellsApart : List Bytes → Type 0
  TellsApart servers =
      (a : Bytes) → contains a servers ≡ true → (key a == key server) ≡ (a == server)

  has-dropped :
      (olds joined : List Bytes) (t : E.Tree)
      → Nodup olds
      → TellsApart olds
      → has E (dropped olds joined t) (key server)
        ≡ (has E t (key server) && not (contains server olds && not (contains server joined)))
  unfolding dropped contains has
  has-dropped [] joined t nodup apart = ground arith
  has-dropped (old ∷ olds) joined t (new, nodup) apart =
      let rest : TellsApart olds = λ a h. apart a (ground (arith, h)) in
      ground (
        arith,
        has-dropped olds (remove old joined)
            (if contains old joined then t else E.remove t (key old)) nodup rest,
        contains-remove server old joined,
        E.get-remove t (key old) (key server),
        apart old (ground (arith, ==_refl old)),
        ==_iff old server,
        ==_iff server old,
        new,
      )

  has-added :
      (news : List Bytes) (t : E.Tree)
      → TellsApart news
      → has E (added news t) (key server) ≡ (contains server news || has E t (key server))
  unfolding added contains has
  has-added [] t apart = refl
  has-added (new ∷ news) t apart =
      let rest : TellsApart news = λ a h. apart a (ground (arith, h)) in
      ground (
        arith,
        has-added news (E.insert t (key new) []) rest,
        E.get-insert t (key new) [] (key server),
        apart new (ground (arith, ==_refl new)),
        ==_iff new server,
        ==_iff server new,
      )

module _ (E : KvTree) (N : Names) (O : Own) (room server : Bytes) (room_part : IsPart room) where
  room_key : Bytes → Bytes
  room_key a = part room a

  server_key : Bytes → Bytes
  server_key a = part a room

  remove_old-dropped :
      (olds joined : List Bytes) (t u : E.Tree)
      → (remove_old E N O room olds joined (t, u)).1
        ≡ (dropped E room_key server olds joined t, dropped E server_key server olds joined u)
  unfolding remove_old dropped room_key server_key
  remove_old-dropped [] joined t u = refl
  remove_old-dropped (old ∷ olds) joined t u = ground (
    arith,
    remove_old-dropped olds (remove old joined) t u,
    remove_old-dropped olds (remove old joined) (E.remove t (part room old))
        (E.remove u (part old room)),
  )

  contains-remove_old :
      (olds joined : List Bytes) (trees : E.Tree × E.Tree) (a : Bytes)
      → contains a (remove_old E N O room olds joined trees).0
        ≡ (contains a joined && not (contains a olds))
  unfolding remove_old contains
  contains-remove_old [] joined trees a = ground arith
  contains-remove_old (old ∷ olds) joined (t, u) a =
      let next : E.Tree × E.Tree =
        if contains old joined
        then (t, u)
        else (E.remove t (part room old), E.remove u (part old room)) in
      ground (
        arith,
        contains-remove_old olds (remove old joined) next a,
        contains-remove a old joined,
        ==_iff a old,
        ==_iff old a,
      )

  insert_new-added :
      (news : List Bytes) (t u : E.Tree)
      → insert_new E N O room news (t, u)
        ≡ (added E room_key server news t, added E server_key server news u)
  unfolding insert_new added room_key server_key
  insert_new-added [] t u = refl
  insert_new-added (new ∷ news) t u =
      insert_new-added news (E.insert t (part room new) []) (E.insert u (part new room) [])

  -- The servers of a room as they are stored, and as they come out.
  module _ (server_name : IsName N.is_server_name server) (olds joined : List Bytes)
      (nodup : Nodup olds) (olds_names : (a : Bytes) → contains a olds ≡ true → IsPart a)
      (joined_names : (a : Bytes) → contains a joined ≡ true → IsPart a) where
    server-IsPart : IsPart server
    server-IsPart = is_utf8_no_ff server server_name.0

    pub has-both :
        (t u : E.Tree)
        → has E t (part room server) ≡ contains server olds
        → has E u (part server room) ≡ contains server olds
        → (has E
              (insert_new E N O room
                (remove_old E N O room olds joined (t, u)).0
                (remove_old E N O room olds joined (t, u)).1).0
              (part room server)
            ≡ contains server joined)
          × (has E
                (insert_new E N O room
                  (remove_old E N O room olds joined (t, u)).0
                  (remove_old E N O room olds joined (t, u)).1).1
                (part server room)
              ≡ contains server joined)
    unfolding room_key server_key
    has-both t u of_t of_u =
        let news = (remove_old E N O room olds joined (t, u)).0 in
        let new_part : (a : Bytes) → contains a news ≡ true → IsPart a =
          λ a h. joined_names a (ground (arith, contains-remove_old olds joined (t, u) a)) in
        let by_room : (a : Bytes) → (part room a == part room server) ≡ (a == server) =
          λ a. ground (arith, same-part room room a server room_part room_part, ==_refl room) in
        let by_server : (a : Bytes) → IsPart a → (part a room == part server room) ≡ (a == server) =
          λ a h. ground (arith, same-part a server room room h server-IsPart, ==_refl room) in
        (
          ground (
            arith,
            remove_old-dropped olds joined t u,
            insert_new-added news (dropped E room_key server olds joined t)
                (dropped E server_key server olds joined u),
            has-added E room_key server news (dropped E room_key server olds joined t)
                (λ a h. by_room a),
            has-dropped E room_key server olds joined t nodup (λ a h. by_room a),
            contains-remove_old olds joined (t, u) server,
            of_t,
          ),
          ground (
            arith,
            remove_old-dropped olds joined t u,
            insert_new-added news (dropped E room_key server olds joined t)
                (dropped E server_key server olds joined u),
            has-added E server_key server news (dropped E server_key server olds joined u)
                (λ a h. by_server a (new_part a h)),
            has-dropped E server_key server olds joined u nodup
                (λ a h. by_server a (olds_names a h)),
            contains-remove_old olds joined (t, u) server,
            of_u,
          ),
        )
