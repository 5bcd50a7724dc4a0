-- ===== src/Tests/Search.antt =====
-- The authorisation chain of an event with one authorisation event, which is not stored.
use grapevine.Prelude.{
  ℕ, ◌<◌, true, List, [], ◌∷◌, none, some, ok, ◌≡◌, ◌↔◌, ◌⊎◌, inl, inr, refl, sym, subst, ℕ-Eq,
  List-Eq, list_eq, ◌==◌, ==_iff, arith, Bool-cases,
}
use grapevine.Utils.{Bytes, u64_mod}
use grapevine.Utils.Utf8.{is_utf8}
use grapevine.HashSet.{contains}
use grapevine.LruCache.{LruCache, one_entry, peek_one}
use grapevine.Database.ListTree.{list_tree}
use grapevine.Database.Tree.{find}
use grapevine.Short.Bijection.{HasShort}
use grapevine.Timeline.Store.{Events, get_pdu_in_db, get_non_outlier_pdu, parsed_pdu}
use grapevine.Timeline.Store.Cached.{IsCoherent}
use grapevine.AuthChain.Explore.{Reach, AreIn}
use grapevine.AuthChain.Inner.{Search, get_auth_chain_inner}
use grapevine.AuthChain.Inner.Marked.{IsSoundly}
use grapevine.AuthChain.Inner.Turns.{AreValid}
use grapevine.AuthChain.Inner.Closure.{auth_events_of, get_auth_chain_inner_lem}
use grapevine.Tests.Numbers.{types, numbers, names, no_events, no_events-IsSound}

-- An event is the byte of its id and that of its authorisation event.
abbrev events : Events
events = record {
  Pdu = ℕ × ℕ;
  from_slice = elim [ [] ↦ none | a ∷ rest ↦ elim rest [ [] ↦ none | b ∷ _ ↦ some (a, b) ] ];
  event_id = λ pdu. pdu.0 ∷ [];
  room_id = λ pdu. 9 ∷ [];
  sender = λ pdu. 1 ∷ [];
  auth_events = λ pdu. (pdu.1 ∷ []) ∷ [];
  remove_transaction_id = λ pdu. ok pdu;
  add_age = λ pdu. ok pdu;
}

abbrev pdus : LruCache Bytes (ℕ × ℕ)
pdus = one_entry

abbrev search : Search types list_tree events pdus numbers names
search = record {
  timeline = record {
    pduid_pdu = [];
    eventid_pduid = [];
    eventid_outlierpdu = (60 ∷ [], 60 ∷ 70 ∷ []) ∷ [];
    lasttimelinecount_cache = [];
    pdu_cache = none;
    userroomid_notificationcount = [];
    userroomid_highlightcount = [];
  };
  shorts = no_events;
}

abbrev universe : List Bytes
universe = (60 ∷ []) ∷ (70 ∷ []) ∷ []

which : (a : Bytes) → contains a universe ≡ true → (a ≡ 60 ∷ []) ⊎ (a ≡ 70 ∷ [])
unfolding contains
which a h = elim (Bool-cases (a == (60 ∷ []))) [
  | inl same ↦ inl (ground (arith, ==_iff a (60 ∷ [])))
  | inr other ↦ inr (ground (arith, ==_iff a (70 ∷ [])))
]

search-IsCoherent : IsCoherent list_tree events pdus search.timeline
unfolding peek_one
search-IsCoherent = record { cached = λ id pdu hit. cc }

universe-AreValid : AreValid types list_tree events pdus numbers names universe
unfolding is_utf8
universe-AreValid a h = elim (which a h) [
  | inl same ↦ (subst (λ b. is_utf8 b ≡ true) (sym same) refl, refl)
  | inr same ↦ (subst (λ b. is_utf8 b ≡ true) (sym same) refl, refl)
]

universe_closed :
    (d : Bytes)
    → contains d universe ≡ true
    → AreIn
        (auth_events_of types list_tree events pdus numbers names
          (get_pdu_in_db list_tree events pdus search.timeline d))
        universe
unfolding auth_events_of get_pdu_in_db get_non_outlier_pdu parsed_pdu find list_eq contains
universe_closed d h a = elim (which d h) [
  | inl same ↦
      subst
        (λ b.
          contains a (
              auth_events_of types list_tree events pdus numbers names
                (get_pdu_in_db list_tree events pdus search.timeline b))
            ≡ true
          → contains a universe ≡ true)
        (sym same) (λ k. ground arith)
  | inr same ↦
      subst
        (λ b.
          contains a (
              auth_events_of types list_tree events pdus numbers names
                (get_pdu_in_db list_tree events pdus search.timeline b))
            ≡ true
          → contains a universe ≡ true)
        (sym same) (λ k. cc)
]

get_auth_chain_inner_lem_example :
    (count' : ℕ) × (found : List ℕ) × (t : Search types list_tree events pdus numbers names)
    × (get_auth_chain_inner types list_tree events pdus numbers names 4 (9 ∷ []) search (60 ∷ [])
        ≡ (ok found, t))
    × IsSoundly types list_tree numbers names count' t.shorts
    × ((n : ℕ)
        → n < u64_mod
        → (contains n found ≡ true) ↔ (
            (a : Bytes) × Reach
              (λ d.
                auth_events_of types list_tree events pdus numbers names
                  (get_pdu_in_db list_tree events pdus search.timeline d))
              (60 ∷ [])
              a
            × HasShort list_tree t.shorts.trees.forward a n))
unfolding contains list_eq
get_auth_chain_inner_lem_example =
    get_auth_chain_inner_lem types list_tree events pdus numbers names 0 4 search (9 ∷ []) (60 ∷ [])
      universe no_events-IsSound search-IsCoherent (omega arith) (omega arith) refl
      universe-AreValid (λ a pdu here is. refl) universe_closed
