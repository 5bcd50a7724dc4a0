-- ===== src/Tests/Chains.antt =====
-- The chain of one event.
use grapevine.Prelude.{ℕ, List, [], ◌∷◌, none, some, ◌≡◌, refl, ℕ-Eq, List-Eq, arith}
use grapevine.Database.ListTree.{list_tree}
use grapevine.HashSet.{contains}
use grapevine.LruCache.{LruCache, one_entry, peek_one}
use grapevine.AuthChain.{AuthChains, get_cached_eventid_authchain, cache_auth_chain}
use grapevine.AuthChain.Cached.{IsCoherent, IsChain, get_cached-cache_auth_chain}

abbrev cache : LruCache (List ℕ) (List ℕ)
cache = one_entry

abbrev nothing_known : AuthChains list_tree cache
nothing_known = record { auth_chain_cache = none; shorteventid_authchain = [] }

nothing_known-IsCoherent : IsCoherent list_tree cache nothing_known
unfolding peek_one
nothing_known-IsCoherent = record { cached = λ k chain below hit. cc }

abbrev chain : List ℕ
chain = 4 ∷ 9 ∷ []

get_cached-cache_auth_chain_example :
    IsCoherent list_tree cache (cache_auth_chain list_tree cache nothing_known (7 ∷ []) chain)
    × ((get_cached_eventid_authchain list_tree cache
          (cache_auth_chain list_tree cache nothing_known (7 ∷ []) chain)
          (7 ∷ [])).0
        ≡ some chain)
unfolding IsChain contains peek_one
get_cached-cache_auth_chain_example =
    get_cached-cache_auth_chain list_tree cache nothing_known 7 7 chain nothing_known-IsCoherent
      (omega arith) (omega arith) (omega arith, (omega arith, tt)) (refl, (refl, tt)) refl
