-- ===== src/AuthChain/Cached.antt =====
-- A chain that was computed is found again, whatever the cache has forgotten.
use grapevine.Prelude.{
  ℕ, ◌<◌, List, [], ◌∷◌, none, some, ◌==◌, ==_iff, List-Eq, ℕ-Eq, ◌≡◌, refl, ap₂, ◌∙◌, inl, inr,
  arith, Option-cases, if◌then◌else◌,
}
use grapevine.Utils.{u64_mod, to_be_bytes}
use grapevine.Utils.Laws.{from-to_be_bytes, to_be_bytes-injective}
use grapevine.HashSet.{Nodup}
use grapevine.HashSet.Laws.{extend-nil}
use grapevine.Database.Tree.{KvTree}
use grapevine.LruCache.{LruCache}
use grapevine.AuthChain.{
  encode_chain, decode_chunks, AuthChains, chain_in_db, look_in_db, get_cached_eventid_authchain,
  persist, cache_auth_chain,
}

-- The numbers of a chain are u64.
unfoldable pub IsChain : List ℕ → Type 0
IsChain [] = Unit
IsChain (n ∷ ns) = (n < u64_mod) × IsChain ns

decode-encode_chain : (ns : List ℕ) → IsChain ns → decode_chunks (encode_chain ns) ≡ ns
unfolding IsChain decode_chunks encode_chain to_be_bytes
decode-encode_chain [] u = refl
decode-encode_chain (n ∷ ns) (below, u) =
    ap₂ (◌∷◌) (unfold to_be_bytes in from-to_be_bytes n below) (decode-encode_chain ns u)

module _ (E : KvTree) (C : LruCache (List ℕ) (List ℕ)) where
  -- The cache has no other chain of an event than the tree.
  pub record IsCoherent (s : AuthChains E C) : Type 0 where
    pub cached :
        (k : ℕ) (chain : List ℕ)
        → k < u64_mod
        → C.peek s.auth_chain_cache (k ∷ []) ≡ some chain
        → chain_in_db E C s k ≡ some chain

  -- For a single event get_cached_eventid_authchain gives what the tree has, also from a coherent
  -- cache, which stays coherent.
  pub get_cached_eventid_authchain_lem :
      (s : AuthChains E C) (k : ℕ)
      → IsCoherent s
      → k < u64_mod
      → ((get_cached_eventid_authchain E C s (k ∷ [])).0 ≡ chain_in_db E C s k)
        × IsCoherent (get_cached_eventid_authchain E C s (k ∷ [])).1
  unfolding get_cached_eventid_authchain look_in_db chain_in_db
  get_cached_eventid_authchain_lem s k c below =
      let after = (C.get_mut s.auth_chain_cache (k ∷ [])).1 in
      (
        elim (Option-cases (C.peek s.auth_chain_cache (k ∷ []))) [
          | inl missed ↦ ground (arith, C.get_mut-peek s.auth_chain_cache (k ∷ []), missed)
          | inr (chain, hit) ↦
              ground
                (arith, C.get_mut-peek s.auth_chain_cache (k ∷ []), hit, c.cached k chain below hit)
        ],
        record {
          cached = λ j chain j_below hit. elim (Option-cases (chain_in_db E C s k)) [
            | inl missing ↦ ground (
              arith,
              missing,
              C.peek-get_mut s.auth_chain_cache (k ∷ []) (j ∷ []),
              c.cached j chain j_below,
            )
            | inr (v, found) ↦ ground (
              arith,
              found,
              C.peek-get_mut s.auth_chain_cache (k ∷ []) (j ∷ []),
              C.peek-insert after (k ∷ []) v (j ∷ []) chain,
              c.cached j chain j_below,
            )
          ];
        },
      )

  -- The tree has a chain that is cached, and keeps those of other events.
  chain_in_db-cache_auth_chain :
      (s : AuthChains E C) (k j : ℕ) (chain : List ℕ)
      → k < u64_mod
      → j < u64_mod
      → IsChain chain
      → Nodup chain
      → chain_in_db E C (cache_auth_chain E C s (k ∷ []) chain) j
        ≡ (if k == j then some chain else chain_in_db E C s j)
  unfolding chain_in_db cache_auth_chain persist
  chain_in_db-cache_auth_chain s k j chain k_below j_below u distinct = ground (
    arith,
    E.get-insert s.shorteventid_authchain (to_be_bytes k) (encode_chain chain) (to_be_bytes j),
    ==_iff (to_be_bytes k) (to_be_bytes j),
    to_be_bytes-injective k j k_below j_below,
    decode-encode_chain chain u,
    extend-nil chain distinct,
  )

  cache_auth_chain-IsCoherent :
      (s : AuthChains E C) (k : ℕ) (chain : List ℕ)
      → IsCoherent s
      → k < u64_mod
      → IsChain chain
      → Nodup chain
      → C.peek s.auth_chain_cache (k ∷ []) ≡ none
      → IsCoherent (cache_auth_chain E C s (k ∷ []) chain)
  unfolding cache_auth_chain
  cache_auth_chain-IsCoherent s k chain c k_below u distinct missed = record {
    cached = λ j other j_below hit. ground (
      arith,
      chain_in_db-cache_auth_chain s k j chain k_below j_below u distinct,
      C.peek-insert s.auth_chain_cache (k ∷ []) chain (j ∷ []) other hit,
      c.cached j other j_below,
    );
  }

  -- Once the chain of an event that was not in the cache is cached, it is found, whatever the cache
  -- forgets, and every other event has the chain that the tree had for it; the cache stays coherent.
  pub get_cached-cache_auth_chain :
      (s : AuthChains E C) (k j : ℕ) (chain : List ℕ)
      → IsCoherent s
      → k < u64_mod
      → j < u64_mod
      → IsChain chain
      → Nodup chain
      → C.peek s.auth_chain_cache (k ∷ []) ≡ none
      → IsCoherent (cache_auth_chain E C s (k ∷ []) chain)
        × ((get_cached_eventid_authchain E C (cache_auth_chain E C s (k ∷ []) chain) (j ∷ [])).0
            ≡ (if k == j then some chain else chain_in_db E C s j))
  get_cached-cache_auth_chain s k j chain c k_below j_below u distinct missed =
      let coherent = cache_auth_chain-IsCoherent s k chain c k_below u distinct missed in
      let t = cache_auth_chain E C s (k ∷ []) chain in
      (
        coherent,
        (get_cached_eventid_authchain_lem t j coherent j_below).0
            ∙ chain_in_db-cache_auth_chain s k j chain k_below j_below u distinct,
      )
