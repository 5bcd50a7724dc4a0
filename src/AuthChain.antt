-- ===== src/AuthChain.antt =====
-- src/database/key_value/rooms/auth_chain.rs: the authorisation chains that were computed before, in
-- memory for any list of events and in a tree for a single one.
pub mod Cached
pub mod Explore
pub mod Inner
use grapevine.Prelude.{ℕ, List, [], ◌∷◌, ◌++◌, Option, none, some, ℕ-Eq}
use grapevine.Utils.{Bytes, to_be_bytes, from_be_bytes}
use grapevine.HashSet.{extend}
use grapevine.Database.Tree.{KvTree}
use grapevine.LruCache.{LruCache}

-- flat_map(|s| s.to_be_bytes()), over the chain
unfoldable pub encode_chain : List ℕ → Bytes
encode_chain [] = []
encode_chain (n ∷ ns) = to_be_bytes n ++ encode_chain ns

-- chunks_exact(8), each chunk as its number; what is left over at the end is dropped.
unfoldable pub decode_chunks : Bytes → List ℕ
unfolding from_be_bytes
decode_chunks (a ∷ b ∷ c ∷ d ∷ e ∷ f ∷ g ∷ h ∷ rest) =
    from_be_bytes (a ∷ b ∷ c ∷ d ∷ e ∷ f ∷ g ∷ h ∷ []) ∷ decode_chunks rest
decode_chunks _ = []

module _ (E : KvTree) (C : LruCache (List ℕ) (List ℕ)) where
  pub record AuthChains : Type 0 where
    pub auth_chain_cache : C.Cache
    pub shorteventid_authchain : E.Tree

  -- The chain of one event in the tree, as a set.
  unfoldable pub chain_in_db : AuthChains → ℕ → Option (List ℕ)
  chain_in_db s k = elim (E.get s.shorteventid_authchain (to_be_bytes k)) [
    | none ↦ none
    | some bytes ↦ some (extend (decode_chunks bytes) [])
  ]

  -- What the tree has, for a key of one event; it goes into the cache.
  unfoldable pub look_in_db : AuthChains → List ℕ → Option (List ℕ) × AuthChains
  unfolding chain_in_db
  look_in_db s [] = (none, s)
  look_in_db s (k ∷ []) = elim (chain_in_db s k) [
    | none ↦ (none, s)
    | some chain ↦
        (some chain, record s { auth_chain_cache = C.insert s.auth_chain_cache (k ∷ []) chain })
  ]
  look_in_db s (_ ∷ _ ∷ _) = (none, s)

  unfoldable pub get_cached_eventid_authchain : AuthChains → List ℕ → Option (List ℕ) × AuthChains
  unfolding look_in_db
  get_cached_eventid_authchain s key =
      let (hit, cache) = C.get_mut s.auth_chain_cache key in
      let s' : AuthChains = record s { auth_chain_cache = cache } in
      elim hit [ some result ↦ (some result, s') | none ↦ look_in_db s' key ]

  -- Only chains of single events go into the tree.
  unfoldable pub persist : E.Tree → List ℕ → List ℕ → E.Tree
  unfolding encode_chain
  persist t [] chain = t
  persist t (k ∷ []) chain = E.insert t (to_be_bytes k) (encode_chain chain)
  persist t (_ ∷ _ ∷ _) chain = t

  unfoldable pub cache_auth_chain : AuthChains → List ℕ → List ℕ → AuthChains
  unfolding persist
  cache_auth_chain s key auth_chain = record {
    auth_chain_cache = C.insert s.auth_chain_cache key auth_chain;
    shorteventid_authchain = persist s.shorteventid_authchain key auth_chain;
  }
