-- ===== src/StateCompressor/Layers.antt =====
-- Stacks of layers as the tree of diffs holds them, and that storing one more diff keeps them.
use grapevine.Prelude.{
  ℕ, ◌<◌, List, [], ◌∷◌, ◌≡◌, ◌≢◌, ap, ◌∙◌, Option, none, some, ok, Bool, false, arith, List-Eq,
  ℕ-Eq,
}
use grapevine.Utils.{Bytes, u64_mod, to_be_bytes}
use grapevine.HashSet.{contains, extend, remove_all}
use grapevine.Database.Tree.{KvTree}
use grapevine.StateCompressor.{StateDiff, Layer, get_statediff, save_statediff}
use grapevine.StateCompressor.Codec.{get-save_statediff_ne}
use grapevine.StateCompressor.Diffs.{IsDiffTo}

-- The state that a diff on top of the stack starts from.
abbrev pub base_of : List Layer → Bytes → Bool
base_of [] x = false
base_of (l ∷ _) x = contains x l.full_state

abbrev pub top_hash : List Layer → Option ℕ
top_hash [] = none
top_hash (l ∷ _) = some l.shortstatehash

abbrev pub full_of : List Layer → List Bytes → List Bytes → List Bytes
full_of [] added removed = added
full_of (p ∷ _) added removed = remove_all removed (extend added p.full_state)

module _ (E : KvTree) where
  -- The layer is stored with the stack below as its parent, and holds the state that its diff
  -- leads to.
  pub record IsLayer (t : E.Tree) (l : Layer) (below : List Layer) : Type 0 where
    pub stored :
        get_statediff E t l.shortstatehash
        ≡ ok (record { parent = top_hash below; added = l.added; removed = l.removed })
    pub full : l.full_state ≡ full_of below l.added l.removed
    pub diff : IsDiffTo (base_of below) (λ x. contains x l.full_state) l.added l.removed
    pub positive : 0 < l.shortstatehash
    pub in_range : l.shortstatehash < u64_mod

  abbrev pub Stored : E.Tree → List Layer → Type 0
  Stored t [] = Unit
  Stored t (l ∷ ls) = IsLayer t l ls × Stored t ls

  -- The tree has no diff under the hash yet.
  abbrev pub IsFresh : E.Tree → ℕ → Type 0
  IsFresh t h = E.get t (to_be_bytes h) ≡ none

  fresh-ne :
      (t : E.Tree) (h j : ℕ) (d : StateDiff)
      → IsFresh t h
      → get_statediff E t j ≡ ok d
      → to_be_bytes h ≢ to_be_bytes j
  unfolding get_statediff
  fresh-ne t h j d f g e = ground (arith, ap (E.get t) e)

  pub Stored-save :
      (t : E.Tree) (h : ℕ) (d : StateDiff) (ls : List Layer)
      → IsFresh t h
      → Stored t ls
      → Stored (save_statediff E t h d) ls
  Stored-save t h d [] f s = tt
  Stored-save t h d (l ∷ ls) f s = (
    record {
      stored =
          get-save_statediff_ne E t h l.shortstatehash d
            (fresh-ne t h l.shortstatehash _ f s.0.stored)
          ∙ s.0.stored;
      full = s.0.full;
      diff = s.0.diff;
      positive = s.0.positive;
      in_range = s.0.in_range;
    },
    Stored-save t h d ls f s.1,
  )
