-- ===== src/LruCache.antt =====
-- `LruCache` of the crate lru_cache, a parameter: a cache that may forget any entry, and never
-- makes one up. `peek` reads without a change of the order of use.
use grapevine.Prelude.{Option, none, some, ◌==◌, ==_iff, Eq, ◌≡◌, refl, ◌⊎◌, arith, if◌then◌else◌}

pub record LruCache (K V : Type 0) : Type 1 where
  pub Cache : Type 0
  pub peek : Cache → K → Option V
  pub get_mut : Cache → K → Option V × Cache
  pub insert : Cache → K → V → Cache
  pub get_mut-peek : (c : Cache) (k : K) → (get_mut c k).0 ≡ peek c k
  pub peek-get_mut : (c : Cache) (k j : K) → peek (get_mut c k).1 j ≡ peek c j
  -- What is found after an insertion is the new entry, or was found before.
  pub peek-insert :
      (c : Cache) (k : K) (v : V) (j : K) (w : V)
      → peek (insert c k v) j ≡ some w
      → ((j ≡ k) × (w ≡ v)) ⊎ (peek c j ≡ some w)

module _ {K V : Type 0} ⦃e : Eq K⦄ where
  unfoldable pub peek_one : Option (K × V) → K → Option V
  peek_one none j = none
  peek_one (some (k, v)) j = if j == k then some v else none

  pub peek_one-insert :
      (c : Option (K × V)) (k : K) (v : V) (j : K) (w : V)
      → peek_one (some (k, v)) j ≡ some w
      → ((j ≡ k) × (w ≡ v)) ⊎ (peek_one c j ≡ some w)
  unfolding peek_one
  peek_one-insert c k v j w h = ground (arith, ==_iff j k)

  -- A cache of capacity one.
  abbrev pub one_entry : LruCache K V
  one_entry = record {
    Cache = Option (K × V);
    peek = peek_one;
    get_mut = λ c k. (peek_one c k, c);
    insert = λ c k v. some (k, v);
    get_mut-peek = λ c k. refl;
    peek-get_mut = λ c k j. refl;
    peek-insert = peek_one-insert;
  }
