-- ===== src/Short/Cached.antt =====
-- Numbers of keys with the caches in front of the trees: a number gives its key back.
use grapevine.Prelude.{
  ℕ, ◌<◌, ◌≤◌, ◌+◌, some, Result, ok, ◌≡◌, ◌≢◌, refl, arith, Option-cases, inl, inr,
}
use grapevine.Utils.{Bytes, to_be_bytes, u64_mod}
use grapevine.Utils.Laws.{u64_from_bytes-to_be_bytes, to_be_bytes-injective}
use grapevine.LruCache.{LruCache}
use grapevine.Database.Tree.{KvTree}
use grapevine.Short.{
  ShortTrees, stored_short, Shorts, get_short, get_or_create_short, key_of, get_from_short,
}
use grapevine.Short.Bijection.{HasShort, IsBijection, IsCreated, get_or_create-IsCreated}

module _ (E : KvTree) {K : Type 0} (db_key : K → Bytes) (read_key : Bytes → Result K)
    (C : LruCache K ℕ) (D : LruCache ℕ K) where
  -- The caches say nothing but what the trees say.
  pub record IsSound (count : ℕ) (s : Shorts E db_key read_key C D) : Type 0 where
    pub bijection : IsBijection E count s.trees
    pub cached :
        (key : K) (n : ℕ)
        → C.peek s.short_cache key ≡ some n
        → (n < u64_mod) × HasShort E s.trees.forward (db_key key) n
    pub cached_back :
        (n : ℕ) (key : K)
        → n < u64_mod
        → D.peek s.key_cache n ≡ some key
        → (bytes : Bytes) × (E.get s.trees.backward (to_be_bytes n) ≡ some bytes)
          × (read_key bytes ≡ ok key)

  -- The key has the number, which gives it back.
  pub record IsNumbered (count : ℕ) (key : K) (n : ℕ) (s : Shorts E db_key read_key C D)
      : Type 0 where
    pub sound : IsSound count s
    pub has_short : HasShort E s.trees.forward (db_key key) n
    pub gives_short : (get_short E db_key read_key C D s key).0 ≡ ok (some n)
    pub gives_key : (get_from_short E db_key read_key C D s n).0 ≡ ok key

  module _ (count : ℕ) (s : Shorts E db_key read_key C D) (sound : IsSound count s) where
    gives_number :
        (key : K) (n : ℕ)
        → n < u64_mod
        → HasShort E s.trees.forward (db_key key) n
        → (get_short E db_key read_key C D s key).0 ≡ ok (some n)
    unfolding get_short stored_short
    gives_number key n below has = elim (Option-cases (C.peek s.short_cache key)) [
      | inl missed ↦
          ground (
            arith,
            C.get_mut-peek s.short_cache key,
            missed,
            has,
            u64_from_bytes-to_be_bytes n below,
          )
      | inr (m, hit) ↦
          let (m_below, had) = sound.cached key m hit in
          ground (
            arith,
            C.get_mut-peek s.short_cache key,
            hit,
            had,
            has,
            to_be_bytes-injective m n m_below below,
          )
    ]

    gives_key_back :
        (key : K) (n : ℕ)
        → n < u64_mod
        → read_key (db_key key) ≡ ok key
        → E.get s.trees.backward (to_be_bytes n) ≡ some (db_key key)
        → (get_from_short E db_key read_key C D s n).0 ≡ ok key
    unfolding get_from_short key_of
    gives_key_back key n below reads back = elim (Option-cases (D.peek s.key_cache n)) [
      | inl missed ↦ ground (arith, D.get_mut-peek s.key_cache n, missed, reads)
      | inr (other, hit) ↦
          let (bytes, is_back, is_read) = sound.cached_back n other below hit in
          ground (arith, D.get_mut-peek s.key_cache n, hit)
    ]

    -- A look into the cache changes only the order of use.
    looked : K → Shorts E db_key read_key C D
    looked key = record s { short_cache = (C.get_mut s.short_cache key).1 }

    looked-IsSound : (key : K) → IsSound count (looked key)
    unfolding looked
    looked-IsSound key = record {
      bijection = sound.bijection;
      cached = λ other n hit.
          ground (arith, C.peek-get_mut s.short_cache key other, sound.cached other n);
      cached_back = sound.cached_back;
    }

    -- The state with a number that was created.
    with_created : K → ℕ → ShortTrees E → Shorts E db_key read_key C D
    unfolding looked
    with_created key n trees = record (looked key) {
      trees = trees;
      short_cache = C.insert (looked key).short_cache key n;
    }

    created-IsSound :
        (key : K) (n : ℕ) (trees : ShortTrees E)
        → (is : IsCreated E count s.trees (db_key key) n trees)
        → IsSound is.count' (with_created key n trees)
    unfolding with_created
    created-IsSound key n trees is = record {
      bijection = is.still;
      cached = λ other m hit. elim (C.peek-insert (looked key).short_cache key n other m hit) [
        | inl (same, number) ↦ ground (arith, is.below, is.has_short)
        | inr old ↦
            let before : C.peek s.short_cache other ≡ some m =
              ground (arith, C.peek-get_mut s.short_cache key other) in
            let (below, had) = sound.cached other m before in
            (below, is.keeps (db_key other) (to_be_bytes m) had)
      ];
      cached_back = λ m other below hit.
          let (bytes, is_back, is_read) = sound.cached_back m other below hit in
          (bytes, is.keeps_keys m bytes below is_back, is_read);
    }

  -- What get_or_create_short comes to.
  pub record IsNew (count : ℕ) (s : Shorts E db_key read_key C D) (key : K) (n : ℕ)
      (t : Shorts E db_key read_key C D) : Type 0 where
    pub result : get_or_create_short E db_key read_key C D s key ≡ (ok n, t)
    pub below : n < u64_mod
    pub count' : ℕ
    pub counts : count' ≤ count + 1
    pub once : (bytes : Bytes) → E.get s.trees.forward (db_key key) ≡ some bytes → count' ≡ count
    pub numbered : IsNumbered count' key n t
    pub keeps :
        (other bytes : Bytes)
        → E.get s.trees.forward other ≡ some bytes
        → E.get t.trees.forward other ≡ some bytes
    pub others :
        (other : Bytes)
        → db_key key ≢ other
        → E.get t.trees.forward other ≡ E.get s.trees.forward other

  -- On a sound state with a counter that can count on, get_or_create_short of a key that can be read
  -- back succeeds: the key has the number, the number gives it back, and whatever had a number before
  -- keeps it.
  pub get_or_create_short-IsNew :
      (count : ℕ) (s : Shorts E db_key read_key C D) (sound : IsSound count s) (key : K)
      → count + 1 < u64_mod
      → read_key (db_key key) ≡ ok key
      → (n : ℕ) × (t : Shorts E db_key read_key C D) × IsNew count s key n t
  unfolding get_or_create_short looked with_created
  get_or_create_short-IsNew count s sound key room reads =
      elim (Option-cases (C.peek s.short_cache key)) [
        | inr (n, hit) ↦
            let (below, has) = sound.cached key n hit in
            let (m, handed_out, m_below, is, back) =
              sound.bijection.there (db_key key) (to_be_bytes n) has in
            let t = looked count s sound key in
            let still = looked-IsSound count s sound key in
            (
              n,
              t,
              record {
                result = ground (arith, C.get_mut-peek s.short_cache key, hit);
                below = below;
                count' = count;
                counts = omega arith;
                once = λ bytes had. refl;
                numbered = record {
                  sound = still;
                  has_short = has;
                  gives_short = gives_number count t still key n below has;
                  gives_key = gives_key_back count t still key n below reads back;
                };
                keeps = λ other bytes had. had;
                others = λ other differs. refl;
              },
            )
        | inl missed ↦
            let (n, trees, is) =
              get_or_create-IsCreated E count s.trees (db_key key) sound.bijection room in
            let t = with_created count s sound key n trees in
            let still : IsSound is.count' t = created-IsSound count s sound key n trees is in
            (
              n,
              t,
              record {
                result = ground (arith, C.get_mut-peek s.short_cache key, missed, is.result);
                below = is.below;
                count' = is.count';
                counts = is.counts;
                once = is.once;
                numbered = record {
                  sound = still;
                  has_short = is.has_short;
                  gives_short = gives_number is.count' t still key n is.below is.has_short;
                  gives_key = gives_key_back is.count' t still key n is.below reads is.has_key;
                };
                keeps = is.keeps;
                others = is.others;
              },
            )
      ]
