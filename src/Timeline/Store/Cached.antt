-- ===== src/Timeline/Store/Cached.antt =====
-- The cache of events says what the trees say.
use grapevine.Prelude.{
  Option, none, some, Result, ok, err, ◌≡◌, refl, arith, inl, inr, Option-cases, ◌∙◌,
}
use grapevine.Utils.{Bytes}
use grapevine.LruCache.{LruCache}
use grapevine.Database.Tree.{KvTree}
use grapevine.Timeline.Store.{Events, Timeline, get_pdu, get_pdu_in_db, get_non_outlier_pdu}

module _ (E : KvTree) (V : Events) (C : LruCache Bytes V.Pdu) where
  pub record IsCoherent (s : Timeline E V C) : Type 0 where
    pub cached :
        (id : Bytes) (pdu : V.Pdu)
        → C.peek s.pdu_cache id ≡ some pdu
        → get_pdu_in_db E V C s id ≡ ok (some pdu)

  -- The trees are read without the cache.
  pub another_cache :
      (s : Timeline E V C) (cache : C.Cache) (id : Bytes)
      → get_pdu_in_db E V C (record s { pdu_cache = cache }) id ≡ get_pdu_in_db E V C s id
  unfolding get_pdu_in_db get_non_outlier_pdu
  another_cache s cache id = refl

  -- The answer is that of the trees, and the new cache says what they say.
  answered :
      (s : Timeline E V C) (id : Bytes)
      → IsCoherent s
      → C.peek s.pdu_cache id ≡ none
      → (r : Result (Option V.Pdu)) → get_pdu_in_db E V C s id ≡ r
      → (cache : C.Cache) × (get_pdu E V C s id ≡ (r, record s { pdu_cache = cache }))
        × ((j : Bytes) (pdu : V.Pdu)
            → C.peek cache j ≡ some pdu
            → get_pdu_in_db E V C s j ≡ ok (some pdu))
  unfolding get_pdu
  answered s id c missed (err e) is = (
    (C.get_mut s.pdu_cache id).1,
    ground (arith, C.get_mut-peek s.pdu_cache id, missed, is),
    λ j pdu hit. ground (arith, C.peek-get_mut s.pdu_cache id j, c.cached j pdu),
  )
  answered s id c missed (ok none) is = (
    (C.get_mut s.pdu_cache id).1,
    ground (arith, C.get_mut-peek s.pdu_cache id, missed, is),
    λ j pdu hit. ground (arith, C.peek-get_mut s.pdu_cache id j, c.cached j pdu),
  )
  answered s id c missed (ok (some found)) is = (
    C.insert (C.get_mut s.pdu_cache id).1 id found,
    ground (arith, C.get_mut-peek s.pdu_cache id, missed, is),
    λ j pdu hit. elim (C.peek-insert (C.get_mut s.pdu_cache id).1 id found j pdu hit) [
      | inl (same, value) ↦ ground (arith, is)
      | inr old ↦ ground (arith, C.peek-get_mut s.pdu_cache id j, c.cached j pdu)
    ],
  )

  -- get_pdu answers what the trees have, keeps the cache coherent, and changes nothing but the cache.
  pub get_pdu_lem :
      (s : Timeline E V C) (id : Bytes)
      → IsCoherent s
      → (cache : C.Cache) × (get_pdu E V C s id
          ≡ (get_pdu_in_db E V C s id, record s { pdu_cache = cache }))
        × IsCoherent (record s { pdu_cache = cache })
  get_pdu_lem s id c = elim (Option-cases (C.peek s.pdu_cache id)) [
    | inr (pdu, hit) ↦ (
      (C.get_mut s.pdu_cache id).1,
      unfold get_pdu in ground (arith, C.get_mut-peek s.pdu_cache id, hit, c.cached id pdu hit),
      record {
        cached = λ j w seen.
            another_cache s (C.get_mut s.pdu_cache id).1 j
            ∙ ground (arith, C.peek-get_mut s.pdu_cache id j, c.cached j w);
      },
    )
    | inl missed ↦
        let (cache, is, says) = answered s id c missed (get_pdu_in_db E V C s id) refl in
        (cache, is, record { cached = λ j pdu hit. another_cache s cache j ∙ says j pdu hit })
  ]
