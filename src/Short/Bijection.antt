-- ===== src/Short/Bijection.antt =====
-- A key has one number, and a number one key, whatever is created.
use grapevine.Prelude.{
  ℕ, ◌<◌, ◌≤◌, ◌+◌, none, some, ok, ◌==◌, ==_iff, ==_refl, List-Eq, ℕ-Eq, ◌≡◌, ◌≢◌, refl, arith,
  Option-cases, Bool-cases, inl, inr, nat_eq,
}
use grapevine.Utils.{Bytes, to_be_bytes, u64_mod}
use grapevine.Utils.Laws.{u64_from_bytes-to_be_bytes, to_be_bytes-injective}
use grapevine.Database.Tree.{KvTree}
use grapevine.Globals.{current_count}
use grapevine.Globals.Counter.{next_count-current_count}
use grapevine.Short.{ShortTrees, stored_short, get_or_create}

module _ (E : KvTree) where
  -- The key has the number.
  abbrev pub HasShort : E.Tree → Bytes → ℕ → Type 0
  HasShort t key n = E.get t key ≡ some (to_be_bytes n)

  -- The two trees are inverse to each other, and their numbers have been handed out.
  pub record IsBijection (count : ℕ) (s : ShortTrees E) : Type 0 where
    pub counted : current_count E s.global ≡ ok count
    pub there :
        (key bytes : Bytes)
        → E.get s.forward key ≡ some bytes
        → (n : ℕ) × (n ≤ count)
          × (n < u64_mod)
          × (bytes ≡ to_be_bytes n)
          × (E.get s.backward bytes ≡ some key)
    pub back :
        (n : ℕ) (key : Bytes)
        → n < u64_mod
        → E.get s.backward (to_be_bytes n) ≡ some key
        → (n ≤ count) × HasShort s.forward key n

  -- What get_or_create comes to: the number and the new trees.
  pub record IsCreated (count : ℕ) (s : ShortTrees E) (key : Bytes) (n : ℕ) (t : ShortTrees E)
      : Type 0 where
    pub count' : ℕ
    pub counts : count' ≤ count + 1
    pub once : (bytes : Bytes) → E.get s.forward key ≡ some bytes → count' ≡ count
    pub below : n < u64_mod
    pub result : get_or_create E s key ≡ ok (n, t)
    pub still : IsBijection count' t
    pub has_short : HasShort t.forward key n
    pub has_key : E.get t.backward (to_be_bytes n) ≡ some key
    pub keeps :
        (other bytes : Bytes)
        → E.get s.forward other ≡ some bytes
        → E.get t.forward other ≡ some bytes
    pub others : (other : Bytes) → key ≢ other → E.get t.forward other ≡ E.get s.forward other
    pub keeps_keys :
        (m : ℕ) (other : Bytes)
        → m < u64_mod
        → E.get s.backward (to_be_bytes m) ≡ some other
        → E.get t.backward (to_be_bytes m) ≡ some other

  module _ (count : ℕ) (s : ShortTrees E) (key : Bytes) (b : IsBijection count s) where
    found : (bytes : Bytes) → E.get s.forward key ≡ some bytes → (n : ℕ) × IsCreated count s key n s
    unfolding get_or_create stored_short
    found bytes has =
        let (n, handed_out, below, is, has_key) = b.there key bytes has in
        (
          n,
          record {
            count' = count;
            counts = omega arith;
            once = λ other has_other. refl;
            below = below;
            result = ground (arith, has, u64_from_bytes-to_be_bytes n);
            still = b;
            has_short = cc;
            has_key = cc;
            keeps = λ other bytes has_short. has_short;
            others = λ other differs. refl;
            keeps_keys = λ m other m_below is_back. is_back;
          },
        )

    -- The trees with a new number for a new key.
    with_new :
        E.get s.forward key ≡ none
        → count + 1 < u64_mod
        → (global : E.Tree) → current_count E global ≡ ok (count + 1)
        → IsBijection (count + 1) record {
          forward = E.insert s.forward key (to_be_bytes (count + 1));
          backward = E.insert s.backward (to_be_bytes (count + 1)) key;
          global = global;
        }
    with_new missing room global now =
        let n = count + 1 in
        record {
          counted = now;
          there = λ other bytes has. elim (Bool-cases (key == other)) [
            | inl same ↦ (
              n,
              omega arith,
              room,
              ground (arith, E.get-insert s.forward key (to_be_bytes n) other),
              ground (
                arith,
                E.get-insert s.forward key (to_be_bytes n) other,
                E.get-insert s.backward (to_be_bytes n) key bytes,
                ==_iff key other,
                ==_iff (to_be_bytes n) bytes,
              ),
            )
            | inr differs ↦
                let old : E.get s.forward other ≡ some bytes =
                  ground (arith, E.get-insert s.forward key (to_be_bytes n) other) in
                let (m, handed_out, below, is, has_key) = b.there other bytes old in
                (
                  m,
                  omega (arith, handed_out),
                  below,
                  is,
                  ground (
                    arith,
                    E.get-insert s.backward (to_be_bytes n) key bytes,
                    ==_iff (to_be_bytes n) bytes,
                    to_be_bytes-injective n m room below,
                  ),
                )
          ];
          back = λ m other m_below is_back. elim (Bool-cases (nat_eq n m)) [
            | inl same ↦ ground (
              arith,
              E.get-insert s.backward (to_be_bytes n) key (to_be_bytes m),
              E.get-insert s.forward key (to_be_bytes n) other,
              ==_iff (to_be_bytes n) (to_be_bytes m),
              ==_iff key other,
            )
            | inr differs ↦ ground (
              arith,
              E.get-insert s.backward (to_be_bytes n) key (to_be_bytes m),
              E.get-insert s.forward key (to_be_bytes n) other,
              ==_iff (to_be_bytes n) (to_be_bytes m),
              ==_iff key other,
              to_be_bytes-injective n m room m_below,
              b.back m other m_below,
            )
          ];
        }

    created :
        E.get s.forward key ≡ none
        → count + 1 < u64_mod
        → (t : ShortTrees E) × IsCreated count s key (count + 1) t
    unfolding get_or_create stored_short
    created missing room =
        let (global, counts, now) = next_count-current_count E s.global count b.counted room in
        let n = count + 1 in
        let t : ShortTrees E = record {
          forward = E.insert s.forward key (to_be_bytes n);
          backward = E.insert s.backward (to_be_bytes n) key;
          global = global;
        } in
        (
          t,
          record {
            count' = n;
            counts = omega arith;
            once = λ bytes has. cc;
            below = room;
            result = ground (arith, missing, counts);
            still = with_new missing room global now;
            has_short = ground (arith, E.get-insert s.forward key (to_be_bytes n) key, ==_refl key);
            has_key = ground (
              arith,
              E.get-insert s.backward (to_be_bytes n) key (to_be_bytes n),
              ==_refl (to_be_bytes n),
            );
            keeps = λ other bytes has.
                ground (arith, E.get-insert s.forward key (to_be_bytes n) other, ==_iff key other);
            others = λ other differs.
                ground (arith, E.get-insert s.forward key (to_be_bytes n) other, ==_iff key other);
            keeps_keys = λ m other m_below is_back. ground (
              arith,
              E.get-insert s.backward (to_be_bytes n) key (to_be_bytes m),
              ==_iff (to_be_bytes n) (to_be_bytes m),
              to_be_bytes-injective n m room m_below,
              b.back m other m_below is_back,
            );
          },
        )

    -- On inverse trees with a counter that can count on, get_or_create succeeds.
    pub get_or_create-IsCreated :
        count + 1 < u64_mod → (n : ℕ) × (t : ShortTrees E) × IsCreated count s key n t
    get_or_create-IsCreated room = elim (Option-cases (E.get s.forward key)) [
      | inl missing ↦ let (t, is) = created missing room in (count + 1, t, is)
      | inr (bytes, has) ↦ let (n, is) = found bytes has in (n, s, is)
    ]

  -- Two keys with one number are one key.
  pub HasShort-injective :
      (count : ℕ) (s : ShortTrees E) (a b : Bytes) (n : ℕ)
      → IsBijection count s
      → HasShort s.forward a n
      → HasShort s.forward b n
      → a ≡ b
  HasShort-injective count s a b n bijection of_a of_b =
      let (m, m_out, m_below, m_is, back_a) = bijection.there a (to_be_bytes n) of_a in
      let (k, k_out, k_below, k_is, back_b) = bijection.there b (to_be_bytes n) of_b in
      ground (arith, back_a, back_b)
