-- ===== src/Sending/Exclusion.antt =====
-- At most one transaction at a time goes to a destination, whatever the order of requests and
-- responses.
use grapevine.Prelude.{
  ℕ, suc, ◌+◌, Bool, true, false, List, [], ◌∷◌, ◌++◌, Option, none, some, Result, ◌≡◌, refl, arith,
  sym, ap, if◌then◌else◌, ◌==◌, ==_iff, ==_refl, Option-cases, inl, inr, Bool-cases, ◌||◌,
}
use grapevine.Utils.{Bytes}
use grapevine.HashMap.{get, insert, get-insert, get-remove}
use grapevine.Database.Tree.{KvTree}
use grapevine.Sending.{Destination, SendingEvent, Ruma}
use grapevine.Sending.Handler.{
  Destination-Eq, TransactionStatus, running, failed, retrying, admit, after_failure,
  handle_response, handle_receiver,
}
use grapevine.Sending.System.{System, received, responded, Step, receive, respond}

-- How many futures go to the destination.
unfoldable pub count : Destination → List Destination → ℕ
count d [] = 0
count d (e ∷ es) = if d == e then suc (count d es) else count d es

-- Whether the status is that of a transaction under way.
unfoldable pub is_under_way : Option TransactionStatus → Bool
is_under_way none = false
is_under_way (some running) = true
is_under_way (some (retrying n)) = true
is_under_way (some (failed n time)) = false

count-append :
    (d : Destination) (xs ys : List Destination) → count d (xs ++ ys) ≡ count d xs + count d ys
unfolding count
count-append d [] ys = omega arith
count-append d (x ∷ xs) ys = ground (arith, count-append d xs ys)

module _ (E : KvTree) (R : Ruma) where
  -- One future for each destination whose transaction is under way, and no other.
  pub record IsExclusive (s : System E R) : Type 0 where
    pub one :
        (d : Destination)
        → count d s.in_flight ≡ (if is_under_way (get d s.sender.status) then 1 else 0)

  module _ (now : ℕ) (edus : Result (List Bytes × ℕ)) (s : System E R) (d : Destination)
      (event : SendingEvent) (key : Bytes) where
    abbrev admitted : Bool × Bool × TransactionStatus
    admitted = admit now (get d s.sender.status)

    received_status :
        (received E R now edus s d event key).sender.status ≡ insert d admitted.2 s.sender.status
    unfolding received handle_receiver
    received_status = ground arith

    received_flight :
        (received E R now edus s d event key).in_flight
        ≡ (if admitted.0 then d ∷ s.in_flight else s.in_flight)
    unfolding received handle_receiver
    received_flight = ground arith

  admit_under_way :
      (now : ℕ) (o : Option TransactionStatus)
      → is_under_way (some (admit now o).2) ≡ ((admit now o).0 || is_under_way o)
  unfolding admit is_under_way
  admit_under_way now none = refl
  admit_under_way now (some running) = refl
  admit_under_way now (some (retrying n)) = refl
  admit_under_way now (some (failed n time)) = ground arith

  admit_idle :
      (now : ℕ) (o : Option TransactionStatus) → (admit now o).0 ≡ true → is_under_way o ≡ false
  unfolding admit is_under_way
  admit_idle now none h = refl
  admit_idle now (some running) h = sym h
  admit_idle now (some (retrying n)) h = sym h
  admit_idle now (some (failed n time)) h = refl

  -- A request starts a future exactly if no transaction was under way and none failed too lately;
  -- then one is under way.
  received-IsExclusive :
      (now : ℕ) (edus : Result (List Bytes × ℕ)) (s : System E R) (d : Destination)
      (event : SendingEvent) (key : Bytes)
      → IsExclusive s
      → IsExclusive (received E R now edus s d event key)
  unfolding count
  received-IsExclusive now edus s d event key h = record {
    one = λ e.
        rw (received_flight now edus s d event key, received_status now edus s d event key)
          (ground (
            arith,
            h.one e,
            get-insert s.sender.status d (admit now (get d s.sender.status)).2 e,
            admit_under_way now (get d s.sender.status),
            admit_idle now (get d s.sender.status),
            ==_iff d e,
            ==_iff e d,
          ));
  }

  module _ (now : ℕ) (s : System E R) (d : Destination) (before after : List Destination)
      (split : s.in_flight ≡ before ++ d ∷ after) (h : IsExclusive s) where
    -- The future that ends was under way, and was the only one to its destination.
    ended-under_way :
        (is_under_way (get d s.sender.status) ≡ true) × (count d (before ++ after) ≡ 0)
    unfolding count
    ended-under_way = ground (
      arith,
      h.one d,
      ap (count d) split,
      count-append d before (d ∷ after),
      count-append d before after,
      ==_refl d,
    )

    others : (e : Destination) → (e == d) ≡ false → count e (before ++ after) ≡ count e s.in_flight
    unfolding count
    others e ne =
        ground (
          arith,
          ap (count e) split,
          count-append e before (d ∷ after),
          count-append e before after,
        )

    -- What the response leaves for the destination: a future exactly if its status is under way.
    responded_self :
        (done : Bool)
        → count d (responded E R now s d done (before ++ after)).in_flight ≡ (
            if is_under_way (get d (responded E R now s d done (before ++ after)).sender.status)
            then 1
            else 0)
    unfolding responded handle_response count is_under_way
    responded_self false = elim (Option-cases (get d s.sender.status)) [
      | inl absent ↦ absurd (ground (arith, ended-under_way.0))
      | inr (old, found) ↦ ground (
        arith,
        ended-under_way.0,
        ended-under_way.1,
        get-insert s.sender.status d (after_failure now old) d,
        ==_refl d,
      )
    ]
    responded_self true =
        ground
          (arith, ended-under_way.0, ended-under_way.1, get-remove s.sender.status d d, ==_refl d)

    responded_other :
        (done : Bool) (e : Destination)
        → (e == d) ≡ false
        → count e (responded E R now s d done (before ++ after)).in_flight ≡ (
            if is_under_way (get e (responded E R now s d done (before ++ after)).sender.status)
            then 1
            else 0)
    unfolding responded handle_response count
    responded_other false e ne = elim (Option-cases (get d s.sender.status)) [
      | inl absent ↦ ground (arith, others e ne, h.one e)
      | inr (old, found) ↦ ground (
        arith,
        others e ne,
        h.one e,
        get-insert s.sender.status d (after_failure now old) e,
        ==_iff d e,
        ==_iff e d,
      )
    ]
    responded_other true e ne =
        ground (arith, others e ne, h.one e, get-remove s.sender.status d e, ==_iff d e, ==_iff e d)

    -- A response leaves one future for each transaction under way.
    responded-IsExclusive :
        (done : Bool) → IsExclusive (responded E R now s d done (before ++ after))
    responded-IsExclusive done = record {
      one = λ e. elim (Bool-cases (e == d)) [
        | inl same ↦ rw ((==_iff e d).0 same) (responded_self done)
        | inr other ↦ responded_other done e other
      ];
    }

  pub Step-IsExclusive : {s t : System E R} → Step E R s t → IsExclusive s → IsExclusive t
  Step-IsExclusive (receive s now edus d event key) h =
      received-IsExclusive now edus s d event key h
  Step-IsExclusive (respond s now d done before after split) h =
      responded-IsExclusive now s d before after split h done
