-- ===== src/Users/ToDevice.antt =====
-- remove_to_device_events removes exactly the events of the device up to a count.
use mathlib.Core.List.{reverse}
use grapevine.Prelude.{
  ℕ, ◌-◌, ◌<◌, Bool, true, false, ◌&&◌, List, [], ◌∷◌, ◌++◌, none, some, ◌==◌, ==_refl, List-Eq,
  ℕ-Eq, leb, length, drop, take_while, filter, All, All-filter, All-reverse, All-filter-holds,
  All-map, if◌then◌else◌, ◌≡◌, refl, sym, ap, subst, ◌∙◌, arith, length-append, drop-append_length,
  Bool-cases, inl, inr,
}
use grapevine.Utils.{Bytes, u64_mod, to_be_bytes, starts_with}
use grapevine.Utils.Laws.{u64_from_bytes-to_be_bytes, length-to_be_bytes}
use grapevine.Utils.BigEndian.{bytes_le-to_be_bytes}
use grapevine.Database.Order.{Entry, bytes_le, bytes_le-append, page-backwards}
use grapevine.Database.Tree.{KvTree, find, iter_page, remove_entries, get-remove_entries}
use grapevine.Database.Find.{find-page, find-filter_key}
use grapevine.Users.{Users, todevice_prefix, up_to, counted, remove_to_device_events}

-- What holds of each key that is found holds of each entry.
All-found :
    (P : Bytes → Type 0) (l : List Entry)
    → ((key v : Bytes) → find key l ≡ some v → P key)
    → All (λ e. P e.0) l
unfolding find
All-found P [] h = tt
All-found P ((key, v) ∷ l) h = (
  h key v (ground (arith, ==_refl key)),
  All-found P l (λ j w found. elim (Bool-cases (j == key)) [
    | inl same ↦ h j v (ground arith)
    | inr differs ↦ h j w (ground arith)
  ]),
)

All-both : (P Q : Entry → Type 0) (l : List Entry) → All P l → All Q l → All (λ e. P e × Q e) l
All-both P Q [] h k = tt
All-both P Q (e ∷ l) (hp, h) (kq, k) = ((hp, kq), All-both P Q l h k)

module _ (E : KvTree) where
  all_taken :
      (until : ℕ) (l : List Entry)
      → All (λ e. up_to E until e ≡ true) l
      → take_while (up_to E until) (counted E l) ≡ l
  unfolding counted up_to take_while
  all_taken until [] h = refl
  all_taken until ((key, v) ∷ l) (first, h) = ground (arith, first, all_taken until l h)

  module _ (s : Users E) (user device : Bytes) (until : ℕ) (below : until < u64_mod)
      (stored : (key v : Bytes)
        → E.get s.todeviceid_events key ≡ some v
        → starts_with (todevice_prefix user device) key ≡ true
        → (c : ℕ) × (c < u64_mod) × (key ≡ todevice_prefix user device ++ to_be_bytes c)) where
    up_to-key :
        (key : Bytes)
        → (starts_with (todevice_prefix user device) key ≡ true
            → (c : ℕ) × (c < u64_mod) × (key ≡ todevice_prefix user device ++ to_be_bytes c))
        → (starts_with (todevice_prefix user device) key
            && bytes_le key (todevice_prefix user device ++ to_be_bytes until))
          ≡ true
        → (v : Bytes) → up_to E until (key, v) ≡ true
    unfolding up_to
    up_to-key key form holds v =
        let (c, c_below, is) = form (ground arith) in
        let p = todevice_prefix user device in
        let size : length key - 8 ≡ length p =
          ground (arith, ap length is, length-append p (to_be_bytes c), length-to_be_bytes c) in
        let last : drop (length key - 8) key ≡ to_be_bytes c =
          ap (λ n. drop n key) size
          ∙ ap (drop (length p)) is
          ∙ drop-append_length p (to_be_bytes c) in
        ground (
          arith,
          last,
          u64_from_bytes-to_be_bytes c c_below,
          ap (λ k. bytes_le k (p ++ to_be_bytes until)) is,
          bytes_le-append p (to_be_bytes c) (to_be_bytes until),
          bytes_le-to_be_bytes c until c_below below,
        )

    removed : List Entry
    removed = iter_page E s.todeviceid_events (todevice_prefix user device) (to_be_bytes until) true

    removed-All : All (λ e. up_to E until e ≡ true) removed
    unfolding removed iter_page
    removed-All =
        let p = todevice_prefix user device in
        let t = s.todeviceid_events in
        let test : Bytes → Bool = λ k. starts_with p k && bytes_le k (p ++ to_be_bytes until) in
        let form : Entry → Type 0 =
          λ e. starts_with p e.0 ≡ true → (c : ℕ) × (c < u64_mod) × (e.0 ≡ p ++ to_be_bytes c) in
        subst (All (λ e. up_to E until e ≡ true))
          (sym (page-backwards (E.iter t) (E.iter-IsSorted t) p (to_be_bytes until)))
          (All-map (filter (λ e. test e.0) (reverse (E.iter t)))
            (λ e both. up_to-key e.0 both.0 both.1 e.1)
            (All-both form (λ e. test e.0 ≡ true) (filter (λ e. test e.0) (reverse (E.iter t)))
              (All-filter form (λ e. test e.0) (reverse (E.iter t))
                (All-reverse form (E.iter t) (
                  All-found
                    (λ k.
                      starts_with p k ≡ true → (c : ℕ) × (c < u64_mod) × (k ≡ p ++ to_be_bytes c))
                    (E.iter t) (λ key v found. stored key v (sym (E.find-iter t key) ∙ found)))))
              (All-filter-holds (λ e. test e.0) (reverse (E.iter t)))))

    -- When the events of a device stand under their counts, remove_to_device_events removes exactly
    -- those up to the count that it is given, and nothing that is not for the device.
    pub remove_to_device_events_lem :
        ((c : ℕ)
          → c < u64_mod
          → E.get
              (remove_to_device_events E s user device until).todeviceid_events
              (todevice_prefix user device ++ to_be_bytes c)
            ≡ (if leb c until
                then none
                else E.get s.todeviceid_events (todevice_prefix user device ++ to_be_bytes c)))
        × ((key : Bytes)
            → starts_with (todevice_prefix user device) key ≡ false
            → E.get (remove_to_device_events E s user device until).todeviceid_events key
              ≡ E.get s.todeviceid_events key)
    unfolding remove_to_device_events removed iter_page
    remove_to_device_events_lem =
        let p = todevice_prefix user device in
        let t = s.todeviceid_events in
        let all = all_taken until removed removed-All in
        (
          λ c c_below.
              ap (λ l. E.get (remove_entries E l t) (p ++ to_be_bytes c)) all
              ∙ get-remove_entries E removed t (p ++ to_be_bytes c)
              ∙ ground (
                arith,
                find-page E t p (to_be_bytes until) (to_be_bytes c) true,
                bytes_le-to_be_bytes c until c_below below,
              ),
          λ key other.
              ap (λ l. E.get (remove_entries E l t) key) all
              ∙ get-remove_entries E removed t key
              ∙ ground (
                arith,
                ap (find key) (page-backwards (E.iter t) (E.iter-IsSorted t) p (to_be_bytes until)),
                find-filter_key (λ k. starts_with p k && bytes_le k (p ++ to_be_bytes until))
                    (reverse (E.iter t)) key,
              ),
        )
