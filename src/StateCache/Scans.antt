-- ===== src/StateCache/Scans.antt =====
-- The names that a scan of one part yields.
use grapevine.Prelude.{
  Bool, true, false, List, [], ◌∷◌, map, none, some, ok, ◌==◌, ==_refl, List-Eq, ℕ-Eq, ◌≡◌, refl,
  sym, ap, subst, ◌∙◌, arith, Bool-cases, inl, inr,
}
use grapevine.Utils.{Bytes}
use grapevine.Utils.Utf8.{is_utf8, is_utf8_no_ff, string_from_bytes}
use grapevine.HashSet.{contains, Nodup}
use grapevine.Database.Order.{IsSorted}
use grapevine.Database.Find.{find_above}
use grapevine.Database.Tree.{find}
use grapevine.Database.Parts.{part, IsPart, same-part}
use grapevine.StateCache.{last_part, name_of, oks}

contains_separator : (s t : Bytes) → contains 0xff (part s t) ≡ true
unfolding contains
contains_separator [] t = refl
contains_separator (y ∷ s) t = ground (arith, contains_separator s t)

-- What stands behind the last separator is the last part.
pub last_part-part : (a b : Bytes) → IsPart b → last_part (part a b) ≡ b
unfolding last_part contains
last_part-part [] b h = ground arith
last_part-part (x ∷ a) b h = ground (arith, last_part-part a b h, contains_separator a b)

-- A name that the code can read back.
abbrev pub IsName : (Bytes → Bool) → Bytes → Type 0
IsName valid name = (is_utf8 name ≡ true) × (valid name ≡ true)

pub name_of-part :
    (valid : Bytes → Bool) (a name v : Bytes)
    → IsName valid name
    → name_of valid (part a name, v) ≡ ok name
unfolding name_of string_from_bytes
name_of-part valid a name v h = ground (arith, last_part-part a name, is_utf8_no_ff name)

-- Each key of the entries is the part with a name.
abbrev pub AreNames : (Bytes → Bool) → Bytes → List (Bytes × Bytes) → Type 0
AreNames valid a l =
    (key v : Bytes) → find key l ≡ some v → (name : Bytes) × (key ≡ part a name) × IsName valid name

module _ (valid : Bytes → Bool) (a : Bytes) (a_part : IsPart a) where
  pub contains-oks :
      (l : List (Bytes × Bytes)) (name : Bytes)
      → AreNames valid a l
      → contains name (oks (map (name_of valid) l))
        ≡ elim (find (part a name) l) [ none ↦ false | some _ ↦ true ]
  unfolding contains oks find
  contains-oks [] name are = refl
  contains-oks ((key, v) ∷ l) name are =
      let (first, is, first_name) = are key v (ground (arith, ==_refl key)) in
      let rest : AreNames valid a l = λ j w h. elim (Bool-cases (j == key)) [
        | inl same ↦ are j v (ground arith)
        | inr differs ↦ are j w (ground arith)
      ] in
      ground (
        arith,
        contains-oks l name rest,
        is,
        name_of-part valid a first v first_name,
        same-part a a name first a_part a_part,
        ==_refl a,
      )

  -- Entries in order have each name once.
  pub Nodup-oks :
      (l : List (Bytes × Bytes))
      → IsSorted l
      → AreNames valid a l
      → Nodup (oks (map (name_of valid) l))
  unfolding oks find
  Nodup-oks [] sorted are = tt
  Nodup-oks ((key, v) ∷ l) (first, sorted) are =
      let (name, is, is_name) = are key v (ground (arith, ==_refl key)) in
      let rest : AreNames valid a l = λ j w h. elim (Bool-cases (j == key)) [
        | inl same ↦ are j v (ground arith)
        | inr differs ↦ are j w (ground arith)
      ] in
      let reads : name_of valid (key, v) ≡ ok name =
        ap (λ k. name_of valid (k, v)) is ∙ name_of-part valid a name v is_name in
      subst (λ r. Nodup (oks (r ∷ map (name_of valid) l))) (sym reads)
        (
          ground (arith, contains-oks l name rest, find_above key l first, is),
          Nodup-oks l sorted rest,
        )
