-- ===== src/Prelude/Results.antt =====
-- `Result` and the errors of src/utils/error.rs that the modelled code returns. The messages are
-- left out: an error is told apart by its variant, and by its `ErrorKind` for `BadRequest`.
-- `panic` is a failed `expect` or `unwrap`, and `out_of_fuel` the end of a bounded recursion, which
-- theorems show not to happen.
use mathlib.Core.Logic.{◌⊎◌, inl, inr}
use mathlib.Core.Option.{Option, none, some}
use mathlib.Core.Path.{◌≡◌, refl}

-- `ErrorKind` of ruma, as far as the modelled code builds it.
pub data ErrorKind : Type 0 where
  forbidden unrecognized invalid_param not_found : ErrorKind

pub data Error : Type 0 where
  bad_database panic out_of_fuel : Error
  bad_request : ErrorKind → Error

pub data Result {ℓ} (A : Type ℓ) : Type ℓ where
  err : Error → Result A
  ok : A → Result A

-- The `?` operator: an error ends the method.
module _ {ℓ κ} {A : Type ℓ} {B : Type κ} where
  infixl 5 ◌>>=◌
  abbrev pub ◌>>=◌ : Result A → (A → Result B) → Result B
  ◌>>=◌ (err error) rest = err error
  ◌>>=◌ (ok value) rest = rest value

-- option.ok_or(error)
abbrev pub ok_or {ℓ} : {A : Type ℓ} → Option A → Error → Result A
ok_or none e = err e
ok_or (some a) e = ok a

pub Result-cases {ℓ} :
    {A : Type ℓ} (r : Result A) → ((a : A) × (r ≡ ok a)) ⊎ ((e : Error) × (r ≡ err e))
Result-cases (ok a) = inl (a, refl)
Result-cases (err e) = inr (e, refl)
