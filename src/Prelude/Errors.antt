-- ===== src/Prelude/Errors.antt =====
-- Go's `(T, error)` results and the errors that the code builds.
use Prim.Native.String
use Prim.Native.String.{String}
use mathlib.Core.Path.{◌≡◌, refl}
use mathlib.Core.Logic.{◌⊎◌, inl, inr}

-- `external` is an error of code outside the repository; `errorf` a `fmt.Errorf` with no `%w`;
-- `wrap` one that wraps another error.
pub data Error : Type 0 where
  external : String → Error
  errorf : String → Error
  wrap : String → Error → Error

pub data Result {ℓ} (A : Type ℓ) : Type ℓ where
  ok : A → Result A
  err : Error → Result A

-- A text that `%s` completes.
abbrev pub concat : String → String → String
concat s t = String.◌++◌ s t

pub Result-cases {ℓ} :
    {A : Type ℓ} (r : Result A) → ((a : A) × (r ≡ ok a)) ⊎ ((e : Error) × (r ≡ err e))
Result-cases (ok a) = inl (a, refl)
Result-cases (err e) = inr (e, refl)
