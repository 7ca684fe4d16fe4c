-- ===== src/Base/Raised.antt =====
-- Python's exceptions as values: a call that may raise returns `Raised`.
use mathlib.Core.Path.{◌≡◌, refl}
use mathlib.Core.Logic.{◌⊎◌, inl, inr}

-- The exceptions that the modelled code raises, or lets through from what it calls.
pub data Exn : Type 0 where
  naive_datetime : Exn  -- NaiveDatetimeError, and the ValueError of `_require_aware`
  calendar_range : Exn  -- CalendarRangeError
  overflow : Exn  -- OverflowError of date arithmetic below `datetime.min`
  value_error : Exn  -- ValueError for a value that is not allowed
  type_error : Exn  -- TypeError
  runtime_error : Exn  -- RuntimeError
  index_error : Exn  -- IndexError
  not_session : Exn  -- a library's refusal of a day that is no session

pub data Raised {ℓ} (A : Type ℓ) : Type ℓ where
  ok : A → Raised A
  raise : Exn → Raised A

infixl 5 ◌>>=◌
abbrev pub ◌>>=◌ {ℓ κ} : {A : Type ℓ} {B : Type κ} → Raised A → (A → Raised B) → Raised B
◌>>=◌ called rest = elim called [ ok value ↦ rest value | raise e ↦ raise e ]

infixl 5 ◌>>◌
abbrev pub ◌>>◌ {ℓ} : {B : Type ℓ} → Raised (Unit {0}) → Raised B → Raised B
check >> rest = check >>= (λ _. rest)

-- A call returned a value or raised.
pub Raised-cases {ℓ} :
    {A : Type ℓ} (called : Raised A)
    → ((value : A) × (called ≡ ok value)) ⊎ ((e : Exn) × (called ≡ raise e))
Raised-cases (ok value) = inl (value, refl)
Raised-cases (raise e) = inr (e, refl)
