-- ===== src/Base/Delta.antt =====
-- `timedelta`: a signed number of microseconds, added to and taken from an instant. Python refuses
-- an instant before `datetime.min` with OverflowError; the far end of the range is not modelled.
use Prim.Native.Nat.{ℕ, suc, ◌+◌, ◌-◌, ◌≤◌, ◌<◌}
use mathlib.Core.Path.{◌≡◌}
use mathlib.Core.Logic.{◌↔◌}
use native.Mathlib.Omega.{arith}
use trader_joe.Base.Tests.{leb, if◌then◌else◌}
use trader_joe.Base.Raised.{Raised, ok, raise, overflow}

-- `negsuc n` is -(n + 1).
pub data ℤ : Type 0 where
  pos : ℕ → ℤ
  negsuc : ℕ → ℤ

earlier : ℕ → ℕ → Raised ℕ
earlier t n = if leb n t then ok (t - n) else raise overflow

-- `t + d`
unfoldable pub shift : ℕ → ℤ → Raised ℕ
unfolding earlier
shift t (pos n) = ok (t + n)
shift t (negsuc n) = earlier t (suc n)

-- `t - d`
unfoldable pub shift_back : ℕ → ℤ → Raised ℕ
unfolding earlier
shift_back t (pos n) = earlier t n
shift_back t (negsuc n) = ok (t + suc n)

-- An event lies after `floor - offset` exactly when event + offset lies after `floor`.
pub shift_lt_iff :
    (floor target event fire : ℕ) (offset : ℤ)
    → shift_back floor offset ≡ ok target
    → shift event offset ≡ ok fire
    → (floor < fire) ↔ (target < event)
unfolding shift shift_back
shift_lt_iff floor target event fire (pos n) h k = ground arith
shift_lt_iff floor target event fire (negsuc n) h k = ground arith

pub shift_mono :
    (a b x y : ℕ) (offset : ℤ) → shift a offset ≡ ok x → shift b offset ≡ ok y → a ≤ b → x ≤ y
unfolding shift
shift_mono a b x y (pos n) h k le = ground arith
shift_mono a b x y (negsuc n) h k le = ground arith
