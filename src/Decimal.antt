-- ===== src/Decimal.antt =====
-- `UDecimal` (primitives/src/lib.rs): a significand (u128) over a power of ten (exponent, u32).
use sweat_jar.Base.{
  ℕ, zero, suc, ◌+◌, ◌-◌, ◌*◌, ◌/◌, ◌^◌, min, max, Bool, ◌==◌, if◌then◌else◌, leb, Result, ok,
  panic, overflow, ◌>>=◌, u128_mod, mul_u128, add_u32,
}
pub mod Laws

pub record UDecimal : Type 0 where
  pub significand : ℕ
  pub exponent : ℕ

-- `UDecimal::MAX_EXPONENT`
abbrev pub max_exponent : ℕ
max_exponent = 38

abbrev u128_max : ℕ
u128_max = u128_mod - 1

unfoldable pub new : ℕ → ℕ → UDecimal
new s e = record { significand = s; exponent = e }

unfoldable zero_decimal : UDecimal
unfolding new
zero_decimal = new 0 0

unfoldable is_zero : UDecimal → Bool
is_zero d = d.significand == 0

-- `10u128.pow(e)`: 10 ^ 38 is the last power of ten below 2 ^ 128.
unfoldable pub pow10 : ℕ → Result ℕ
pow10 e = if leb e max_exponent then ok (10 ^ e) else panic overflow

-- `u128::saturating_mul`
unfoldable pub sat_mul_u128 : ℕ → ℕ → ℕ
sat_mul_u128 a b = min (a * b) u128_max

-- `u128::saturating_add`
unfoldable sat_add_u128 : ℕ → ℕ → ℕ
sat_add_u128 a b = min (a + b) u128_max

-- `UDecimal::saturating_mul`
unfoldable pub saturating_mul : UDecimal → ℕ → Result ℕ
unfolding sat_mul_u128
saturating_mul d value = do scale ← pow10 d.exponent; ok (sat_mul_u128 value d.significand / scale)

-- `Mul<u128> for UDecimal`
unfoldable pub mul : UDecimal → ℕ → Result ℕ
mul d value = do
  product ← mul_u128 value d.significand
  scale ← pow10 d.exponent
  ok (product / scale)

-- `Mul<UDecimal> for UDecimal`
unfoldable mul_decimal : UDecimal → UDecimal → Result UDecimal
unfolding new
mul_decimal a b = do
  s ← mul_u128 a.significand b.significand
  e ← add_u32 a.exponent b.exponent
  ok (new s e)

-- `adjust_significand` of `Add for UDecimal`: one round for each missing digit.
unfoldable pub adjust_significand : ℕ → ℕ → ℕ
unfolding sat_mul_u128
adjust_significand zero s = s
adjust_significand (suc n) s = adjust_significand n (sat_mul_u128 s 10)

-- `Add for UDecimal`
unfoldable pub add : UDecimal → UDecimal → UDecimal
unfolding new sat_add_u128
add a b =
    let top = max a.exponent b.exponent in
    let s = adjust_significand (top - a.exponent) a.significand in
    let t = adjust_significand (top - b.exponent) b.significand in new (sat_add_u128 s t) top
