-- ===== src/Score/Apy.antt =====
-- The rate of a daily score (model/src/data/score/mod.rs).
use native.Mathlib.Nat.{mul-le-mul_left}
use sweat_jar.Base.{
  ℕ, ◌+◌, ◌*◌, ◌/◌, ◌≤◌, ◌≡◌, min, true, false, refl, if◌then◌else◌, Bool, ok, arith, u16_mod, ◌<◌,
}
use sweat_jar.Decimal.{saturating_mul, pow10, sat_mul_u128, new}
use sweat_jar.Score.{DailyScore, to_capped_apy, to_apy, max_compound}

-- Below the u16 bound of a score cap, the rate is a number of 1 / 100 000 that never exceeds
-- 100 000; without the booster it is the capped score, with it the sum up to 100 000.
pub to_capped_apy_lem :
    (d : DailyScore) (cap : ℕ) (include_booster : Bool)
    → cap < u16_mod
    → ((to_capped_apy d cap include_booster).exponent ≡ 5)
      × ((to_capped_apy d cap include_booster).significand ≤ max_compound)
      × ((to_capped_apy d cap include_booster).significand ≡ (
          if include_booster
          then min (min d.value cap + d.booster) max_compound
          else min d.value cap))
unfolding to_capped_apy to_apy new
to_capped_apy_lem d cap true h = (omega arith, omega arith, refl)
to_capped_apy_lem d cap false h = (omega arith, omega arith, refl)

hundredth :
    (p s : ℕ) → s ≤ max_compound → min (p * s) 340282366920938463463374607431768211455 / 100000 ≤ p
hundredth p s h = let m = mul-le-mul_left p h in omega (arith, m)

-- Below the u16 bound of a score cap, the product of the rate of one day's score and a principal, which is the
-- interest of a year at that rate, is at most the principal.
pub yearly-le-principal :
    (d : DailyScore) (cap principal : ℕ) (include_booster : Bool) {yearly : ℕ}
    → cap < u16_mod
    → saturating_mul (to_capped_apy d cap include_booster) principal ≡ ok yearly
    → yearly ≤ principal
unfolding saturating_mul pow10 sat_mul_u128
yearly-le-principal d cap principal include_booster h e =
    let (exp, sig, _) = to_capped_apy_lem d cap include_booster h in
    ground (arith, hundredth principal (to_capped_apy d cap include_booster).significand sig)
