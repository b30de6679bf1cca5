-- ===== src/Decimal/Laws.antt =====
-- The arithmetic of `UDecimal` (primitives/src/lib.rs).
use native.Mathlib.Nat.{
  lt-div-mul-add, mul_comm, mul-suc, pow-suc, mul-le-mul_left, le_trans, div-mul-le_self,
  le-div_iff_mul-le,
}
use sweat_jar.Base.{
  ℕ, zero, suc, ◌+◌, ◌-◌, ◌*◌, ◌/◌, ◌^◌, ◌≤◌, ◌<◌, ◌≡◌, min, max, refl, ◌∙◌, ok, arith, u128_mod,
  mul_u128,
}
use sweat_jar.Decimal.{
  UDecimal, max_exponent, pow10, sat_mul_u128, sat_add_u128, saturating_mul, mul,
  adjust_significand, add, new,
}

-- Where `Mul<u128>` does not overflow, `saturating_mul` gives the same.
saturating_mul_of_mul : (d : UDecimal) (v : ℕ) {r : ℕ} → mul d v ≡ ok r → saturating_mul d v ≡ ok r
unfolding mul saturating_mul mul_u128 sat_mul_u128 pow10
saturating_mul_of_mul d v h = ground arith

pow10_pos : (n : ℕ) → 0 < 10 ^ n
pow10_pos zero = omega arith
pow10_pos (suc n) = rw pow-suc (omega (arith, pow10_pos n))

div_mono : (a b c : ℕ) → 0 < c → a ≤ b → a / c ≤ b / c
div_mono a b c p h = (le-div_iff_mul-le p).1 (le_trans (div-mul-le_self a c) h)

sat_mul-le : (a b : ℕ) → sat_mul_u128 a b ≤ a * b
unfolding sat_mul_u128
sat_mul-le a b = omega arith

-- With an exponent in range `saturating_mul` returns, and gives the whole part of the exact quotient: by the
-- scale, of the product of value and significand, which is a u128 or else replaced by the largest one.
pub saturating_mul_total :
    (d : UDecimal) (v : ℕ)
    → d.exponent ≤ max_exponent
    → (r : ℕ) × (saturating_mul d v ≡ ok r)
      × (10 ^ d.exponent * r ≤ min (v * d.significand) (u128_mod - 1))
      × (min (v * d.significand) (u128_mod - 1) < 10 ^ d.exponent * suc r)
unfolding saturating_mul pow10 sat_mul_u128
saturating_mul_total d v h =
    let p = sat_mul_u128 v d.significand in
    let s = 10 ^ d.exponent in
    let pos = pow10_pos d.exponent in
    let up = lt-div-mul-add {a = p} {b = s} pos in
    let down = div-mul-le_self p s in
    (
      p / s,
      ground arith,
      omega (arith, mul_comm (p / s) s, down),
      omega (arith, mul_comm (p / s) s, mul-suc s (p / s), up),
    )

shift_digit : (s n : ℕ) → s * 10 * 10 ^ n ≡ s * 10 ^ suc n
shift_digit s n = rw pow-suc (omega arith)

-- Where the scaled significand fits, the rounds of `adjust_significand` multiply exactly.
adjust_significand_lem : (n s : ℕ) → s * 10 ^ n < u128_mod → adjust_significand n s ≡ s * 10 ^ n
unfolding adjust_significand sat_mul_u128
adjust_significand_lem zero s h = omega arith
adjust_significand_lem (suc n) s h =
    let e = shift_digit s n in
    let m = mul-le-mul_left (s * 10) (pow10_pos n) in
    let exact : sat_mul_u128 s 10 ≡ s * 10 = unfold sat_mul_u128 in omega (arith, e, m) in
    rw exact (adjust_significand_lem n (s * 10) (omega (arith, e)) ∙ e)

scaled-lt : (a b : ℕ) → a + b < u128_mod → (a < u128_mod) × (b < u128_mod)
scaled-lt a b h = omega arith

-- The sum of two significands brought to the larger exponent.
abbrev common_sum : UDecimal → UDecimal → ℕ
common_sum a b =
    let top = max a.exponent b.exponent in
    a.significand * 10 ^ (top - a.exponent) + b.significand * 10 ^ (top - b.exponent)

-- The sum of two decimals has the larger exponent, and its significand is the exact sum of the two
-- significands brought to that exponent, where this sum fits a u128.
add_lem :
    (a b : UDecimal)
    → common_sum a b < u128_mod
    → ((add a b).significand ≡ common_sum a b) × ((add a b).exponent ≡ max a.exponent b.exponent)
unfolding add new sat_add_u128
add_lem a b h =
    let top = max a.exponent b.exponent in
    let (ha, hb) = scaled-lt _ _ h in
    (
      rw
          (
            adjust_significand_lem (top - a.exponent) a.significand ha,
            adjust_significand_lem (top - b.exponent) b.significand hb,
          )
          (omega arith),
      refl,
    )
