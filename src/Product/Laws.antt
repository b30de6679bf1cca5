-- ===== src/Product/Laws.antt =====
-- Fees of products, and the wire form of configurable values (model/src/data/product).
use sweat_jar.Base.{
  ℕ, ◌*◌, ◌/◌, ◌^◌, ◌≤◌, ◌<◌, ◌≡◌, refl, ap, Bool, true, Option, none, some, ok, >>=-eq-ok,
  ok-injective, require-eq-ok, arith, mul_u128, fits,
}
use sweat_jar.Decimal.{UDecimal, mul, pow10}
use sweat_jar.Product.{
  Product, WithdrawalFee, fix, percent, fee_of, calculate_fee, fee_is_ok, assert_fee_amount,
  assert_cap, ConfigurableValue, constant, tier, ConfigurableValueDto, to_dto, of_dto,
}
use native.Mathlib.Nat.{mul-le-mul_left, mul_comm, div-le_of_le-mul}

div_le_of_le : (x m s : ℕ) → s ≤ m → x * s / m ≤ x
div_le_of_le x m s h = div-le_of_le-mul m (omega (arith, mul-le-mul_left x h, mul_comm m x))

mul-le : (d : UDecimal) (x : ℕ) {y : ℕ} → d.significand < 10 ^ d.exponent → mul d x ≡ ok y → y ≤ x
unfolding mul pow10 mul_u128 fits
mul-le d x h e =
    let (product, hp, h1) = >>=-eq-ok (mul_u128 x d.significand) _ e in
    let (scale, hs, h2) = >>=-eq-ok (pow10 d.exponent) _ h1 in
    let exact : product ≡ x * d.significand = ground arith in
    let power : scale ≡ 10 ^ d.exponent = ground arith in
    omega (
      arith,
      ap (λ n. n / scale) exact,
      ok-injective h2,
      div_le_of_le x scale d.significand (omega arith),
    )

pub assert_cap-eq-ok :
    (p : Product) (amount : ℕ)
    → assert_cap p amount ≡ ok tt
    → (p.cap.min_cap ≤ amount) × (amount ≤ p.cap.max_cap)
unfolding assert_cap
assert_cap-eq-ok p amount h = ground arith

fee_of-le :
    (below_one : UDecimal → Bool) (least : ℕ) (fee : Option WithdrawalFee) (amount : ℕ) {f : ℕ}
    → ((d : UDecimal) → below_one d ≡ true → d.significand < 10 ^ d.exponent)
    → fee_is_ok below_one least fee ≡ true
    → least ≤ amount
    → fee_of fee amount ≡ ok f
    → f ≤ amount
unfolding fee_is_ok fee_of
fee_of-le below_one least none amount sound h le e = ground arith
fee_of-le below_one least (some (fix x)) amount sound h le e = ground arith
fee_of-le below_one least (some (percent d)) amount sound h le e = mul-le d amount (sound d h) e

-- Where a product passes the check of its fee and an amount passes the check of its cap, the fee
-- that is calculated is at most the amount, provided that the float comparison `below_one` only
-- accepts decimals below one.
pub calculate_fee-le :
    (below_one : UDecimal → Bool) (p : Product) (amount : ℕ) {fee : ℕ}
    → ((d : UDecimal) → below_one d ≡ true → d.significand < 10 ^ d.exponent)
    → assert_fee_amount below_one p ≡ ok tt
    → assert_cap p amount ≡ ok tt
    → calculate_fee p amount ≡ ok fee
    → fee ≤ amount
unfolding assert_fee_amount calculate_fee
calculate_fee-le below_one p amount sound h cap e =
    fee_of-le below_one p.cap.min_cap p.withdrawal_fee amount sound (require-eq-ok _ _ h)
      (assert_cap-eq-ok p amount cap).0 e

of_dto_lem {ℓ} : {A : Type ℓ} (v : ConfigurableValue A) → of_dto (to_dto v) ≡ v
unfolding of_dto to_dto
of_dto_lem (constant x) = refl
of_dto_lem (tier x y) = refl

to_dto_lem {ℓ} :
    {A : Type ℓ} (x : A) (y : Option A)
    → let dto : ConfigurableValueDto A = record { default = x; fallback = y } in
      to_dto (of_dto dto) ≡ dto
unfolding of_dto to_dto
to_dto_lem x none = refl
to_dto_lem x (some y) = refl

-- Each conversion between a configurable value and its wire form undoes the other.
pub of_dto-to_dto {ℓ} :
    {A : Type ℓ} (v : ConfigurableValue A) (dto : ConfigurableValueDto A)
    → (of_dto (to_dto v) ≡ v) × (to_dto (of_dto dto) ≡ dto)
of_dto-to_dto v dto = (of_dto_lem v, to_dto_lem dto.default dto.fallback)
