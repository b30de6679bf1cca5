-- ===== src/Product.antt =====
-- Products and their terms (model/src/data/product/v1.rs and common.rs, types/configurable.rs).
use sweat_jar.Base.{
  ℕ, ◌+◌, ◌-◌, Bool, true, false, ltb, leb, if◌then◌else◌, Option, none, some, List, [], ◌∷◌, ◌++◌,
  Result, ok, panic, ◌>>=◌, ◌>>◌, require, sub_checked, out_of_cap, product_disabled, fee_too_high,
  bad_cap_order, not_protected, exponent_out_of_range, String,
}
use sweat_jar.Decimal.{UDecimal, max_exponent, mul}
pub mod Laws

-- `ConfigurableValue<T>` with its `ValueTier<T>`.
pub data ConfigurableValue {ℓ} (A : Type ℓ) : Type ℓ where
  constant : A → ConfigurableValue A
  tier : A → A → ConfigurableValue A

-- `ConfigurableValue::values`
unfoldable values {ℓ} : {A : Type ℓ} → ConfigurableValue A → List A
values (constant v) = v ∷ []
values (tier default fallback) = default ∷ fallback ∷ []

-- The data transfer object of serde, and the two conversions.
pub record ConfigurableValueDto {ℓ} (A : Type ℓ) : Type ℓ where
  pub default : A
  pub fallback : Option A

unfoldable pub to_dto {ℓ} : {A : Type ℓ} → ConfigurableValue A → ConfigurableValueDto A
to_dto (constant v) = record { default = v; fallback = none }
to_dto (tier d f) = record { default = d; fallback = some f }

unfoldable pub of_dto {ℓ} : {A : Type ℓ} → ConfigurableValueDto A → ConfigurableValue A
of_dto {A} dto = elim dto.fallback [ some f ↦ tier dto.default f | none ↦ constant dto.default ]

-- `Apy::get_effective` and `TieredScoreBasedProductTerms::get_score_cap`: the tier in force.
unfoldable pub get_effective : ConfigurableValue UDecimal → Bool → UDecimal
get_effective (constant apy) increased = apy
get_effective (tier default fallback) increased = if increased then default else fallback

unfoldable pub get_score_cap : ConfigurableValue ℕ → Bool → ℕ
get_score_cap (constant cap) increased = cap
get_score_cap (tier default fallback) increased = if increased then default else fallback

-- `Terms`, with the fields of the four structs: a lockup term is in milliseconds.
pub data Terms : Type 0 where
  fixed : ℕ → ConfigurableValue UDecimal → Terms
  flexible : ConfigurableValue UDecimal → Terms
  score_based : ℕ → ℕ → Terms
  tiered_score_based : ConfigurableValue ℕ → ℕ → Terms

pub data WithdrawalFee : Type 0 where
  fix : ℕ → WithdrawalFee
  percent : UDecimal → WithdrawalFee

pub record Cap : Type 0 where
  pub min_cap : ℕ
  pub max_cap : ℕ

pub record Product : Type 0 where
  pub id : String
  pub cap : Cap
  pub terms : Terms
  pub withdrawal_fee : Option WithdrawalFee
  pub public_key : Option (List ℕ)
  pub is_enabled : Bool

unfoldable pub is_protected : Product → Bool
is_protected p = elim p.public_key [ some _ ↦ true | none ↦ false ]

unfoldable pub get_lockup_term : Terms → Option ℕ
get_lockup_term (fixed lockup _) = some lockup
get_lockup_term (flexible _) = none
get_lockup_term (score_based _ lockup) = some lockup
get_lockup_term (tiered_score_based _ lockup) = some lockup

unfoldable pub is_score_based : Terms → Bool
is_score_based (fixed _ _) = false
is_score_based (flexible _) = false
is_score_based (score_based _ _) = true
is_score_based (tiered_score_based _ _) = true

unfoldable pub allows_early_withdrawal : Terms → Bool
allows_early_withdrawal (fixed _ _) = false
allows_early_withdrawal (flexible _) = true
allows_early_withdrawal (score_based _ _) = false
allows_early_withdrawal (tiered_score_based _ _) = false

-- `Deposit::is_liquid`: strictly later than the end of the lockup.
unfoldable pub is_past : ℕ → ℕ → ℕ → Result Bool
is_past created_at now term = do age ← sub_checked now created_at; ok (ltb term age)

-- `TermsApi::is_liquid`, for a deposit created at the given time.
unfoldable pub is_liquid : Terms → ℕ → ℕ → Result Bool
unfolding is_past
is_liquid (fixed lockup _) now created_at = is_past created_at now lockup
is_liquid (flexible _) now created_at = ok true
is_liquid (score_based _ lockup) now created_at = is_past created_at now lockup
is_liquid (tiered_score_based _ lockup) now created_at = is_past created_at now lockup

unfoldable fee_of : Option WithdrawalFee → ℕ → Result ℕ
fee_of none principal = ok 0
fee_of (some (fix amount)) principal = ok amount
fee_of (some (percent p)) principal = mul p principal

-- `ProductModelApi::calculate_fee`
unfoldable pub calculate_fee : Product → ℕ → Result ℕ
unfolding fee_of
calculate_fee p principal = fee_of p.withdrawal_fee principal

unfoldable pub set_public_key : Product → Option (List ℕ) → Product
set_public_key p key = record p { public_key = key }

unfoldable pub assert_cap_order : Product → Result (Unit {0})
assert_cap_order p = require (ltb p.cap.min_cap p.cap.max_cap) bad_cap_order

unfoldable pub assert_cap : Product → ℕ → Result (Unit {0})
assert_cap p amount =
    if ltb amount p.cap.min_cap
    then panic out_of_cap
    else if ltb p.cap.max_cap amount
    then panic out_of_cap
    else ok tt

unfoldable pub assert_enabled : Product → Result (Unit {0})
assert_enabled p = require p.is_enabled product_disabled

-- `assert_fee_amount`. `percent.to_f32() < 1.0` is a comparison of floats: `below_one` stands
-- for it, and is an argument.
unfoldable fee_is_ok : (UDecimal → Bool) → ℕ → Option WithdrawalFee → Bool
fee_is_ok below_one min_cap none = true
fee_is_ok below_one min_cap (some (fix amount)) = ltb amount min_cap
fee_is_ok below_one min_cap (some (percent p)) = below_one p

unfoldable pub assert_fee_amount : (UDecimal → Bool) → Product → Result (Unit {0})
unfolding fee_is_ok
assert_fee_amount below_one p =
    require (fee_is_ok below_one p.cap.min_cap p.withdrawal_fee) fee_too_high

unfoldable pub assert_score_based_product_is_protected : Product → Result (Unit {0})
unfolding is_score_based is_protected
assert_score_based_product_is_protected p =
    if is_score_based p.terms then require (is_protected p) not_protected else ok tt

unfoldable terms_decimals : Terms → List UDecimal
unfolding values
terms_decimals (fixed _ apy) = values apy
terms_decimals (flexible apy) = values apy
terms_decimals (score_based _ _) = []
terms_decimals (tiered_score_based _ _) = []

unfoldable fee_decimals : Option WithdrawalFee → List UDecimal
fee_decimals none = []
fee_decimals (some (fix _)) = []
fee_decimals (some (percent p)) = p ∷ []

unfoldable require_exponents : List UDecimal → Result (Unit {0})
require_exponents [] = ok tt
require_exponents (d ∷ ds) = do
  require (leb d.exponent max_exponent) exponent_out_of_range
  require_exponents ds

-- `assert_udecimal_exponents_in_range`
unfoldable pub assert_udecimal_exponents_in_range : Product → Result (Unit {0})
unfolding terms_decimals fee_decimals require_exponents
assert_udecimal_exponents_in_range p =
    require_exponents (terms_decimals p.terms ++ fee_decimals p.withdrawal_fee)
