-- ===== src/Interest.antt =====
-- Interest of a jar under the terms of its product (model/src/interest.rs).
use sweat_jar.Base.{
  ℕ, ◌+◌, ◌-◌, ◌*◌, ◌/◌, ◌%◌, min, max, Bool, ltb, if◌then◌else◌, Option, none, some, List, [], ◌∷◌,
  Result, ok, panic, ◌>>=◌, add_u128, add_u64, sub_checked,
}
use sweat_jar.Decimal.{UDecimal, saturating_mul, sat_mul_u128}
use sweat_jar.Time.{ms_in_year, start_of_the_day, adjust}
use sweat_jar.Score.{to_apy, to_capped_apy, get_last_finalized_record, get_capped_finalized_score}
use sweat_jar.Features.{increased_apy, increased_score_cap, is_feature_enabled}
use sweat_jar.Product.{
  Terms, fixed, flexible, score_based, tiered_score_based, get_effective, get_score_cap,
}
use sweat_jar.Jar.{Jar, JarCache, Deposit, cached_interest}
use sweat_jar.Account.{Account}
pub mod Units
pub mod Accrual

-- `get_interest`: whole tokens, and the rest in units of 1 / `MS_IN_YEAR` of a token.
unfoldable pub get_interest : ℕ → UDecimal → ℕ → Result (ℕ × ℕ)
unfolding saturating_mul sat_mul_u128
get_interest principal apy term = do
  yearly ← saturating_mul apy principal
  let interest = sat_mul_u128 term yearly
  ok (interest / ms_in_year, interest % ms_in_year)

-- `InterestCalculator::get_apy` of the four terms.
unfoldable get_apy : Terms → Account → ℕ → Result UDecimal
unfolding get_effective get_score_cap
get_apy (fixed _ apy) a now = ok (get_effective apy (is_feature_enabled a.features increased_apy))
get_apy (flexible apy) a now = ok (get_effective apy (is_feature_enabled a.features increased_apy))
get_apy (score_based cap _) a now = do
  s ← get_capped_finalized_score a.score a.timezone cap now
  ok (to_apy s)
get_apy (tiered_score_based cap _) a now = do
  s ← get_last_finalized_record a.score a.timezone now
  ok (
      to_capped_apy s (get_score_cap cap (is_feature_enabled a.features increased_score_cap))
        Bool.true)

-- The later of the deposit's creation and the last caching.
unfoldable since_date : Option ℕ → ℕ → ℕ
since_date none created_at = created_at
since_date (some cached_at) created_at = max cached_at created_at

unfoldable fixed_term : ℕ → ℕ → Option ℕ → ℕ → Result ℕ
unfolding since_date
fixed_term lockup now last_cached_at created_at = do
  maturity ← add_u64 created_at lockup
  ok (min now maturity - since_date last_cached_at created_at)

unfoldable flexible_term : ℕ → Option ℕ → ℕ → Result ℕ
unfolding since_date
flexible_term now last_cached_at created_at = sub_checked now (since_date last_cached_at created_at)

-- Score based: nothing before the start of today counts.
unfoldable score_term : Account → ℕ → ℕ → Option ℕ → ℕ → Result ℕ
unfolding since_date
score_term a lockup now last_cached_at created_at = do
  start_of_today ← adjust a.timezone (start_of_the_day now)
  maturity ← add_u64 created_at lockup
  ok (min now maturity - max start_of_today (since_date last_cached_at created_at))

-- `InterestCalculator::get_interest_calculation_term` of the four terms.
unfoldable get_interest_calculation_term : Terms → Account → ℕ → Option ℕ → Deposit → Result ℕ
unfolding fixed_term flexible_term score_term
get_interest_calculation_term (fixed lockup _) a now cached d =
    fixed_term lockup now cached d.created_at
get_interest_calculation_term (flexible _) a now cached d = flexible_term now cached d.created_at
get_interest_calculation_term (score_based _ lockup) a now cached d =
    score_term a lockup now cached d.created_at
get_interest_calculation_term (tiered_score_based _ lockup) a now cached d =
    score_term a lockup now cached d.created_at

-- The interest of one deposit over its term.
unfoldable deposit_interest : UDecimal → ℕ → Deposit → Result (ℕ × ℕ)
deposit_interest apy term d = if ltb 0 term then get_interest d.principal apy term else ok (0, 0)

-- The `map` and `fold` over the deposits.
unfoldable interest_from :
    Terms → Account → ℕ → Option ℕ → UDecimal → ℕ × ℕ → List Deposit → Result (ℕ × ℕ)
unfolding get_interest_calculation_term deposit_interest
interest_from terms a now cached apy acc [] = ok acc
interest_from terms a now cached apy acc (d ∷ ds) = do
  term ← get_interest_calculation_term terms a now cached d
  part ← deposit_interest apy term d
  interest ← add_u128 acc.0 part.0
  remainder ← add_u64 acc.1 part.1
  interest_from terms a now cached apy (interest, remainder) ds

unfoldable cached_at : Option JarCache → Option ℕ
cached_at none = none
cached_at (some c) = some c.updated_at

-- `InterestCalculator::get_interest`, the interest of a jar: what is cached and what has
-- accrued since, with whole tokens carried out of the remainders.
unfoldable pub get_jar_interest : Terms → Account → Jar → ℕ → Result (ℕ × ℕ)
unfolding get_apy interest_from cached_at cached_interest
get_jar_interest terms a jar now = do
  apy ← get_apy terms a now
  accrued ← interest_from terms a now (cached_at jar.cache) apy (0, 0) jar.deposits
  total_remainder ← add_u64 jar.claim_remainder accrued.1
  subtotal ← add_u128 (cached_interest jar.cache) accrued.0
  total ← add_u128 subtotal (total_remainder / ms_in_year)
  ok (total, total_remainder % ms_in_year)
