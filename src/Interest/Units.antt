-- ===== src/Interest/Units.antt =====
-- Interest counted in units of 1 / `MS_IN_YEAR` of a token (model/src/interest.rs).
use sweat_jar.Base.{
  ℕ, ◌+◌, ◌*◌, ◌/◌, ◌%◌, ◌^◌, ◌<◌, ◌≡◌, refl, List, [], ◌∷◌, Option, Result, ok, panic, >>=-eq-ok,
  arith, add_u128, add_u64, add_u128-eq-ok, add_u64-eq-ok,
}
use sweat_jar.Decimal.{UDecimal, pow10, saturating_mul, sat_mul_u128}
use sweat_jar.Time.{ms_in_year}
use sweat_jar.Product.{Terms}
use sweat_jar.Jar.{Jar, Deposit, cached_interest}
use sweat_jar.Account.{Account}
use sweat_jar.Interest.{
  get_interest, get_apy, get_interest_calculation_term, deposit_interest, interest_from, cached_at,
  get_jar_interest,
}

-- What a principal yields in a year.
unfoldable pub yearly : UDecimal → ℕ → ℕ
yearly apy principal = sat_mul_u128 principal apy.significand / 10 ^ apy.exponent

-- What it earns in a term, in units.
unfoldable pub earned : UDecimal → ℕ → ℕ → ℕ
earned apy principal term = sat_mul_u128 term (yearly apy principal)

earned_lem :
    (apy : UDecimal) (principal term : ℕ)
    → earned apy principal term
      ≡ sat_mul_u128 term (sat_mul_u128 principal apy.significand / 10 ^ apy.exponent)
unfolding earned yearly
earned_lem apy principal term = refl

-- Whole tokens and the rest make up the number.
split_units :
    (x : ℕ) → (x / ms_in_year * ms_in_year + x % ms_in_year ≡ x) × (x % ms_in_year < ms_in_year)
split_units x = (omega arith, omega arith)

-- `get_interest` splits what is earned.
get_interest-units :
    (principal : ℕ) (apy : UDecimal) (term : ℕ) {out : ℕ × ℕ}
    → get_interest principal apy term ≡ ok out
    → (out.0 * ms_in_year + out.1 ≡ earned apy principal term) × (out.1 < ms_in_year)
unfolding get_interest pow10 saturating_mul
get_interest-units principal apy term h =
    ground (arith, split_units (earned apy principal term), earned_lem apy principal term)

earned_zero : (apy : UDecimal) (principal : ℕ) → earned apy principal 0 ≡ 0
unfolding earned sat_mul_u128
earned_zero apy principal = omega arith

-- A deposit with an empty term earns nothing, as the code says without asking.
deposit_interest-units :
    (apy : UDecimal) (term : ℕ) (d : Deposit) {part : ℕ × ℕ}
    → deposit_interest apy term d ≡ ok part
    → part.0 * ms_in_year + part.1 ≡ earned apy d.principal term
unfolding deposit_interest
deposit_interest-units apy term d {part} h =
    ground
      (arith, get_interest-units d.principal apy term {out = part}, earned_zero apy d.principal)

abbrev ok_or_zero : Result ℕ → ℕ
ok_or_zero (ok n) = n
ok_or_zero (panic _) = 0

-- What the deposits earn since the last caching.
unfoldable pub accrued : Terms → Account → ℕ → Option ℕ → UDecimal → List Deposit → ℕ
accrued terms a now cached apy [] = 0
accrued terms a now cached apy (d ∷ ds) =
    earned apy d.principal (ok_or_zero (get_interest_calculation_term terms a now cached d))
    + accrued terms a now cached apy ds

interest_from-units :
    (terms : Terms) (a : Account) (now : ℕ) (cached : Option ℕ) (apy : UDecimal) (acc : ℕ × ℕ)
    (ds : List Deposit) {out : ℕ × ℕ}
    → interest_from terms a now cached apy acc ds ≡ ok out
    → out.0 * ms_in_year + out.1 ≡ acc.0 * ms_in_year + acc.1 + accrued terms a now cached apy ds
unfolding interest_from accrued
interest_from-units terms a now cached apy acc [] h = ground arith
interest_from-units terms a now cached apy acc (d ∷ ds) {out} h =
    let (term, ht, h1) = >>=-eq-ok (get_interest_calculation_term terms a now cached d) _ h in
    let (part, hp, h2) = >>=-eq-ok (deposit_interest apy term d) _ h1 in
    let (i, hi, h3) = >>=-eq-ok (add_u128 acc.0 part.0) _ h2 in
    let (r, hr, h4) = >>=-eq-ok (add_u64 acc.1 part.1) _ h3 in
    let ih = interest_from-units terms a now cached apy (i, r) ds h4 in
    rw ht (
      omega (
        arith,
        ih,
        deposit_interest-units apy term d hp,
        add_u128-eq-ok acc.0 part.0 hi,
        add_u64-eq-ok acc.1 part.1 hr,
      ))

-- Where the fold over the deposits succeeds, so do the first term and the rest of the fold.
pub interest_from_tail :
    (terms : Terms) (a : Account) (now : ℕ) (cached : Option ℕ) (apy : UDecimal) (acc : ℕ × ℕ)
    (d : Deposit) (ds : List Deposit) {out : ℕ × ℕ}
    → interest_from terms a now cached apy acc (d ∷ ds) ≡ ok out
    → (term : ℕ) × (get_interest_calculation_term terms a now cached d ≡ ok term)
      × ((acc' : ℕ × ℕ) × (interest_from terms a now cached apy acc' ds ≡ ok out))
unfolding interest_from
interest_from_tail terms a now cached apy acc d ds h =
    let (term, ht, h1) = >>=-eq-ok (get_interest_calculation_term terms a now cached d) _ h in
    let (part, hp, h2) = >>=-eq-ok (deposit_interest apy term d) _ h1 in
    let (i, hi, h3) = >>=-eq-ok (add_u128 acc.0 part.0) _ h2 in
    let (r, hr, h4) = >>=-eq-ok (add_u64 acc.1 part.1) _ h3 in (term, ht, ((i, r), h4))

-- What `get_interest` of a jar amounts to: the rate in force, the fold, and the carried units.
pub get_jar_interest_parts :
    (terms : Terms) (a : Account) (jar : Jar) (now : ℕ) {out : ℕ × ℕ}
    → get_jar_interest terms a jar now ≡ ok out
    → (apy : UDecimal) × (get_apy terms a now ≡ ok apy)
      × ((sum : ℕ × ℕ) × (interest_from terms a now (cached_at jar.cache) apy (0, 0) jar.deposits
            ≡ ok sum)
          × (out.0 * ms_in_year + out.1
              ≡ cached_interest jar.cache * ms_in_year
                + jar.claim_remainder
                + accrued terms a now (cached_at jar.cache) apy jar.deposits)
          × (out.1 < ms_in_year))
unfolding get_jar_interest
get_jar_interest_parts terms a jar now {out} h =
    let (apy, ha, h1) = >>=-eq-ok (get_apy terms a now) _ h in
    let (sum, hs, h2) =
      >>=-eq-ok (interest_from terms a now (cached_at jar.cache) apy (0, 0) jar.deposits) _ h1 in
    let (rem, hr, h3) = >>=-eq-ok (add_u64 jar.claim_remainder sum.1) _ h2 in
    let (sub, hb, h4) = >>=-eq-ok (add_u128 (cached_interest jar.cache) sum.0) _ h3 in
    let (tot, ht, h5) = >>=-eq-ok (add_u128 sub (rem / ms_in_year)) _ h4 in
    let units = interest_from-units terms a now (cached_at jar.cache) apy (0, 0) jar.deposits hs in
    let e0 : out.0 ≡ tot = ground (arith, h5) in
    let e1 : out.1 ≡ rem % ms_in_year = ground (arith, h5) in
    (
      apy,
      ha,
      (
        sum,
        hs,
        omega (
          arith,
          e0,
          e1,
          units,
          split_units rem,
          add_u64-eq-ok jar.claim_remainder sum.1 hr,
          add_u128-eq-ok (cached_interest jar.cache) sum.0 hb,
          add_u128-eq-ok sub (rem / ms_in_year) ht,
        ),
        omega (arith, e1, split_units rem),
      ),
    )
