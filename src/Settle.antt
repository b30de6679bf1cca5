-- ===== src/Settle.antt =====
-- Settling of score-based interest (contract/src/feature/account/api.rs, `settle_interest` and
-- `get_settled_interest`; feature/account/common.rs, `update_account_cache`).
use sweat_jar.Base.{
  ℕ, zero, suc, ◌+◌, ◌-◌, ◌*◌, max, Bool, true, false, leb, if◌then◌else◌, Option, none, some, List,
  [], ◌∷◌, Result, ok, panic, not_score_based, ◌>>=◌, add_u128, add_u64, String,
}
use sweat_jar.Base.Dict.{Dict, lookup, insert}
use sweat_jar.Decimal.{UDecimal}
use sweat_jar.Time.{ms_in_day, start_of_the_day, is_valid}
use sweat_jar.Score.{AccountScore, DailyScore, days_since_last_update, to_capped_apy, shift, wipe}
use sweat_jar.Features.{increased_score_cap, is_feature_enabled}
use sweat_jar.Product.{
  Product, Terms, fixed, flexible, score_based, tiered_score_based, is_score_based, get_score_cap,
}
use sweat_jar.Jar.{Jar, JarCache, Deposit, cached_interest}
use sweat_jar.Jar
use sweat_jar.Account.{Account, get_jar, put_jar}
use sweat_jar.Interest.{get_interest}
use sweat_jar.Contract.{Contract, get_account, put_account, get_products_for_account, cache_jar}
pub mod Scores

-- `adjust_relative`: the rate of a day is the score of the day before.
unfoldable adjust_relative : ℕ → ℕ
adjust_relative t = t - ms_in_day

-- `get_score_cap`
unfoldable score_cap_of : Account → Product → Result ℕ
score_cap_of a p = elim p.terms [
  | tiered_score_based cap _ ↦
      ok (get_score_cap cap (is_feature_enabled a.features increased_score_cap))
  | score_based cap _ ↦ ok cap
  | fixed _ _ ↦ panic not_score_based
  | flexible _ ↦ panic not_score_based
]

unfoldable includes_booster : Terms → Bool
includes_booster (fixed _ _) = false
includes_booster (flexible _) = false
includes_booster (score_based _ _) = false
includes_booster (tiered_score_based _ _) = true

-- The start of the day `i` days before the last update.
unfoldable day_start : AccountScore → ℕ → ℕ
day_start s i = start_of_the_day (s.updated_at - i * ms_in_day)

-- The finished days, each with its score: none, yesterday, or both records.
unfoldable days_to_settle : AccountScore → ℕ → List (ℕ × DailyScore)
days_to_settle s zero = []
days_to_settle s (suc zero) = (day_start s 1, s.history1) ∷ []
days_to_settle s (suc (suc _)) = (day_start s 0, s.history0) ∷ (day_start s 1, s.history1) ∷ []

-- The interest of one deposit for one finished day.
unfoldable settle_deposits : UDecimal → ℕ → ℕ → ℕ → ℕ × ℕ → List Deposit → Result (ℕ × ℕ)
unfolding adjust_relative
settle_deposits apy from until cached acc [] = ok acc
settle_deposits apy from until cached acc (d ∷ ds) = do
  part ← get_interest d.principal apy (until - max (max (adjust_relative d.created_at) from) cached)
  interest ← add_u128 acc.0 part.0
  remainder ← add_u64 acc.1 part.1
  settle_deposits apy from until cached (interest, remainder) ds

unfoldable relative_cache : Option JarCache → ℕ
unfolding adjust_relative
relative_cache none = 0
relative_cache (some c) = adjust_relative c.updated_at

unfoldable pub entry_or_zero : Option (ℕ × ℕ) → ℕ × ℕ
entry_or_zero none = (0, 0)
entry_or_zero (some e) = e

-- One product on one finished day, added to its entry of the result.
unfoldable settle_jar :
    Account → Jar → ℕ → DailyScore → Dict (ℕ × ℕ) → Product → Result (Dict (ℕ × ℕ))
unfolding score_cap_of includes_booster settle_deposits relative_cache entry_or_zero
settle_jar a jar from score settled p = do
  cap ← score_cap_of a p
  until ← add_u64 from ms_in_day
  increment ←
      settle_deposits (to_capped_apy score cap (includes_booster p.terms)) from until
        (relative_cache jar.cache) (0, 0) jar.deposits
  interest ← add_u128 (entry_or_zero (lookup p.id settled)).0 increment.0
  remainder ← add_u64 (entry_or_zero (lookup p.id settled)).1 increment.1
  ok (insert p.id (interest, remainder) settled)

-- A jar whose cache already reaches the start of today is skipped.
unfoldable settle_product :
    Account → ℕ → ℕ → DailyScore → Dict (ℕ × ℕ) → Product → Result (Dict (ℕ × ℕ))
unfolding settle_jar relative_cache
settle_product a start_of_today from score settled p = do
  jar ← get_jar a p.id
  if leb start_of_today (relative_cache jar.cache)
      then ok settled
      else settle_jar a jar from score settled p

unfoldable settle_day :
    Account → ℕ → ℕ → DailyScore → Dict (ℕ × ℕ) → List Product → Result (Dict (ℕ × ℕ))
unfolding settle_product
settle_day a start_of_today from score settled [] = ok settled
settle_day a start_of_today from score settled (p ∷ ps) = do
  settled' ← settle_product a start_of_today from score settled p
  settle_day a start_of_today from score settled' ps

unfoldable settle_days :
    Contract → String → Account → ℕ → Dict (ℕ × ℕ) → List (ℕ × DailyScore) → Result (Dict (ℕ × ℕ))
unfolding settle_day
settle_days c id a start_of_today settled [] = ok settled
settle_days c id a start_of_today settled ((from, score) ∷ days) = do
  ps ← get_products_for_account c id (λ p. is_score_based p.terms)
  settled' ← settle_day a start_of_today from score settled ps
  settle_days c id a start_of_today settled' days

-- `get_settled_interest`: for each product, what the finished days add to its jar.
unfoldable pub get_settled_interest : Contract → String → ℕ → Result (Dict (ℕ × ℕ))
unfolding settle_days days_to_settle day_start
get_settled_interest c id now = do
  a ← get_account c id
  if is_valid a.timezone
      then (days_since_last_update a.score a.timezone now >>= λ n.
          settle_days c id a (start_of_the_day now) [] (days_to_settle a.score n))
      else ok []

-- The write of each settled amount to the jar's cache.
unfoldable pub settle_jars : Account → ℕ → Dict (ℕ × ℕ) → Result Account
settle_jars a start_of_today [] = ok a
settle_jars a start_of_today ((id, (interest, remainder)) ∷ rest) = do
  jar ← get_jar a id
  total ← add_u128 (cached_interest jar.cache) interest
  carried ← add_u64 jar.claim_remainder remainder
  settle_jars (put_jar a id (Jar.update_cache jar total carried start_of_today)) start_of_today rest

-- The history after `n` finished days: unchanged, one day older, or empty.
unfoldable pub age_score : AccountScore → ℕ → AccountScore
age_score s zero = s
age_score s (suc zero) = shift s
age_score s (suc (suc _)) = wipe s

-- `settle_interest`
unfoldable pub settle_interest : Contract → String → ℕ → Result Contract
unfolding get_settled_interest settle_jars age_score
settle_interest c id now = do
  a ← get_account c id
  if is_valid a.timezone
      then (days_since_last_update a.score a.timezone now >>= λ n.
          get_settled_interest c id now >>= λ settled.
          settle_jars a (start_of_the_day now) settled >>= λ a'.
          ok (put_account c id (record a' { score = age_score a'.score n })))
      else ok c

unfoldable pub cache_jars : Account → ℕ → List Product → Result Account
cache_jars a now [] = ok a
cache_jars a now (p ∷ ps) = do a' ← cache_jar a p now; cache_jars a' now ps

-- `update_account_cache`. Every call passes the filter `None`.
unfoldable pub update_account_cache : Contract → String → ℕ → Result Contract
unfolding settle_interest cache_jars
update_account_cache c id now = do
  c' ← settle_interest c id now
  ps ← get_products_for_account c' id (λ _. true)
  a ← get_account c' id
  a' ← cache_jars a now ps
  ok (put_account c' id a')
