-- ===== src/Oracle.antt =====
-- Calls of the oracle and the maintainer on accounts (contract/src/feature/account/api.rs,
-- feature/penalty/api.rs). Events are not modelled.
use sweat_jar.Base.{
  ℕ, Bool, true, false, not, if◌then◌else◌, Option, none, some, List, [], ◌∷◌, ◌++◌, Result, ok,
  ◌>>=◌, ◌>>◌, String,
}
use sweat_jar.Base.Dict.{Dict, lookup, insert, contains}
use sweat_jar.Time.{
  Timezone, ℤ, timezone_new, is_valid, adjust, day, today, days_offset, assert_not_future,
}
use sweat_jar.Score.{
  AccountScore, DailyScore, process, convert_to_days_offset, update, apply_booster,
  get_last_finalized_record,
}
use sweat_jar.Features.{Feature, increased_apy, set_feature_enabled, is_feature_enabled}
use sweat_jar.Jar.{Jar}
use sweat_jar.Jar
use sweat_jar.Account.{Account, try_set_timezone}
use sweat_jar.Contract.{
  Env, Contract, oracle, maintainer, assert_role, get_account, put_account, get_or_create_account,
  assert_timezone_is_set,
}
use sweat_jar.Settle.{settle_interest, update_account_cache}
pub mod Flags

unfoldable pub unlock_listed : Dict Jar → List String → Dict Jar
unlock_listed jars [] = jars
unlock_listed jars (id ∷ ids) =
    unlock_listed
      (elim (lookup id jars) [ none ↦ jars | some jar ↦ insert id (Jar.unlock jar) jars ]) ids

-- `unlock_jars_for_account`
unfoldable pub unlock_jars_for_account : Env → Contract → String → List String → Result Contract
unfolding unlock_listed
unlock_jars_for_account env c id product_ids = do
  assert_role env maintainer
  a ← get_account c id
  ok (put_account c id (record a { jars = unlock_listed a.jars product_ids }))

-- One entry of `record_score`'s batch: pairs of a score and a UTC time.
unfoldable pub record_account_score : Contract → ℕ → String → List (ℕ × ℕ) → Result Contract
record_account_score c now id increments = do
  assert_timezone_is_set c id
  c' ← settle_interest c id now
  a ← get_account c' id
  segmented ← process a.timezone now increments
  normalized ← convert_to_days_offset a.timezone now segmented.valid
  score ← update a.score now normalized
  ok (put_account c' id (record a { score = score }))

unfoldable pub record_scores : Contract → ℕ → List (String × List (ℕ × ℕ)) → Result Contract
unfolding record_account_score
record_scores c now [] = ok c
record_scores c now ((id, increments) ∷ rest) = do
  c' ← record_account_score c now id increments
  record_scores c' now rest

-- `record_score`
unfoldable pub record_score : Env → Contract → List (String × List (ℕ × ℕ)) → Result Contract
unfolding record_scores
record_score env c batch = do assert_role env oracle; record_scores c env.now batch

-- One account of `apply_booster`: the contract, and whether the booster was applied.
unfoldable pub boost_account : Contract → ℕ → String → ℕ → ℕ → Result (Contract × Bool)
boost_account c now id score timestamp = do
  assert_timezone_is_set c id
  a ← get_account c id
  assert_not_future a.timezone now timestamp
  c' ← settle_interest c id now
  a' ← get_account c' id
  local ← adjust a'.timezone timestamp
  t ← today a'.timezone now
  days_ago ← days_offset t (day local)
  r ← apply_booster a'.score now days_ago score
  ok (put_account c' id (record a' { score = r.0 }), r.1)

-- The accounts boosted, and those refused.
pub record BoosterData : Type 0 where
  pub applied : List String
  pub rejected : List String

unfoldable pub note_booster : BoosterData → String → Bool → BoosterData
note_booster b id true = record b { applied = b.applied ++ id ∷ [] }
note_booster b id false = record b { rejected = b.rejected ++ id ∷ [] }

unfoldable pub boost_accounts :
    Contract → ℕ → List String → ℕ → ℕ → BoosterData → Result (Contract × BoosterData)
unfolding boost_account note_booster
boost_accounts c now [] score timestamp noted = ok (c, noted)
boost_accounts c now (id ∷ ids) score timestamp noted = do
  r ← boost_account c now id score timestamp
  boost_accounts r.0 now ids score timestamp (note_booster noted id r.1)

-- `AccountApi::apply_booster`
unfoldable pub apply_booster_batch :
    Env → Contract → List String → ℕ → ℕ → Result (Contract × BoosterData)
unfolding boost_accounts
apply_booster_batch env c ids score timestamp = do
  assert_role env oracle
  boost_accounts c env.now ids score timestamp (record { applied = []; rejected = [] })

-- `get_score` and `get_boosted_score`, by the record that both read.
unfoldable finalized_record : Contract → ℕ → String → Result (Option DailyScore)
finalized_record c now id = elim (lookup id c.accounts) [
  | none ↦ ok none
  | some a ↦
      if is_valid a.timezone
      then (get_last_finalized_record a.score a.timezone now >>= λ d. ok (some d))
      else ok none
]

-- `set_timezone`
unfoldable pub set_timezone : Env → Contract → String → ℤ → Result Contract
set_timezone env c id shift = do
  assert_role env oracle
  a ← try_set_timezone (get_or_create_account c id env.now) (some (timezone_new shift))
  ok (put_account c id a)

unfoldable pub cache_if_known : Contract → String → ℕ → Result Contract
cache_if_known c id now = if contains id c.accounts then update_account_cache c id now else ok c

-- The change that `set_feature_enabled` makes to one account.
unfoldable pub switch_feature : Account → Feature → Bool → Account
switch_feature a feature enabled = record a {
  features = set_feature_enabled a.features feature enabled;
}

-- `AccountApi::set_feature_enabled`
unfoldable pub set_account_feature : Env → Contract → String → Feature → Bool → Result Contract
unfolding cache_if_known switch_feature
set_account_feature env c id feature enabled = do
  assert_role env oracle
  c' ← cache_if_known c id env.now
  ok (put_account c' id (switch_feature (get_or_create_account c' id env.now) feature enabled))

unfoldable pub cache_and_switch : Contract → ℕ → Feature → Bool → List String → Result Contract
unfolding switch_feature
cache_and_switch c now feature enabled [] = ok c
cache_and_switch c now feature enabled (id ∷ ids) = do
  c' ← update_account_cache c id now
  a ← get_account c' id
  cache_and_switch (put_account c' id (switch_feature a feature enabled)) now feature enabled ids

-- `batch_set_feature_enabled`
unfoldable pub batch_set_feature_enabled :
    Env → Contract → List String → Feature → Bool → Result Contract
unfolding cache_and_switch
batch_set_feature_enabled env c ids feature enabled = do
  assert_role env oracle
  cache_and_switch c env.now feature enabled ids

-- `set_penalty`, `batch_set_penalty`: a penalty takes the increased rate away.
unfoldable pub set_penalty : Env → Contract → String → Bool → Result Contract
unfolding switch_feature
set_penalty env c id value = do
  assert_role env oracle
  c' ← update_account_cache c id env.now
  a ← get_account c' id
  ok (put_account c' id (switch_feature a increased_apy (not value)))

unfoldable pub batch_set_penalty : Env → Contract → List String → Bool → Result Contract
unfolding cache_and_switch
batch_set_penalty env c ids value = do
  assert_role env oracle
  cache_and_switch c env.now increased_apy (not value) ids

unfoldable pub is_penalty_applied : Contract → String → Result Bool
is_penalty_applied c id = do
  a ← get_account c id
  ok (not (is_feature_enabled a.features increased_apy))
