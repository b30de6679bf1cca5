-- ===== src/Keeper/Scoring.antt =====
-- The oracle's and the maintainer's calls leave the deposits alone
-- (contract/src/feature/account/api.rs, contract/src/feature/penalty/api.rs).
use sweat_jar.Base.{
  ℕ, ◌≤◌, Bool, not, ltb, leb, List, [], ◌∷◌, Option, none, some, no_timezone, arith, String,
}
use sweat_jar.Base.Dict.{contains}
use sweat_jar.Base.Ensures.{Ensures, returns, panics, on_if, after, given}
use sweat_jar.Time.{Timezone, ℤ, is_valid, adjust, day, today, days_offset, assert_not_future}
use sweat_jar.Score.{
  AccountScore, process, convert_to_days_offset, update, add_all, apply_booster, place_booster, set,
  get, days_stored,
}
use sweat_jar.Features.{Feature, increased_apy}
use sweat_jar.Features.Laws.{set_feature_enabled_lt}
use sweat_jar.Account.{Account, try_set_timezone, timezone_or_panic}
use sweat_jar.Contract.{
  Env, Contract, oracle, assert_role, get_account, get_or_create_account, assert_timezone_is_set,
}
use sweat_jar.Product.{Product, is_score_based}
use sweat_jar.Deposits.{timezone_for}
use sweat_jar.Oracle.{
  record_account_score, record_scores, record_score, boost_account, boost_accounts,
  apply_booster_batch, BoosterData, note_booster, set_timezone, cache_if_known, switch_feature,
  set_account_feature, cache_and_switch, batch_set_feature_enabled, set_penalty, batch_set_penalty,
}
use sweat_jar.Keeper.{Keeper}
use sweat_jar.Keeper.Settling.{settle_interest-IsKept, update_account_cache-IsKept}

module _ (now : ℕ) where
  update_le :
      (s : AccountScore) (increments : List (ℕ × ℕ))
      → Ensures (λ s'. s'.updated_at ≤ now) (update s now increments)
  unfolding update
  update_le s increments = after (add_all s increments) _ λ s' _. returns _ (omega arith)

  pub apply_booster_le :
      (s : AccountScore) (days_ago value : ℕ)
      → Ensures
          (λ r. s.updated_at ≤ now → r.0.updated_at ≤ now)
          (apply_booster s now days_ago value)
  unfolding apply_booster place_booster
  apply_booster_le s days_ago value = on_if (leb days_stored days_ago) _ _ (returns _ (λ le. le)) (
      after (get s days_ago) _ λ d _. on_if (ltb 0 d.booster) _ _ (returns _ (λ le. le)) (
        after (set s days_ago (record d { booster = value })) _
          λ s' _. returns _ (λ _. omega arith)))

module _ {now : ℕ} (K : Keeper now) where
  switch_feature-IsKept :
      (id : String) (a : Account) (f : Feature) (b : Bool)
      → K.IsKeptAccount id a
      → K.IsKeptAccount id (switch_feature a f b)
  unfolding switch_feature
  switch_feature-IsKept id a f b h =
      K.change_features id a _ h (λ lt. set_feature_enabled_lt a.features f b lt)

  pub try_set_timezone-IsKept :
      (id : String) (a : Account) (tz : Option Timezone)
      → K.IsKeptAccount id a
      → Ensures (K.IsKeptAccount id) (try_set_timezone a tz)
  unfolding try_set_timezone timezone_or_panic
  try_set_timezone-IsKept id a none h =
      on_if (is_valid a.timezone) _ _ (returns _ h) (panics no_timezone)
  try_set_timezone-IsKept id a (some tz) h =
      on_if (is_valid a.timezone) _ _ (returns _ h) (returns _ (K.change_timezone id a tz h))

  pub timezone_for-IsKept :
      (id : String) (a : Account) (p : Product) (tz : Option Timezone)
      → K.IsKeptAccount id a
      → Ensures (K.IsKeptAccount id) (timezone_for a p tz)
  unfolding timezone_for
  timezone_for-IsKept id a p tz h =
      on_if (is_score_based p.terms) _ _ (try_set_timezone-IsKept id a tz h) (returns a h)

  record_account_score-IsKept :
      (c : Contract) (id : String) (increments : List (ℕ × ℕ))
      → K.IsKept c
      → Ensures K.IsKept (record_account_score c now id increments)
  unfolding record_account_score
  record_account_score-IsKept c id increments h = after (assert_timezone_is_set c id) _ λ _ _.
      given _ (settle_interest-IsKept K c id h) λ c' hc. after (get_account c' id) _ λ a ha.
        after (process a.timezone now increments) _ λ segmented _.
          after (convert_to_days_offset a.timezone now segmented.valid) _ λ normalized _.
            given _ (update_le now a.score normalized) λ s le.
              returns _ (K.write c' id _ hc (K.change_score id a s (K.read c' id hc ha) (λ _. le)))

  record_scores-IsKept :
      (batch : List (String × List (ℕ × ℕ))) (c : Contract)
      → K.IsKept c
      → Ensures K.IsKept (record_scores c now batch)
  unfolding record_scores
  record_scores-IsKept [] c h = returns c h
  record_scores-IsKept ((id, increments) ∷ rest) c h =
      given _ (record_account_score-IsKept c id increments h)
        λ c' hc. record_scores-IsKept rest c' hc

  boost_account-IsKept :
      (c : Contract) (id : String) (score timestamp : ℕ)
      → K.IsKept c
      → Ensures (λ r. K.IsKept r.0) (boost_account c now id score timestamp)
  unfolding boost_account
  boost_account-IsKept c id score timestamp h = after (assert_timezone_is_set c id) _ λ _ _.
      after (get_account c id) _ λ a0 _.
        after (assert_not_future a0.timezone now timestamp) _ λ _ _.
          given _ (settle_interest-IsKept K c id h) λ c' hc. after (get_account c' id) _ λ a ha.
            after (adjust a.timezone timestamp) _ λ local _. after (today a.timezone now) _ λ t _.
              after (days_offset t (day local)) _ λ days_ago _.
                given _ (apply_booster_le now a.score days_ago score) λ r le.
                  returns _ (K.write c' id _ hc (K.change_score id a r.0 (K.read c' id hc ha) le))

  boost_accounts-IsKept :
      (ids : List String) (c : Contract) (score timestamp : ℕ) (noted : BoosterData)
      → K.IsKept c
      → Ensures (λ r. K.IsKept r.0) (boost_accounts c now ids score timestamp noted)
  unfolding boost_accounts
  boost_accounts-IsKept [] c score timestamp noted h = returns _ h
  boost_accounts-IsKept (id ∷ ids) c score timestamp noted h =
      given _ (boost_account-IsKept c id score timestamp h)
        λ r hr. boost_accounts-IsKept ids r.0 score timestamp (note_booster noted id r.1) hr

  cache_and_switch-IsKept :
      (ids : List String) (c : Contract) (f : Feature) (b : Bool)
      → K.IsKept c
      → Ensures K.IsKept (cache_and_switch c now f b ids)
  unfolding cache_and_switch
  cache_and_switch-IsKept [] c f b h = returns c h
  cache_and_switch-IsKept (id ∷ ids) c f b h =
      given _ (update_account_cache-IsKept K c id h) λ c' hc. after (get_account c' id) _ λ a ha.
        cache_and_switch-IsKept ids _ f b
          (K.write c' id _ hc (switch_feature-IsKept id a f b (K.read c' id hc ha)))

-- The calls themselves, at the time of the block.
module _ (env : Env) (K : Keeper env.now) (c : Contract) (h : K.IsKept c) where
  pub record_score-IsKept :
      (batch : List (String × List (ℕ × ℕ))) → Ensures K.IsKept (record_score env c batch)
  unfolding record_score
  record_score-IsKept batch =
      after (assert_role env oracle) _ λ _ _. record_scores-IsKept K batch c h

  pub apply_booster_batch-IsKept :
      (ids : List String) (score timestamp : ℕ)
      → Ensures (λ r. K.IsKept r.0) (apply_booster_batch env c ids score timestamp)
  unfolding apply_booster_batch
  apply_booster_batch-IsKept ids score timestamp =
      after (assert_role env oracle) _ λ _ _. boost_accounts-IsKept K ids c score timestamp _ h

  pub set_timezone-IsKept :
      (id : String) (shift : ℤ) → Ensures K.IsKept (set_timezone env c id shift)
  unfolding set_timezone
  set_timezone-IsKept id shift = after (assert_role env oracle) _ λ _ _.
      given _
        (try_set_timezone-IsKept K id (get_or_create_account c id env.now) _ (K.create c id h))
        λ a ha. returns _ (K.write c id a h ha)

  cache_if_known-IsKept : (id : String) → Ensures K.IsKept (cache_if_known c id env.now)
  unfolding cache_if_known
  cache_if_known-IsKept id =
      on_if (contains id c.accounts) _ _ (update_account_cache-IsKept K c id h) (returns c h)

  pub set_account_feature-IsKept :
      (id : String) (f : Feature) (b : Bool) → Ensures K.IsKept (set_account_feature env c id f b)
  unfolding set_account_feature
  set_account_feature-IsKept id f b = after (assert_role env oracle) _ λ _ _.
      given _ (cache_if_known-IsKept id) λ c' hc. returns _ (
        K.write c' id _ hc (
          switch_feature-IsKept K id (get_or_create_account c' id env.now) f b (K.create c' id hc)))

  pub batch_set_feature_enabled-IsKept :
      (ids : List String) (f : Feature) (b : Bool)
      → Ensures K.IsKept (batch_set_feature_enabled env c ids f b)
  unfolding batch_set_feature_enabled
  batch_set_feature_enabled-IsKept ids f b =
      after (assert_role env oracle) _ λ _ _. cache_and_switch-IsKept K ids c f b h

  pub set_penalty-IsKept :
      (id : String) (value : Bool) → Ensures K.IsKept (set_penalty env c id value)
  unfolding set_penalty
  set_penalty-IsKept id value = after (assert_role env oracle) _ λ _ _.
      given _ (update_account_cache-IsKept K c id h) λ c' hc. after (get_account c' id) _ λ a ha.
        returns _ (
          K.write c' id _ hc
            (switch_feature-IsKept K id a increased_apy (not value) (K.read c' id hc ha)))

  pub batch_set_penalty-IsKept :
      (ids : List String) (value : Bool) → Ensures K.IsKept (batch_set_penalty env c ids value)
  unfolding batch_set_penalty
  batch_set_penalty-IsKept ids value =
      after (assert_role env oracle) _
        λ _ _. cache_and_switch-IsKept K ids c increased_apy (not value) h
