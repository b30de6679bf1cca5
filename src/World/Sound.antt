-- ===== src/World/Sound.antt =====
-- Every call and every callback keeps the contract sound, and what a call leaves pending can be
-- resolved.
use sweat_jar.Base.{
  ℕ, ◌≡◌, sym, subst, ◌==◌, Bool, true, false, Option, none, some, List, ok, String, All, require,
  account_not_found, add_u128,
}
use sweat_jar.Base.Ensures.{Ensures, returns, panics, always, after, given, outcome}
use sweat_jar.Account.{get_total_principal}
use sweat_jar.Contract.{
  Env, Contract, PromiseOrValue, value, promise, assert_migrate_from_previous_version,
}
use sweat_jar.Claim.{ClaimedAmountView, AfterClaim}
use sweat_jar.Deposits.{DepositTicket}
use sweat_jar.Restake.{restake, restake_all, build_restake, build_restake_all}
use sweat_jar.Fees.{after_fee_withdrawn}
use sweat_jar.Migration.{AccountVersioned, is_new_or_empty_account, migrate_account}
use sweat_jar.Keeper.Restaking.{restake_internal-IsKept}
use sweat_jar.Base.Dict.{IsMap}
use sweat_jar.Withdraw.{withdraw, withdraw_all}
use sweat_jar.Fees.{withdraw_fee}
use sweat_jar.Oracle.{apply_booster_batch}
use sweat_jar.Airdrop.{ft_on_transfer}
use sweat_jar.Base.{Result}
use sweat_jar.Invariant.{IsAccount, IsContract, sound, put_account-IsContract}
use sweat_jar.Invariant.Oracle.{unlock_jars_for_account-IsContract}
use sweat_jar.Invariant.Depositing.{deposit-IsAccount}
use sweat_jar.Invariant.Rollback.{IsRollback}
use sweat_jar.Invariant.Claiming.{IsRollbackCall, claim_total-IsClaim, after_claim-IsContract}
use sweat_jar.Invariant.Paying.{after_withdraw-IsContract, after_bulk_withdraw-IsContract}
use sweat_jar.Invariant.Restaking.{
  clean_up_and_deposit-IsContract, after_transfer_remainder-IsContract,
}
use sweat_jar.World.{
  Call, Callback, handle, resolve, IsStored, IsCall, callbacks_of, alone, ft_on_transfer_call,
  claim_total_call, withdraw_call, withdraw_all_call, restake_call, restake_all_call,
  record_score_call, apply_booster_call, set_timezone_call, set_feature_enabled_call,
  batch_set_feature_enabled_call, set_penalty_call, batch_set_penalty_call,
  unlock_jars_for_account_call, withdraw_fee_call, register_product_call, set_enabled_call,
  set_public_key_call, migrate_products_call, disable_migration_call, enable_migration_call,
  after_claim_due, after_withdraw_due, after_bulk_withdraw_due, after_transfer_remainder_due,
  after_fee_withdrawn_due,
}
use sweat_jar.World.Calls.{ft_on_transfer-IsKept, handle-IsKept}

-- What a pending callback will need.
abbrev pub IsCallback : ℕ → Callback → Type 0
IsCallback now (after_claim_due call) = IsRollback now call.account_rollback
IsCallback now _ = Unit

-- What a call leaves.
abbrev pub IsHandled : ℕ → Contract × List Callback → Type 0
IsHandled now r = IsContract now r.0 × All (IsCallback now) r.1

module _ (env : Env) where
  migrate_account-IsContract :
      (c : Contract) (sender : String) (amount : ℕ) (id : String) (stored : Option AccountVersioned)
      → IsStored env.now stored
      → IsContract env.now c
      → Ensures (IsContract env.now) (migrate_account c sender amount id stored)
  unfolding migrate_account
  migrate_account-IsContract c sender amount id none hs h =
      after (assert_migrate_from_previous_version c sender) _
        λ _ _. after (require (is_new_or_empty_account c id) _) _ λ _ _. panics account_not_found
  migrate_account-IsContract c sender amount id (some stored) hs h =
      after (assert_migrate_from_previous_version c sender) _ λ _ _.
        after (require (is_new_or_empty_account c id) _) _ λ _ _. given _ hs λ a ha.
          after (get_total_principal a) _ λ principal _.
            after (require (principal == amount) _) _
              λ _ _. returns _ (put_account-IsContract env.now c id a h ha)

  restake-IsContract :
      (c : Contract) (from : String) (ticket : DepositTicket) (signature : Option (List ℕ))
      (amount : Option ℕ)
      → IsContract env.now c
      → Ensures (λ r. IsContract env.now r.0) (restake env c from ticket signature amount)
  unfolding restake
  restake-IsContract c from ticket signature amount h =
      restake_internal-IsKept env (sound env.now) (λ _. Unit) _ (λ _ h'. h')
        (λ c' r _ _ hc. clean_up_and_deposit-IsContract env.now c' r hc) c ticket signature
        (build_restake env c from ticket amount) (always _ (λ _ _. tt)) h

  restake_all-IsContract :
      (c : Contract) (ticket : DepositTicket) (signature : Option (List ℕ)) (amount : Option ℕ)
      → IsContract env.now c
      → Ensures (λ r. IsContract env.now r.0) (restake_all env c ticket signature amount)
  unfolding restake_all
  restake_all-IsContract c ticket signature amount h =
      restake_internal-IsKept env (sound env.now) (λ _. Unit) _ (λ _ h'. h')
        (λ c' r _ _ hc. clean_up_and_deposit-IsContract env.now c' r hc) c ticket signature
        (build_restake_all env c ticket amount) (always _ (λ _ _. tt)) h

  handle-IsContract :
      (c : Contract) (call : Call)
      → IsCall env.now call
      → IsContract env.now c
      → Ensures (λ r. IsContract env.now r.0) (handle env c call)
  handle-IsContract c call hc h =
      handle-IsKept env (sound env.now) c h (IsCall env.now)
        (ft_on_transfer-IsKept env (sound env.now) c h (IsCall env.now)
          (λ id a product_id principal ha. deposit-IsAccount env.now a product_id principal ha)
          (λ sender amount id stored hs. migrate_account-IsContract c sender amount id stored hs h))
        (λ from ticket signature amount _. restake-IsContract c from ticket signature amount h)
        (λ ticket signature amount _. restake_all-IsContract c ticket signature amount h)
        (λ id ids _. unlock_jars_for_account-IsContract env.now env c id ids h)
        (λ c1 c2 same _ h1. subst (λ m. IsMap m × All (λ e. IsAccount env.now e.1) m) (sym same) h1)
        call hc

-- The callbacks that a call leaves.
plain-All :
    {A C : Type 0} (now : ℕ) (due : C → Callback) (p : PromiseOrValue A C)
    → ((call : C) → IsCallback now (due call))
    → All (IsCallback now) (callbacks_of due p)
plain-All now due (value _) plain = tt
plain-All now due (promise _ call) plain = (plain call, tt)

claim-All :
    (now : ℕ) (p : PromiseOrValue ClaimedAmountView AfterClaim)
    → IsRollbackCall now p
    → All (IsCallback now) (callbacks_of after_claim_due p)
claim-All now (value _) h = tt
claim-All now (promise _ call) h = (h, tt)

alone-All : (now : ℕ) (m : Result Contract) → Ensures (λ r. All (IsCallback now) r.1) (alone m)
alone-All now m = after m _ λ c _. returns _ tt

handle-All :
    (env : Env) (c : Contract) (call : Call)
    → IsContract env.now c
    → Ensures (λ r. All (IsCallback env.now) r.1) (handle env c call)
unfolding handle
handle-All env c (ft_on_transfer_call sender amount message) h =
    after (ft_on_transfer env c sender amount message) _ λ r _. returns _ tt
handle-All env c (claim_total_call details) h =
    given _ (claim_total-IsClaim env c details h) λ r hr. returns _ (claim-All env.now r.1 hr.1)
handle-All env c (withdraw_call id) h =
    after (withdraw env c id) _
      λ r _. returns _ (plain-All env.now after_withdraw_due r.1 (λ _. tt))
handle-All env c (withdraw_all_call ids) h =
    after (withdraw_all env c ids) _
      λ r _. returns _ (plain-All env.now after_bulk_withdraw_due r.1 (λ _. tt))
handle-All env c (restake_call from ticket signature amount) h =
    after (restake env c from ticket signature amount) _
      λ r _. returns _ (plain-All env.now after_transfer_remainder_due r.1 (λ _. tt))
handle-All env c (restake_all_call ticket signature amount) h =
    after (restake_all env c ticket signature amount) _
      λ r _. returns _ (plain-All env.now after_transfer_remainder_due r.1 (λ _. tt))
handle-All env c (record_score_call batch) h = alone-All env.now _
handle-All env c (apply_booster_call ids score timestamp) h =
    after (apply_booster_batch env c ids score timestamp) _ λ r _. returns _ tt
handle-All env c (set_timezone_call id shift) h = alone-All env.now _
handle-All env c (set_feature_enabled_call id feature enabled) h = alone-All env.now _
handle-All env c (batch_set_feature_enabled_call ids feature enabled) h = alone-All env.now _
handle-All env c (set_penalty_call id applied) h = alone-All env.now _
handle-All env c (batch_set_penalty_call ids applied) h = alone-All env.now _
handle-All env c (unlock_jars_for_account_call id ids) h = alone-All env.now _
handle-All env c withdraw_fee_call h =
    after (withdraw_fee env c) _
      λ r _. returns _ (plain-All env.now after_fee_withdrawn_due r.1 (λ _. tt))
handle-All env c (register_product_call p) h = alone-All env.now _
handle-All env c (set_enabled_call id is_enabled) h = alone-All env.now _
handle-All env c (set_public_key_call id key) h = alone-All env.now _
handle-All env c (migrate_products_call ps) h = alone-All env.now _
handle-All env c disable_migration_call h = alone-All env.now _
handle-All env c (enable_migration_call id) h = alone-All env.now _

-- Any public call, from a sound state.
pub handle-IsHandled :
    (env : Env) (c : Contract) (call : Call) {r : Contract × List Callback}
    → IsContract env.now c
    → IsCall env.now call
    → handle env c call ≡ ok r
    → IsHandled env.now r
handle-IsHandled env c call h hc done =
    (outcome _ (handle-IsContract env c call hc h) done, outcome _ (handle-All env c call h) done)

after_fee_withdrawn-IsContract :
    (c : Contract) (now amount : ℕ) (success : Bool)
    → IsContract now c
    → Ensures (λ r. IsContract now r.0) (after_fee_withdrawn c amount success)
unfolding after_fee_withdrawn
after_fee_withdrawn-IsContract c now amount true h = returns _ h
after_fee_withdrawn-IsContract c now amount false h =
    after (add_u128 c.fee_amount amount) _ λ fees _. returns _ h

-- Any callback, with either outcome of its transfer.
pub resolve-IsContract :
    (c : Contract) (now : ℕ) (due : Callback) (success : Bool)
    → IsContract now c
    → IsCallback now due
    → Ensures (IsContract now) (resolve c now due success)
unfolding resolve
resolve-IsContract c now (after_claim_due call) success h hd =
    given _ (after_claim-IsContract now c call success h hd) λ r hr. returns _ hr
resolve-IsContract c now (after_withdraw_due call) success h hd =
    given _ (after_withdraw-IsContract now c call success h) λ r hr. returns _ hr
resolve-IsContract c now (after_bulk_withdraw_due call) success h hd =
    given _ (after_bulk_withdraw-IsContract now c call success h) λ r hr. returns _ hr
resolve-IsContract c now (after_transfer_remainder_due r) success h hd =
    after_transfer_remainder-IsContract now c r success h
resolve-IsContract c now (after_fee_withdrawn_due amount) success h hd =
    given _ (after_fee_withdrawn-IsContract c now amount success h) λ r hr. returns _ hr
