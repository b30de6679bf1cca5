-- ===== src/Pending/Owned.antt =====
-- No call and no callback lists a product under another id.
use sweat_jar.Base.{
  ℕ, ◌≡◌, refl, ◌==◌, Bool, true, false, List, Option, String, require, or_panic, account_not_found,
  add_u128, add_u32,
}
use sweat_jar.Base.Ensures.{Ensures, returns, on_if, always, after, given}
use sweat_jar.Account.{get_total_principal, get_jar}
use sweat_jar.Account
use sweat_jar.Contract.{
  Env, Contract, get_account, put_account, assert_role, maintainer,
  assert_migrate_from_previous_version,
}
use sweat_jar.Migration.{AccountVersioned, is_new_or_empty_account, read_account, migrate_account}
use sweat_jar.Oracle.{unlock_jars_for_account}
use sweat_jar.Claim.{AfterClaim, after_claim, unlock_claimed}
use sweat_jar.Withdraw.{
  AfterWithdraw, AfterBulkWithdraw, after_withdraw, after_bulk_withdraw, clean_up, new_view,
  unlock_requested, view_requests, clean_up_requested, empty_bulk,
}
use sweat_jar.Restake.{
  Request, restake, restake_all, build_restake, build_restake_all, clean_up_and_deposit,
  clean_up_partitions, unlock_partitions, withdrawn_amount, fee_of_withdrawal,
  after_transfer_remainder,
}
use sweat_jar.Fees.{after_fee_withdrawn}
use sweat_jar.World.{
  Call, Callback, handle, resolve, after_claim_due, after_withdraw_due, after_bulk_withdraw_due,
  after_transfer_remainder_due, after_fee_withdrawn_due,
}
use sweat_jar.World.Calls.{ft_on_transfer-IsKept, handle-IsKept}
use sweat_jar.Keeper.Restaking.{restake_internal-IsKept}
use sweat_jar.Catalog.Own.{IsOwn, put_account-IsOwn, same_products-IsOwn, cataloguer}

module _ (env : Env) (c : Contract) (own : IsOwn c) where
  migrate_account-IsOwn :
      (sender : String) (amount : ℕ) (id : String) (stored : Option AccountVersioned)
      → Ensures IsOwn (migrate_account c sender amount id stored)
  unfolding migrate_account
  migrate_account-IsOwn sender amount id stored =
      after (assert_migrate_from_previous_version c sender) _ λ _ _.
        after (require (is_new_or_empty_account c id) _) _ λ _ _.
          after (or_panic stored account_not_found) _ λ versioned _.
            after (read_account versioned) _ λ a _. after (get_total_principal a) _ λ principal _.
              after (require (principal == amount) _) _
                λ _ _. returns _ (put_account-IsOwn c id a own)

  unlock_jars_for_account-IsOwn :
      (id : String) (ids : List String) → Ensures IsOwn (unlock_jars_for_account env c id ids)
  unfolding unlock_jars_for_account
  unlock_jars_for_account-IsOwn id ids =
      after (assert_role env maintainer) _
        λ _ _. after (get_account c id) _ λ a _. returns _ (put_account-IsOwn c id _ own)

clean_up_and_deposit-IsOwn :
    (c : Contract) (r : Request) (now : ℕ) → IsOwn c → Ensures IsOwn (clean_up_and_deposit c r now)
unfolding clean_up_and_deposit
clean_up_and_deposit-IsOwn c r now own = after (get_account c r.account_id) _ λ a _.
    after (clean_up_partitions a r.partitions) _
      λ a' _. after (add_u32 _ 1) _ λ nonce _. returns _ (put_account-IsOwn c r.account_id _ own)

pub handle-IsOwn :
    (env : Env) (c : Contract) (call : Call)
    → IsOwn c
    → Ensures (λ r. IsOwn r.0) (handle env c call)
unfolding restake restake_all
handle-IsOwn env c call own =
    let K = cataloguer env.now in
    handle-IsKept env K c own (λ _. Unit)
      (ft_on_transfer-IsKept env K c own (λ _. Unit) (λ id a product_id principal h. tt)
        (λ sender amount id stored _. migrate_account-IsOwn env c own sender amount id stored))
      (λ from ticket signature amount _.
        restake_internal-IsKept env K (λ _. Unit) IsOwn (λ _ h. h)
          (λ c' r _ _ h. clean_up_and_deposit-IsOwn c' r env.now h) c ticket signature
          (build_restake env c from ticket amount) (always _ (λ _ _. tt)) own)
      (λ ticket signature amount _.
        restake_internal-IsKept env K (λ _. Unit) IsOwn (λ _ h. h)
          (λ c' r _ _ h. clean_up_and_deposit-IsOwn c' r env.now h) c ticket signature
          (build_restake_all env c ticket amount) (always _ (λ _ _. tt)) own)
      (λ id ids _. unlock_jars_for_account-IsOwn env c own id ids) (λ c1 c2 _ keeps h. keeps h) call
      tt

module _ (c : Contract) (now : ℕ) (own : IsOwn c) where
  kept : (c' : Contract) → c'.products ≡ c.products → IsOwn c'
  kept c' same = same_products-IsOwn c c' same own

  after_claim-IsOwn :
      (call : AfterClaim) (success : Bool) → Ensures (λ r. IsOwn r.0) (after_claim c call success)
  unfolding after_claim put_account
  after_claim-IsOwn call true = after (get_account c call.account_id) _ λ a _.
      after (or_panic call.account_rollback.new_jars account_not_found) _
        λ jars _. after (unlock_claimed a jars) _ λ a' _. returns _ (kept _ refl)
  after_claim-IsOwn call false =
      after (get_account c call.account_id) _
        λ a _. after (Account.apply a call.account_rollback) _ λ a' _. returns _ (kept _ refl)

  after_withdraw-IsOwn :
      (call : AfterWithdraw) (success : Bool)
      → Ensures (λ r. IsOwn r.0) (after_withdraw c call success)
  unfolding after_withdraw put_account
  after_withdraw-IsOwn call success = after (get_account c call.account_id) _ λ a _.
      after (get_jar a call.request.product_id) _ λ jar _.
        on_if success _ _
          (after (clean_up _ call.request) _ λ a' _.
            after (add_u128 c.fee_amount _) _
              λ fees _. after (new_view _ _ _) _ λ v _. returns _ (kept _ refl))
          (after (new_view _ 0 0) _ λ v _. returns _ (kept _ refl))

  after_bulk_withdraw-IsOwn :
      (call : AfterBulkWithdraw) (success : Bool)
      → Ensures (λ r. IsOwn r.0) (after_bulk_withdraw c call success)
  unfolding after_bulk_withdraw put_account
  after_bulk_withdraw-IsOwn call true = after (get_account c call.account_id) _ λ a _.
      after (unlock_requested a call.requests) _ λ a' _.
        after (view_requests empty_bulk call.requests) _ λ v _.
          after (clean_up_requested a' c.fee_amount call.requests) _ λ r _. returns _ (kept _ refl)
  after_bulk_withdraw-IsOwn call false =
      after (get_account c call.account_id) _
        λ a _. after (unlock_requested a call.requests) _ λ a' _. returns _ (kept _ refl)

  after_transfer_remainder-IsOwn :
      (r : Request) (success : Bool) → Ensures IsOwn (after_transfer_remainder c r now success)
  unfolding after_transfer_remainder put_account
  after_transfer_remainder-IsOwn r success = after (withdrawn_amount r.withdrawal) _ λ n _.
      after (get_account c r.account_id) _ λ a _. after (unlock_partitions a r.partitions) _ λ a' _.
        on_if success _ _
          (after (add_u128 c.fee_amount (fee_of_withdrawal r.withdrawal)) _
            λ fees _. clean_up_and_deposit-IsOwn _ r now (kept _ refl))
          (returns _ (kept _ refl))

  after_fee_withdrawn-IsOwn :
      (amount : ℕ) (success : Bool)
      → Ensures (λ r. IsOwn r.0) (after_fee_withdrawn c amount success)
  unfolding after_fee_withdrawn
  after_fee_withdrawn-IsOwn amount true = returns _ own
  after_fee_withdrawn-IsOwn amount false =
      after (add_u128 c.fee_amount amount) _ λ fees _. returns _ (kept _ refl)

  pub resolve-IsOwn : (due : Callback) (success : Bool) → Ensures IsOwn (resolve c now due success)
  unfolding resolve
  resolve-IsOwn (after_claim_due call) success =
      given _ (after_claim-IsOwn call success) λ r h. returns _ h
  resolve-IsOwn (after_withdraw_due call) success =
      given _ (after_withdraw-IsOwn call success) λ r h. returns _ h
  resolve-IsOwn (after_bulk_withdraw_due call) success =
      given _ (after_bulk_withdraw-IsOwn call success) λ r h. returns _ h
  resolve-IsOwn (after_transfer_remainder_due r) success = after_transfer_remainder-IsOwn r success
  resolve-IsOwn (after_fee_withdrawn_due amount) success =
      given _ (after_fee_withdrawn-IsOwn amount success) λ r h. returns _ h
