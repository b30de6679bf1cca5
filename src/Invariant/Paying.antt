-- ===== src/Invariant/Paying.antt =====
-- The callbacks of withdrawals keep the contract sound (contract/src/feature/withdraw/api.rs).
use sweat_jar.Base.{
  ℕ, Bool, true, false, ltb, ◌==◌, List, [], ◌∷◌, length, inl, inr, String, All-drop, Bool-cases,
  add_u128, overflow,
}
use sweat_jar.Base.Ensures.{Ensures, returns, panics, on_if, after, given}
use sweat_jar.Jar.{Jar, clean_up_deposits, should_close, try_lock, assert_not_locked}
use sweat_jar.Jar
use sweat_jar.Jar.Maturity.{drop-IsSorted}
use sweat_jar.Account.{Account}
use sweat_jar.Contract.{Contract}
use sweat_jar.Withdraw.{
  WithdrawalRequest, AfterWithdraw, AfterBulkWithdraw, new_view, close_or_keep, clean_up,
  after_withdraw, unlock_requested, view_requests, empty_bulk, clean_up_requested,
  after_bulk_withdraw,
}
use sweat_jar.Invariant.{
  IsJar, IsAccount, IsContract, get_jar-IsJar, put_jar-IsAccount, remove_jar-IsAccount,
  get_account-IsAccount, put_account-IsContract,
}

module _ (now : ℕ) where
  pub clean_up_deposits-IsJar :
      (jar : Jar) (n : ℕ) → IsJar now jar → Ensures (IsJar now) (clean_up_deposits jar n)
  unfolding clean_up_deposits
  clean_up_deposits-IsJar jar n ((sorted, past), cache) =
      on_if (n == length jar.deposits) _ _ (returns _ ((tt, tt), cache)) (
        on_if (ltb (length jar.deposits) n) _ _ (panics overflow) (
          returns _ ((drop-IsSorted n jar.deposits sorted, All-drop _ n jar.deposits past), cache)))

  close_or_keep-IsAccount :
      (a : Account) (id : String) (jar : Jar)
      → IsAccount now a
      → IsJar now jar
      → IsAccount now (close_or_keep a id jar)
  unfolding close_or_keep
  close_or_keep-IsAccount a id jar h hj = elim (Bool-cases (should_close jar)) [
    | inl empty ↦ rw empty (remove_jar-IsAccount now a id h)
    | inr full ↦ rw full (put_jar-IsAccount now a id jar h hj)
  ]

  clean_up-IsAccount :
      (a : Account) (r : WithdrawalRequest)
      → IsAccount now a
      → Ensures (IsAccount now) (clean_up a r)
  unfolding clean_up
  clean_up-IsAccount a r h = given _ (get_jar-IsJar now a r.product_id h) λ jar hj.
      given _ (clean_up_deposits-IsJar jar r.partition_index hj)
        λ jar' hj'. returns _ (close_or_keep-IsAccount a r.product_id jar' h hj')

  unlock_requested-IsAccount :
      (rs : List WithdrawalRequest) (a : Account)
      → IsAccount now a
      → Ensures (IsAccount now) (unlock_requested a rs)
  unfolding unlock_requested Jar.unlock
  unlock_requested-IsAccount [] a h = returns a h
  unlock_requested-IsAccount (r ∷ rs) a h = given _ (get_jar-IsJar now a r.product_id h) λ jar hj.
      unlock_requested-IsAccount rs _ (put_jar-IsAccount now a r.product_id (Jar.unlock jar) h hj)

  clean_up_requested-IsAccount :
      (rs : List WithdrawalRequest) (a : Account) (fees : ℕ)
      → IsAccount now a
      → Ensures (λ r. IsAccount now r.0) (clean_up_requested a fees rs)
  unfolding clean_up_requested
  clean_up_requested-IsAccount [] a fees h = returns _ h
  clean_up_requested-IsAccount (r ∷ rs) a fees h =
      after (add_u128 fees r.withdrawal.fee) _ λ fees' _.
        given _ (clean_up-IsAccount a r h) λ a' h'. clean_up_requested-IsAccount rs a' fees' h'

  -- `after_withdraw_internal`, on both outcomes.
  pub after_withdraw-IsContract :
      (c : Contract) (call : AfterWithdraw) (success : Bool)
      → IsContract now c
      → Ensures (λ r. IsContract now r.0) (after_withdraw c call success)
  unfolding after_withdraw Jar.unlock
  after_withdraw-IsContract c call success h =
      let id = call.request.product_id in
      given _ (get_account-IsAccount now c call.account_id h) λ a ha.
        given _ (get_jar-IsJar now a id ha) λ jar hj.
          let free = put_jar-IsAccount now a id (Jar.unlock jar) ha hj in
          on_if success _ _
            (given _ (clean_up-IsAccount _ call.request free) λ a'' h''.
              after (add_u128 c.fee_amount call.request.withdrawal.fee) _ λ fees _.
                after (new_view id call.request.withdrawal.amount call.request.withdrawal.fee) _
                  λ v _. returns _ (put_account-IsContract now c call.account_id a'' h h''))
            (after (new_view id 0 0) _
              λ v _. returns _ (put_account-IsContract now c call.account_id _ h free))

  -- `after_bulk_withdraw_internal`, on both outcomes.
  pub after_bulk_withdraw-IsContract :
      (c : Contract) (call : AfterBulkWithdraw) (success : Bool)
      → IsContract now c
      → Ensures (λ r. IsContract now r.0) (after_bulk_withdraw c call success)
  unfolding after_bulk_withdraw
  after_bulk_withdraw-IsContract c call false h =
      given _ (get_account-IsAccount now c call.account_id h) λ a ha.
        given _ (unlock_requested-IsAccount call.requests a ha)
          λ a' ha'. returns _ (put_account-IsContract now c call.account_id a' h ha')
  after_bulk_withdraw-IsContract c call true h =
      given _ (get_account-IsAccount now c call.account_id h) λ a ha.
        given _ (unlock_requested-IsAccount call.requests a ha) λ a' ha'.
          after (view_requests empty_bulk call.requests) _ λ v _.
            given _ (clean_up_requested-IsAccount call.requests a' c.fee_amount ha')
              λ r hr. returns _ (put_account-IsContract now c call.account_id r.0 h hr)
