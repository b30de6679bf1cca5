-- ===== src/Keeper/Restaking.antt =====
-- A restake: what is kept up to its clean-up, and what the clean-up makes of it (contract/src/feature/restake/api/api.rs).
use sweat_jar.Base.{ℕ, ◌+◌, ◌≡◌, refl, List, Option, none, some, Result, require, not, ◌==◌}
use sweat_jar.Base.Ensures.{Ensures, returns, after, given}
use sweat_jar.Product.{assert_enabled, assert_cap}
use sweat_jar.Contract.{
  Env, Contract, PromiseOrValue, assert_gas, get_product, get_account, to_restake,
}
use sweat_jar.Deposits.{DepositTicket, verify}
use sweat_jar.Claim.{gas_for_ft_transfer}
use sweat_jar.Withdraw.{WithdrawalDto, net_amount}
use sweat_jar.Restake.{
  Request, prepare_request_safely, withdrawn_amount, clean_up_and_deposit, finish_restake,
  restake_internal, gas_for_after_transfer_remainder,
}
use sweat_jar.Keeper.{Keeper}
use sweat_jar.Keeper.Scoring.{timezone_for-IsKept}
use sweat_jar.Keeper.Paying.{cache_partitions-IsKept, lock_partitions-IsKept}

-- `restake_internal`, for an apt request however it is made, up to its end.
module _ (env : Env) (K : Keeper env.now) (IsApt : Request → Type 0)
    (Q : Contract × PromiseOrValue (Unit {0}) Request → Type 0)
    (finish : (c : Contract) (r : Request)
      → IsApt r
      → K.IsKept c
      → Ensures Q (finish_restake env c r r.withdrawal)) where
  prepare_request_safely-IsApt :
      (c : Contract) (ticket : DepositTicket) (signature : Option (List ℕ)) (build : Result Request)
      → Ensures IsApt build
      → Ensures IsApt (prepare_request_safely env c ticket signature build)
  unfolding prepare_request_safely
  prepare_request_safely-IsApt c ticket signature build apt =
      after (get_product c ticket.product_id) _ λ p _. after (assert_enabled p) _ λ _ _.
        given _ apt λ request hr. after (require (not (request.deposit.amount == 0)) _) _ λ _ _.
          after (assert_cap p request.deposit.amount) _ λ _ _.
            after
              (verify env c to_restake request.account_id request.deposit.amount ticket signature) _
              λ _ _. returns _ hr

  pub restake_internal-Ensures :
      (c : Contract) (ticket : DepositTicket) (signature : Option (List ℕ)) (build : Result Request)
      → Ensures IsApt build
      → K.IsKept c
      → Ensures Q (restake_internal env c ticket signature build)
  unfolding restake_internal
  restake_internal-Ensures c ticket signature build apt h =
      given _ (prepare_request_safely-IsApt c ticket signature build apt) λ request hr.
        after (withdrawn_amount request.withdrawal) _ λ _ _.
          given _ (cache_partitions-IsKept K request.partitions c request.account_id h) λ c' hc.
            after (get_product c' ticket.product_id) _ λ p _.
              after (get_account c' request.account_id) _ λ a ha.
                given _
                  (timezone_for-IsKept K request.account_id a p ticket.timezone
                    (K.read c' request.account_id hc ha))
                  λ a' ha'. finish _ request hr (K.write c' request.account_id a' hc ha')

-- What is kept up to the clean-up, and what the clean-up makes of it.
module _ (env : Env) (K : Keeper env.now) (IsApt : Request → Type 0) (Q : Contract → Type 0)
    (kept : (c : Contract) → K.IsKept c → Q c)
    (cleaned : (c : Contract) (r : Request)
      → IsApt r
      → r.withdrawal ≡ none
      → K.IsKept c
      → Ensures Q (clean_up_and_deposit c r env.now)) where
  finish_restake-IsKept :
      (c : Contract) (r : Request) (withdrawal : Option WithdrawalDto)
      → IsApt r
      → r.withdrawal ≡ withdrawal
      → K.IsKept c
      → Ensures (λ x. Q x.0) (finish_restake env c r withdrawal)
  unfolding finish_restake
  finish_restake-IsKept c r none apt e h = given _ (cleaned c r apt e h) λ c' hc. returns _ hc
  finish_restake-IsKept c r (some w) apt e h = after (get_account c r.account_id) _ λ a ha.
      given _ (lock_partitions-IsKept K r.partitions r.account_id a (K.read c r.account_id h ha))
        λ a' ha'. after (net_amount w) _ λ net _.
          after (assert_gas env (gas_for_ft_transfer + gas_for_after_transfer_remainder)) _
            λ _ _. returns _ (kept _ (K.write c r.account_id a' h ha'))

  pub restake_internal-IsKept :
      (c : Contract) (ticket : DepositTicket) (signature : Option (List ℕ)) (build : Result Request)
      → Ensures IsApt build
      → K.IsKept c
      → Ensures (λ x. Q x.0) (restake_internal env c ticket signature build)
  restake_internal-IsKept =
      restake_internal-Ensures env K IsApt (λ x. Q x.0)
        (λ c r apt h. finish_restake-IsKept c r r.withdrawal apt refl h)
