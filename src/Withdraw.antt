-- ===== src/Withdraw.antt =====
-- Withdrawal of principal (contract/src/feature/withdraw/api.rs, model/src/data/withdraw/view.rs).
use sweat_jar.Base.{
  ℕ, ◌+◌, ◌*◌, Bool, true, false, leb, if◌then◌else◌, Option, none, some, List, [], ◌∷◌, ◌++◌,
  Result, ok, panic, ◌>>=◌, ◌>>◌, require, fee_exceeds_amount, add_u128, sub_checked, String,
}
use sweat_jar.Base.Dict.{Dict, remove, keys}
use sweat_jar.Product.{calculate_fee}
use sweat_jar.Jar.{Jar, try_lock, clean_up_deposits, should_close, get_liquid_balance}
use sweat_jar.Jar
use sweat_jar.Account.{Account, get_jar, put_jar}
use sweat_jar.Contract.{
  Env, Contract, PromiseOrValue, value, promise, Transfer, assert_gas, get_account, put_account,
  get_product, update_jar_cache,
}
use sweat_jar.Settle.{update_account_cache}
use sweat_jar.Claim.{gas_for_ft_transfer}
pub mod Conservation
pub mod Bulk

pub record WithdrawalDto : Type 0 where
  pub amount : ℕ
  pub fee : ℕ

-- `net_amount`: a fee above the amount fails loudly.
unfoldable pub net_amount : WithdrawalDto → Result ℕ
net_amount w = do require (leb w.fee w.amount) fee_exceeds_amount; sub_checked w.amount w.fee

pub record WithdrawalRequest : Type 0 where
  pub product_id : String
  pub withdrawal : WithdrawalDto
  pub partition_index : ℕ

unfoldable total_net_amount_from : ℕ → List WithdrawalRequest → Result ℕ
unfolding net_amount
total_net_amount_from acc [] = ok acc
total_net_amount_from acc (r ∷ rs) = do
  n ← net_amount r.withdrawal
  acc' ← add_u128 acc n
  total_net_amount_from acc' rs

-- `BulkWithdrawalRequest::total_net_amount`
unfoldable pub total_net_amount : List WithdrawalRequest → Result ℕ
unfolding total_net_amount_from
total_net_amount rs = total_net_amount_from 0 rs

pub record WithdrawView : Type 0 where
  pub product_id : String
  pub withdrawn_amount : ℕ
  pub fee : ℕ

-- `WithdrawView::new`
unfoldable pub new_view : String → ℕ → ℕ → Result WithdrawView
new_view id amount fee = do
  n ← sub_checked amount fee
  ok (record { product_id = id; withdrawn_amount = n; fee = fee })

pub record BulkWithdrawView : Type 0 where
  pub total_amount : ℕ
  pub withdrawals : List WithdrawView

unfoldable pub empty_bulk : BulkWithdrawView
empty_bulk = record { total_amount = 0; withdrawals = [] }

-- What can be withdrawn from a jar now, as a request.
unfoldable pub request_for : Env → Contract → Jar → String → Result WithdrawalRequest
request_for env c jar product_id = do
  p ← get_product c product_id
  balance ← get_liquid_balance jar p.terms env.now
  fee ← calculate_fee p balance.0
  ok (record {
    product_id = p.id;
    withdrawal = record { amount = balance.0; fee = fee };
    partition_index = balance.1;
  })

-- The arguments of `after_withdraw` and of `after_bulk_withdraw`.
pub record AfterWithdraw : Type 0 where
  pub account_id : String
  pub request : WithdrawalRequest

pub record AfterBulkWithdraw : Type 0 where
  pub account_id : String
  pub requests : List WithdrawalRequest

-- `withdraw`, with `transfer_withdraw`
unfoldable pub withdraw :
    Env → Contract → String → Result (Contract × PromiseOrValue WithdrawView AfterWithdraw)
unfolding request_for net_amount
withdraw env c product_id = do
  let id = env.predecessor
  a ← get_account c id
  jar ← get_jar a product_id
  locked ← try_lock jar
  c' ← update_jar_cache (put_account c id (put_jar a product_id locked)) id product_id env.now
  a' ← get_account c' id
  jar' ← get_jar a' product_id
  request ← request_for env c' jar' product_id
  let own = record request { product_id = product_id }
  net ← net_amount own.withdrawal
  ok (
    c',
    promise (record { receiver_id = id; amount = net }) (record { account_id = id; request = own }),
  )

-- The requests of `withdraw_all`: a locked jar is passed over.
unfoldable pub collect_requests :
    Env → Contract → Account → List String → Result (List WithdrawalRequest)
unfolding request_for
collect_requests env c a [] = ok []
collect_requests env c a (id ∷ ids) = do
  jar ← get_jar a id
  rest ← (if jar.is_locked then ok [] else (request_for env c jar id >>= λ r. ok (r ∷ [])))
  more ← collect_requests env c a ids
  ok (rest ++ more)

unfoldable pub lock_requested : Account → List WithdrawalRequest → Result Account
lock_requested a [] = ok a
lock_requested a (r ∷ rs) = do
  jar ← get_jar a r.product_id
  lock_requested (put_jar a r.product_id (Jar.lock jar)) rs

abbrev pub gas_for_bulk_after_withdraw : ℕ
gas_for_bulk_after_withdraw = 15 * 1000000000000

-- `transfer_bulk_withdraw`, or the empty result where there is no request.
unfoldable pub transfer_bulk_withdraw :
    Env
    → Contract
    → String
    → List WithdrawalRequest
    → Result (Contract × PromiseOrValue BulkWithdrawView AfterBulkWithdraw)
unfolding empty_bulk total_net_amount
transfer_bulk_withdraw env c id [] = ok (c, value empty_bulk)
transfer_bulk_withdraw env c id (r ∷ rs) = do
  assert_gas env (gas_for_ft_transfer + gas_for_bulk_after_withdraw)
  net ← total_net_amount (r ∷ rs)
  ok (
    c,
    promise (record { receiver_id = id; amount = net })
        (record { account_id = id; requests = r ∷ rs }),
  )

unfoldable pub listed_or_all : Option (List String) → Account → List String
listed_or_all none a = keys a.jars
listed_or_all (some ids) a = ids

-- `withdraw_all`
unfoldable pub withdraw_all :
    Env
    → Contract
    → Option (List String)
    → Result (Contract × PromiseOrValue BulkWithdrawView AfterBulkWithdraw)
unfolding collect_requests lock_requested transfer_bulk_withdraw listed_or_all
withdraw_all env c product_ids = do
  let id = env.predecessor
  c' ← update_account_cache c id env.now
  a ← get_account c' id
  requests ← collect_requests env c' a (listed_or_all product_ids a)
  a' ← lock_requested a requests
  transfer_bulk_withdraw env (put_account c' id a') id requests

-- The jar left by a withdrawal: closed if nothing is left in it.
unfoldable pub close_or_keep : Account → String → Jar → Account
close_or_keep a id jar =
    if should_close jar then record a { jars = remove id a.jars } else put_jar a id jar

-- `Contract::clean_up`, on the account.
unfoldable pub clean_up : Account → WithdrawalRequest → Result Account
unfolding close_or_keep
clean_up a r = do
  jar ← get_jar a r.product_id
  jar' ← clean_up_deposits jar r.partition_index
  ok (close_or_keep a r.product_id jar')

-- `after_withdraw_internal`
unfoldable pub after_withdraw : Contract → AfterWithdraw → Bool → Result (Contract × WithdrawView)
unfolding clean_up new_view
after_withdraw c call success = do
  a ← get_account c call.account_id
  jar ← get_jar a call.request.product_id
  let a' = put_jar a call.request.product_id (Jar.unlock jar)
  if success
      then (clean_up a' call.request >>= λ a''.
          add_u128 c.fee_amount call.request.withdrawal.fee >>= λ fees.
          new_view call.request.product_id call.request.withdrawal.amount
            call.request.withdrawal.fee
          >>= λ v. ok (record (put_account c call.account_id a'') { fee_amount = fees }, v))
      else (new_view call.request.product_id 0 0 >>= λ v. ok (put_account c call.account_id a', v))

-- The unlocking of `process_bulk_withdrawal_error`, and of the first loop of the success path.
unfoldable pub unlock_requested : Account → List WithdrawalRequest → Result Account
unlock_requested a [] = ok a
unlock_requested a (r ∷ rs) = do
  jar ← get_jar a r.product_id
  unlock_requested (put_jar a r.product_id (Jar.unlock jar)) rs

unfoldable pub view_requests : BulkWithdrawView → List WithdrawalRequest → Result BulkWithdrawView
unfolding new_view
view_requests acc [] = ok acc
view_requests acc (r ∷ rs) = do
  v ← new_view r.product_id r.withdrawal.amount r.withdrawal.fee
  t ← add_u128 acc.total_amount v.withdrawn_amount
  view_requests (record { total_amount = t; withdrawals = acc.withdrawals ++ v ∷ [] }) rs

unfoldable pub clean_up_requested : Account → ℕ → List WithdrawalRequest → Result (Account × ℕ)
unfolding clean_up
clean_up_requested a fees [] = ok (a, fees)
clean_up_requested a fees (r ∷ rs) = do
  fees' ← add_u128 fees r.withdrawal.fee
  a' ← clean_up a r
  clean_up_requested a' fees' rs

-- `after_bulk_withdraw_internal`
unfoldable pub after_bulk_withdraw :
    Contract → AfterBulkWithdraw → Bool → Result (Contract × BulkWithdrawView)
unfolding unlock_requested view_requests clean_up_requested empty_bulk
after_bulk_withdraw c call false = do
  a ← get_account c call.account_id
  a' ← unlock_requested a call.requests
  ok (put_account c call.account_id a', empty_bulk)
after_bulk_withdraw c call true = do
  a ← get_account c call.account_id
  a' ← unlock_requested a call.requests
  v ← view_requests empty_bulk call.requests
  r ← clean_up_requested a' c.fee_amount call.requests
  ok (record (put_account c call.account_id r.0) { fee_amount = r.1 }, v)
