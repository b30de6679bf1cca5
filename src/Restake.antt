-- ===== src/Restake.antt =====
-- Restaking of mature deposits (contract/src/feature/restake/api/api.rs and prod.rs).
use sweat_jar.Base.{
  ℕ, ◌+◌, ◌-◌, ◌*◌, ◌/◌, Bool, true, false, ltb, leb, not, ◌==◌, if◌then◌else◌, Option, none, some,
  List, [], ◌∷◌, ◌++◌, Result, ok, panic, ◌>>=◌, ◌>>◌, require, nothing_to_restake,
  not_enough_funds, add_u128, add_u32, sub_checked, String,
}
use sweat_jar.Base.Dict.{Dict}
use sweat_jar.Product.{Product, assert_enabled, assert_cap, is_score_based, calculate_fee}
use sweat_jar.Jar.{Jar, assert_not_locked, clean_up_deposits, get_liquid_balance}
use sweat_jar.Jar
use sweat_jar.Account.{Account, get_jar, put_jar}
use sweat_jar.Account
use sweat_jar.Contract.{
  Env, Contract, PromiseOrValue, value, promise, Transfer, to_restake, assert_gas, get_account,
  put_account, get_product, update_jar_cache,
}
use sweat_jar.Deposits.{DepositTicket, verify, timezone_for}
use sweat_jar.Claim.{gas_for_ft_transfer}
use sweat_jar.Withdraw.{WithdrawalDto, net_amount}
pub mod Fee

pub record DepositDto : Type 0 where
  pub product_id : String
  pub amount : ℕ

pub record Request : Type 0 where
  pub account_id : String
  pub withdrawal : Option WithdrawalDto
  pub deposit : DepositDto
  pub partitions : List (String × ℕ)

unfoldable target_or_all : Option ℕ → ℕ → ℕ
target_or_all none mature_balance = mature_balance
target_or_all (some amount) mature_balance = amount

-- `DepositDto::new`
unfoldable pub new_deposit : String → ℕ → Option ℕ → Result DepositDto
unfolding target_or_all
new_deposit id mature_balance target = do
  require (leb (target_or_all target mature_balance) mature_balance) not_enough_funds
  ok (record { product_id = id; amount = target_or_all target mature_balance })

-- `mul_div_ceil`: the product is a U256, which two u128 cannot overflow.
unfoldable pub mul_div_ceil : ℕ → ℕ → ℕ → ℕ
mul_div_ceil a b c = (a * b + c - 1) / c

unfoldable pub withdrawal_of : ℕ → Result ℕ → Result (Option WithdrawalDto)
withdrawal_of amount fee =
    if ltb 0 amount then (fee >>= λ f. ok (some (record { amount = amount; fee = f }))) else ok none

-- `RestakeRequestBuilder::build`
unfoldable pub build_restake : Env → Contract → String → DepositTicket → Option ℕ → Result Request
unfolding new_deposit withdrawal_of
build_restake env c from ticket target = do
  a ← get_account c env.predecessor
  jar ← get_jar a from
  assert_not_locked jar
  p ← get_product c from
  balance ← get_liquid_balance jar p.terms env.now
  deposit ← new_deposit ticket.product_id balance.0 target
  amount ← sub_checked balance.0 deposit.amount
  withdrawal ← withdrawal_of amount (calculate_fee p amount)
  ok (record {
    account_id = env.predecessor;
    withdrawal = withdrawal;
    deposit = deposit;
    partitions = (from, balance.1) ∷ [];
  })

-- The running totals of `RestakeAllRequestBuilder`.
pub record Mature : Type 0 where
  pub balance : ℕ
  pub fee : ℕ
  pub indices : List (String × ℕ)

unfoldable pub add_mature : Product → String → Mature → ℕ × ℕ → Result Mature
add_mature p id m b =
    if ltb 0 b.0
    then (add_u128 m.balance b.0 >>= λ balance. calculate_fee p b.0 >>= λ f.
        add_u128 m.fee f >>= λ fee.
        ok (record { balance = balance; fee = fee; indices = m.indices ++ (id, b.1) ∷ [] }))
    else ok m

unfoldable pub mature_jar : Env → Contract → Mature → String → Jar → Result Mature
unfolding add_mature
mature_jar env c m id jar =
    if jar.is_locked
    then ok m
    else (get_product c id >>= λ p. get_liquid_balance jar p.terms env.now >>= add_mature p id m)

unfoldable pub mature_jars : Env → Contract → Mature → Dict Jar → Result Mature
unfolding mature_jar
mature_jars env c m [] = ok m
mature_jars env c m ((id, jar) ∷ jars) = do
  m' ← mature_jar env c m id jar
  mature_jars env c m' jars

-- `RestakeAllRequestBuilder::build`
unfoldable pub build_restake_all : Env → Contract → DepositTicket → Option ℕ → Result Request
unfolding new_deposit withdrawal_of mature_jars mul_div_ceil
build_restake_all env c ticket target = do
  a ← get_account c env.predecessor
  m ← mature_jars env c (record { balance = 0; fee = 0; indices = [] }) a.jars
  deposit ← new_deposit ticket.product_id m.balance target
  amount ← sub_checked m.balance deposit.amount
  withdrawal ← withdrawal_of amount (ok (mul_div_ceil m.fee amount m.balance))
  ok (record {
    account_id = env.predecessor;
    withdrawal = withdrawal;
    deposit = deposit;
    partitions = m.indices;
  })

-- `prepare_request_safely`, for a request that a builder makes.
unfoldable pub prepare_request_safely :
    Env → Contract → DepositTicket → Option (List ℕ) → Result Request → Result Request
prepare_request_safely env c ticket signature build = do
  p ← get_product c ticket.product_id
  assert_enabled p
  request ← build
  require (not (request.deposit.amount == 0)) nothing_to_restake
  assert_cap p request.deposit.amount
  verify env c to_restake request.account_id request.deposit.amount ticket signature
  ok request

-- The amount that `RestakeData::from` reports as withdrawn.
unfoldable pub withdrawn_amount : Option WithdrawalDto → Result ℕ
withdrawn_amount none = ok 0
withdrawn_amount (some w) = sub_checked w.amount w.fee

unfoldable pub cache_partitions : Contract → String → ℕ → List (String × ℕ) → Result Contract
cache_partitions c id now [] = ok c
cache_partitions c id now ((product_id, _) ∷ rest) = do
  c' ← update_jar_cache c id product_id now
  cache_partitions c' id now rest

unfoldable pub clean_up_partitions : Account → List (String × ℕ) → Result Account
clean_up_partitions a [] = ok a
clean_up_partitions a ((id, n) ∷ rest) = do
  jar ← get_jar a id
  jar' ← clean_up_deposits jar n
  clean_up_partitions (put_jar a id jar') rest

-- `clean_up_and_deposit`
unfoldable pub clean_up_and_deposit : Contract → Request → ℕ → Result Contract
unfolding clean_up_partitions
clean_up_and_deposit c r now = do
  a ← get_account c r.account_id
  a' ← clean_up_partitions a r.partitions
  let a'' = Account.deposit a' r.deposit.product_id r.deposit.amount now
  nonce ← add_u32 a''.nonce 1
  ok (put_account c r.account_id (record a'' { nonce = nonce }))

unfoldable pub lock_partitions : Account → List (String × ℕ) → Result Account
lock_partitions a [] = ok a
lock_partitions a ((id, _) ∷ rest) = do
  jar ← get_jar a id
  lock_partitions (put_jar a id (Jar.lock jar)) rest

unfoldable pub unlock_partitions : Account → List (String × ℕ) → Result Account
unlock_partitions a [] = ok a
unlock_partitions a ((id, _) ∷ rest) = do
  jar ← get_jar a id
  unlock_partitions (put_jar a id (Jar.unlock jar)) rest

abbrev pub gas_for_after_transfer_remainder : ℕ
gas_for_after_transfer_remainder = 4 * 1000000000000

-- The end of `restake_internal`: with nothing to pay out the restake is done; else the jars are
-- locked and `transfer_remainder` pays the net amount.
unfoldable pub finish_restake :
    Env
    → Contract
    → Request
    → Option WithdrawalDto
    → Result (Contract × PromiseOrValue (Unit {0}) Request)
unfolding clean_up_and_deposit lock_partitions
finish_restake env c r none = do c' ← clean_up_and_deposit c r env.now; ok (c', value tt)
finish_restake env c r (some w) = do
  a ← get_account c r.account_id
  a' ← lock_partitions a r.partitions
  net ← net_amount w
  assert_gas env (gas_for_ft_transfer + gas_for_after_transfer_remainder)
  ok (
    put_account c r.account_id a',
    promise (record { receiver_id = r.account_id; amount = net }) r,
  )

-- `restake_internal`
unfoldable pub restake_internal :
    Env
    → Contract
    → DepositTicket
    → Option (List ℕ)
    → Result Request
    → Result (Contract × PromiseOrValue (Unit {0}) Request)
unfolding prepare_request_safely withdrawn_amount cache_partitions finish_restake
restake_internal env c ticket signature build = do
  request ← prepare_request_safely env c ticket signature build
  _ ← withdrawn_amount request.withdrawal
  c' ← cache_partitions c request.account_id env.now request.partitions
  p ← get_product c' ticket.product_id
  a ← get_account c' request.account_id
  a' ← timezone_for a p ticket.timezone
  finish_restake env (put_account c' request.account_id a') request request.withdrawal

-- `RestakeApi::restake` and `RestakeApi::restake_all`.
unfoldable pub restake :
    Env
    → Contract
    → String
    → DepositTicket
    → Option (List ℕ)
    → Option ℕ
    → Result (Contract × PromiseOrValue (Unit {0}) Request)
unfolding restake_internal build_restake
restake env c from ticket signature amount =
    restake_internal env c ticket signature (build_restake env c from ticket amount)

unfoldable pub restake_all :
    Env
    → Contract
    → DepositTicket
    → Option (List ℕ)
    → Option ℕ
    → Result (Contract × PromiseOrValue (Unit {0}) Request)
unfolding restake_internal build_restake_all
restake_all env c ticket signature amount =
    restake_internal env c ticket signature (build_restake_all env c ticket amount)

unfoldable pub fee_of_withdrawal : Option WithdrawalDto → ℕ
fee_of_withdrawal none = 0
fee_of_withdrawal (some w) = w.fee

-- `after_transfer_remainder`, run at the time `now`.
unfoldable pub after_transfer_remainder : Contract → Request → ℕ → Bool → Result Contract
unfolding withdrawn_amount unlock_partitions fee_of_withdrawal clean_up_and_deposit
after_transfer_remainder c r now success = do
  _ ← withdrawn_amount r.withdrawal
  a ← get_account c r.account_id
  a' ← unlock_partitions a r.partitions
  let c' = put_account c r.account_id a'
  if success
      then (add_u128 c'.fee_amount (fee_of_withdrawal r.withdrawal) >>= λ fees.
          clean_up_and_deposit (record c' { fee_amount = fees }) r now)
      else ok c'
