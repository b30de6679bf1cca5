-- ===== src/Examples/Money.antt =====
-- Examples of the theorems on withdrawals, deposits and fees.
use sweat_jar.Base.{
  ℕ, ◌≡◌, refl, true, false, ◌+◌, ◌*◌, ◌<◌, ◌≤◌, none, some, List, [], ◌∷◌, ◌++◌, Result, ok, panic,
  Panic, String, arith, u128_mod,
}
use sweat_jar.Base.Dict.{lookup}
use sweat_jar.Product.{Product, calculate_fee, assert_fee_amount, assert_cap}
use sweat_jar.Product.Laws.{calculate_fee-le}
use sweat_jar.Jar.{Jar, Deposit, get_liquid_balance}
use sweat_jar.Jar
use sweat_jar.Jar.Liquid.{principal_sum, clean_up_liquid}
use sweat_jar.Account.{Account, get_jar, put_jar}
use sweat_jar.Contract.{
  Contract, PromiseOrValue, promise, value, Transfer, get_account, put_account, get_product,
  get_or_create_account,
}
use sweat_jar.Withdraw.{
  WithdrawalRequest, AfterBulkWithdraw, request_for, net_amount, after_withdraw,
  transfer_bulk_withdraw,
}
use sweat_jar.Withdraw.Conservation.{principal_of, after_withdraw-success}
use sweat_jar.Withdraw.Bulk.{
  amounts, fees, transfer_bulk_withdraw-lem, transfer_bulk_withdraw-panics,
}
use sweat_jar.Deposits.{deposit}
use sweat_jar.Deposits.Guards.{IsAuthorised, message_of, deposit-guards}
use sweat_jar.Deposits.Effect.{deposits_under, deposit-effect}
use sweat_jar.Fees.{withdraw_fee, after_fee_withdrawn}
use sweat_jar.Fees.Laws.{withdraw_fee-after}
use sweat_jar.Examples.Data.{env, bank, alice, flex, year, year_jar, deposit_at, ticket, result_or}

abbrev year_request : WithdrawalRequest
year_request = record {
  product_id = "year";
  withdrawal = record { amount = 200000; fee = 2000 };
  partition_index = 1;
}

-- The account as the callback finds it: the jar is locked, and a deposit came in.
abbrev waiting_alice : Account
waiting_alice =
    put_jar alice "year"
      (record year_jar { deposits = year_jar.deposits ++ deposit_at 40 500 ∷ [] })

abbrev waiting : Contract
waiting = put_account bank "alice.near" waiting_alice

after_withdraw-success_example :
    (b : Account) × (after_withdraw waiting
        (record { account_id = "alice.near"; request = year_request })
        true
      ≡ ok (
        record (put_account waiting "alice.near" b) { fee_amount = 50 + 2000 },
        record { product_id = "year"; withdrawn_amount = 198000; fee = 2000 },
      ))
    × (principal_of (lookup "year" b.jars) + 200000
        ≡ principal_sum (year_jar.deposits ++ deposit_at 40 500 ∷ []))
unfolding calculate_fee get_account get_jar get_liquid_balance get_product lookup net_amount
    put_account put_jar request_for sweat_jar.Base.Dict.insert sweat_jar.Base.add_u128
    sweat_jar.Base.mul_u128 sweat_jar.Base.sub_checked sweat_jar.Decimal.mul sweat_jar.Decimal.pow10
    sweat_jar.Product.allows_early_withdrawal sweat_jar.Product.is_liquid
after_withdraw-success_example =
    after_withdraw-success env bank waiting "alice.near" waiting_alice year_jar
      (deposit_at 40 500 ∷ []) {r = year_request} {net = 198000} refl refl refl refl (omega arith)

-- Nothing is liquid in the jar, and the fee is fixed.
abbrev flex_request : WithdrawalRequest
flex_request = record {
  product_id = "flex";
  withdrawal = record { amount = 0; fee = 10 };
  partition_index = 0;
}

transfer_bulk_withdraw-lem_example :
    let call : AfterBulkWithdraw = record {
      account_id = "alice.near";
      requests = year_request ∷ [];
    } in
    let t : Transfer = record { receiver_id = "alice.near"; amount = 198000 } in
    (t.receiver_id ≡ "alice.near")
    × (t.amount + fees (year_request ∷ []) ≡ amounts (year_request ∷ []))
    × (call.requests ≡ year_request ∷ [])
unfolding sweat_jar.Base.add_u128 sweat_jar.Base.sub_checked sweat_jar.Contract.assert_gas
    transfer_bulk_withdraw
transfer_bulk_withdraw-lem_example =
    transfer_bulk_withdraw-lem env bank "alice.near" (year_request ∷ []) {out = bank}
      {t = record { receiver_id = "alice.near"; amount = 198000 }}
      {call = record { account_id = "alice.near"; requests = year_request ∷ [] }} refl

transfer_bulk_withdraw-panics_example :
    (e : Panic) × (transfer_bulk_withdraw env bank "alice.near"
        ((year_request ∷ []) ++ flex_request ∷ [])
      ≡ panic e)
transfer_bulk_withdraw-panics_example =
    transfer_bulk_withdraw-panics env bank "alice.near" (year_request ∷ []) [] flex_request
      (omega arith)

clean_up_liquid_example :
    let left = deposit_at 20 300000 ∷ deposit_at 40 500 ∷ [] in
    (Jar.clean_up_deposits
        (record year_jar { deposits = year_jar.deposits ++ deposit_at 40 500 ∷ [] })
        1
      ≡ ok (record year_jar { deposits = left }))
    × (200000 + principal_sum left ≡ principal_sum (year_jar.deposits ++ deposit_at 40 500 ∷ []))
unfolding get_liquid_balance sweat_jar.Base.add_u128 sweat_jar.Base.sub_checked
    sweat_jar.Product.allows_early_withdrawal sweat_jar.Product.is_liquid
clean_up_liquid_example =
    clean_up_liquid year_jar year.terms env.now (deposit_at 40 500 ∷ []) {b = (200000, 1)} refl

abbrev deposited_bank : Contract
deposited_bank = result_or bank (deposit env bank "alice.near" ticket 700 none)

deposit-guards_example :
    (p : Product) × (get_product bank "flex" ≡ ok p)
    × (p.is_enabled ≡ true)
    × (p.cap.min_cap ≤ 700)
    × (700 ≤ p.cap.max_cap)
    × IsAuthorised env p.public_key ticket (message_of env bank "alice.near" 700 ticket) none
unfolding assert_cap deposit get_or_create_account get_product lookup sweat_jar.Account.deposit
    sweat_jar.Base.Dict.insert sweat_jar.Base.add_u128 sweat_jar.Base.add_u32 sweat_jar.Base.add_u64
    sweat_jar.Base.sub_checked sweat_jar.Contract.cache_jar sweat_jar.Decimal.pow10
    sweat_jar.Interest.get_interest sweat_jar.Interest.get_jar_interest
    sweat_jar.Product.assert_enabled sweat_jar.Product.is_score_based
deposit-guards_example =
    deposit-guards env bank "alice.near" ticket 700 none {out = deposited_bank} refl

deposit-effect_example :
    let a = get_or_create_account bank "alice.near" env.now in
    (b : Account) × (get_account deposited_bank "alice.near" ≡ ok b)
    × (b.nonce ≡ a.nonce + 1)
    × (deposits_under flex.id b
        ≡ deposits_under flex.id a ++ record { created_at = env.now; principal = 700 } ∷ [])
unfolding assert_cap deposit get_or_create_account get_product lookup sweat_jar.Account.deposit
    sweat_jar.Base.Dict.insert sweat_jar.Base.add_u128 sweat_jar.Base.add_u32 sweat_jar.Base.add_u64
    sweat_jar.Base.sub_checked sweat_jar.Contract.cache_jar sweat_jar.Decimal.pow10
    sweat_jar.Interest.get_interest sweat_jar.Interest.get_jar_interest
    sweat_jar.Product.assert_enabled sweat_jar.Product.is_score_based
deposit-effect_example =
    deposit-effect env bank "alice.near" ticket 700 none {p = flex} {out = deposited_bank} refl refl
      refl

calculate_fee-le_example : 100 ≤ 10000
unfolding assert_cap assert_fee_amount calculate_fee sweat_jar.Base.mul_u128 sweat_jar.Decimal.mul
    sweat_jar.Decimal.pow10
calculate_fee-le_example =
    calculate_fee-le env.below_one year 10000 {fee = 100} (λ d h. ground arith) refl refl refl

withdraw_fee-after_example :
    let c1 : Contract = record bank { fee_amount = 0 } in
    let c2 : Contract = record c1 { fee_amount = c1.fee_amount + 7 } in
    (◌≡◌ {A = PromiseOrValue ℕ ℕ} (promise (record { receiver_id = "fees.near"; amount = 50 }) 50) (
      promise
        (record { receiver_id = bank.fee_account_id; amount = bank.fee_amount })
        bank.fee_amount))
    × (after_fee_withdrawn c2 bank.fee_amount true
        ≡ ok (record bank { fee_amount = 7 }, bank.fee_amount))
    × (after_fee_withdrawn c2 bank.fee_amount false
        ≡ ok (record bank { fee_amount = 7 + bank.fee_amount }, 0))
unfolding sweat_jar.Contract.assert_role withdraw_fee
withdraw_fee-after_example =
    withdraw_fee-after env bank 7 {c1 = record bank { fee_amount = 0 }}
      {p = promise (record { receiver_id = "fees.near"; amount = 50 }) 50} refl (omega arith)
