-- ===== src/Fees.antt =====
-- Withdrawal of the collected fees (contract/src/feature/fee/api.rs).
use sweat_jar.Base.{ℕ, Bool, true, false, Result, ok, ◌>>=◌, ◌>>◌, add_u128}
use sweat_jar.Contract.{Env, Contract, PromiseOrValue, promise, fee_manager, assert_role}
pub mod Laws

-- `withdraw_fee`: the callback is given the amount.
unfoldable pub withdraw_fee : Env → Contract → Result (Contract × PromiseOrValue ℕ ℕ)
withdraw_fee env c = do
  assert_role env fee_manager
  ok (
    record c { fee_amount = 0 },
    promise (record { receiver_id = c.fee_account_id; amount = c.fee_amount }) c.fee_amount,
  )

-- `after_fee_withdrawn`
unfoldable pub after_fee_withdrawn : Contract → ℕ → Bool → Result (Contract × ℕ)
after_fee_withdrawn c amount true = ok (c, amount)
after_fee_withdrawn c amount false = do
  fees ← add_u128 c.fee_amount amount
  ok (record c { fee_amount = fees }, 0)
