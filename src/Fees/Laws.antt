-- ===== src/Fees/Laws.antt =====
-- The withdrawal of fees and its callback (contract/src/feature/fee/api.rs).
use sweat_jar.Base.{
  ℕ, ◌+◌, ◌<◌, ◌≡◌, refl, true, false, ok, >>=-eq-ok, arith, add_u128-of_lt, u128_mod,
}
use sweat_jar.Contract.{Env, Contract, PromiseOrValue, promise, assert_role, fee_manager}
use sweat_jar.Fees.{withdraw_fee, after_fee_withdrawn}

-- Where `withdraw_fee` returns and fees of `collected` come in before its callback: the transfer is of
-- all fees, to the fee account; where it succeeds only `collected` is left; and where it fails, the sum
-- being a u128, the old and the new fees are there together.
pub withdraw_fee-after :
    (env : Env) (c : Contract) (collected : ℕ) {c1 : Contract} {p : PromiseOrValue ℕ ℕ}
    → withdraw_fee env c ≡ ok (c1, p)
    → collected + c.fee_amount < u128_mod
    → let c2 : Contract = record c1 { fee_amount = c1.fee_amount + collected } in
      (p ≡ promise (record { receiver_id = c.fee_account_id; amount = c.fee_amount }) c.fee_amount)
      × (after_fee_withdrawn c2 c.fee_amount true
          ≡ ok (record c { fee_amount = collected }, c.fee_amount))
      × (after_fee_withdrawn c2 c.fee_amount false
          ≡ ok (record c { fee_amount = collected + c.fee_amount }, 0))
unfolding withdraw_fee after_fee_withdrawn
withdraw_fee-after env c collected {c1} {p} h small =
    let (_, _, h1) = >>=-eq-ok (assert_role env fee_manager) _ h in
    let e : c1 ≡ record c { fee_amount = 0 } = cc in
    let e' : p
        ≡ promise (record { receiver_id = c.fee_account_id; amount = c.fee_amount }) c.fee_amount =
      cc in
    let z : 0 + collected ≡ collected = omega arith in
    rw (e, z) (e', refl, rw (add_u128-of_lt collected c.fee_amount small) refl)
