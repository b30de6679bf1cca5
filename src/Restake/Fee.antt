-- ===== src/Restake/Fee.antt =====
-- Splitting a mature balance and its fee (contract/src/feature/restake/api/api.rs).
use native.Mathlib.Nat.{mul_comm, mul-le-mul_left, lt_of_mul-lt-mul_left}
use native.Mathlib.Decide.{dec_le}
use sweat_jar.Base.{
  ℕ, ◌+◌, ◌*◌, ◌≤◌, ◌<◌, ◌≡◌, refl, ◌⊎◌, inl, inr, Bool-cases, ltb, leb, require, require-eq-ok,
  not_enough_funds, arith, Option, none, some, [], String, ok, >>=-eq-ok, sub_checked,
  sub_checked-eq-ok,
}
use sweat_jar.Account.{Account}
use sweat_jar.Contract.{Env, Contract, get_account}
use sweat_jar.Deposits.{DepositTicket}
use sweat_jar.Withdraw.{WithdrawalDto}
use sweat_jar.Restake.{
  Request, DepositDto, Mature, mul_div_ceil, new_deposit, target_or_all, withdrawal_of,
  build_restake_all, mature_jars, fee_of_withdrawal,
}

-- `mul_div_ceil a b c` is the least number that `c` times reaches `a * b`.
mul_div_ceil_lem :
    (a b c : ℕ) → 0 < c → (a * b ≤ mul_div_ceil a b c * c) × (mul_div_ceil a b c * c < a * b + c)
unfolding mul_div_ceil
mul_div_ceil_lem a b c h = (omega arith, omega arith)

ceil_le : (q x c : ℕ) → q * c < x * c + c → q ≤ x
ceil_le q x c h =
    let lt = lt_of_mul-lt-mul_left c {m = q} {n = x + 1} (omega arith) in omega (arith, lt)

-- Where the withdrawn part is no more than the whole, it carries no more than the whole fee; and
-- a fee that is covered by the whole stays covered by the part.
mul_div_ceil_bounds :
    (total_fee part whole : ℕ)
    → 0 < whole
    → part ≤ whole
    → (mul_div_ceil total_fee part whole ≤ total_fee)
      × ((whole < total_fee) ⊎ (mul_div_ceil total_fee part whole ≤ part))
mul_div_ceil_bounds total_fee part whole h le =
    let low = mul_div_ceil_lem total_fee part whole h in
    let cap = mul-le-mul_left total_fee le in
    (
      ceil_le (mul_div_ceil total_fee part whole) total_fee whole (omega (arith, low.1, cap)),
      elim (dec_le total_fee whole) [
        | yes covered ↦
            let cap' = mul-le-mul_left part covered in
            inr (
              ceil_le (mul_div_ceil total_fee part whole) part whole
                (omega (arith, low.1, cap', mul_comm total_fee part)))
        | no short ↦ inl (omega arith)
      ],
    )

-- What a request pays out, before the fee.
unfoldable pub payout : Option WithdrawalDto → ℕ
payout none = 0
payout (some w) = w.amount

new_deposit-le :
    (id : String) (balance : ℕ) (target : Option ℕ) {d : DepositDto}
    → new_deposit id balance target ≡ ok d
    → d.amount ≤ balance
unfolding new_deposit
new_deposit-le id balance target h =
    let (u, hu, h') =
      >>=-eq-ok (require (leb (target_or_all target balance) balance) not_enough_funds) _ h in
    ground (arith, require-eq-ok (leb (target_or_all target balance) balance) not_enough_funds hu)

withdrawal_of-eq-ok :
    (amount fee : ℕ) {w : Option WithdrawalDto}
    → withdrawal_of amount (ok fee) ≡ ok w
    → ((amount ≡ 0) × (w ≡ none))
      ⊎ ((0 < amount) × (w ≡ some (record { amount = amount; fee = fee })))
unfolding withdrawal_of
withdrawal_of-eq-ok amount fee {w} h = elim (Bool-cases (ltb 0 amount)) [
  | inl more ↦ inr (ground arith, ground arith)
  | inr nothing ↦ inl (ground arith, ground arith)
]

-- A restake of all jars takes the mature balance that the scan of the account's jars adds up, and splits it
-- without loss into the new deposit and the amount
-- paid out; the fee on the latter is no more than the fee on the whole balance, and it is covered
-- by the amount paid out whenever the balance covers the whole fee.
pub build_restake_all_splits :
    (env : Env) (c : Contract) (ticket : DepositTicket) (target : Option ℕ) {r : Request}
    → build_restake_all env c ticket target ≡ ok r
    → (a : Account) × (m : Mature) × (get_account c env.predecessor ≡ ok a)
      × (mature_jars env c (record { balance = 0; fee = 0; indices = [] }) a.jars ≡ ok m)
      × (payout r.withdrawal + r.deposit.amount ≡ m.balance)
      × (fee_of_withdrawal r.withdrawal ≤ m.fee)
      × ((m.balance < m.fee) ⊎ (fee_of_withdrawal r.withdrawal ≤ payout r.withdrawal))
      × (r.partitions ≡ m.indices)
unfolding build_restake_all payout fee_of_withdrawal
build_restake_all_splits env c ticket target {r} h =
    let (a, ha, h1) = >>=-eq-ok (get_account c env.predecessor) _ h in
    let (m, hm, h2) =
      >>=-eq-ok (mature_jars env c (record { balance = 0; fee = 0; indices = [] }) a.jars) _ h1 in
    let (d, hd, h3) = >>=-eq-ok (new_deposit ticket.product_id m.balance target) _ h2 in
    let (x, hx, h4) = >>=-eq-ok (sub_checked m.balance d.amount) _ h3 in
    let (w, hw, h5) = >>=-eq-ok (withdrawal_of x (ok (mul_div_ceil m.fee x m.balance))) _ h4 in
    let sub = sub_checked-eq-ok m.balance d.amount hx in
    let e : r ≡ record {
      account_id = env.predecessor;
      withdrawal = w;
      deposit = d;
      partitions = m.indices;
    } =
      cc in
    rw e (elim (withdrawal_of-eq-ok x (mul_div_ceil m.fee x m.balance) hw) [
      | inl (z, n) ↦ rw n (a, m, ha, hm, omega (arith, sub), omega arith, inr (omega arith), refl)
      | inr (p, n) ↦
          let bounds =
            mul_div_ceil_bounds m.fee x m.balance (omega (arith, sub)) (omega (arith, sub)) in
          rw n (a, m, ha, hm, omega (arith, sub), bounds.0, bounds.1, refl)
    ])
