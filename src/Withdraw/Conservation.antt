-- ===== src/Withdraw/Conservation.antt =====
-- A withdrawal and its callback (contract/src/feature/withdraw/api.rs).
use sweat_jar.Base.{
  ℕ, ◌+◌, ◌-◌, ◌≤◌, ◌≡◌, refl, sym, ap, ◌∙◌, true, false, leb, Option, none, some, List, [], ◌∷◌,
  ◌++◌, ok, >>=-eq-ok, ok-injective, require, arith, String, ◌<◌, u128_mod, add_u128-of_lt,
  sub_checked, sub_checked-of_le, sub_checked-eq-ok, fee_exceeds_amount, drop, Bool-cases, inl, inr,
}
use sweat_jar.Base.Dict.{lookup, lookup-insert_self, lookup-remove, str_eq_refl}
use sweat_jar.Product.{Terms, calculate_fee}
use sweat_jar.Jar.{Jar, Deposit, get_liquid_balance, clean_up_deposits, should_close}
use sweat_jar.Jar
use sweat_jar.Jar.Liquid.{principal_sum, clean_up_liquid}
use sweat_jar.Account.{Account, get_jar, put_jar}
use sweat_jar.Contract.{Env, Contract, get_account, put_account, get_product}
use sweat_jar.Withdraw.{
  WithdrawalDto, WithdrawalRequest, WithdrawView, AfterWithdraw, net_amount, request_for, new_view,
  clean_up, close_or_keep, after_withdraw,
}

-- The principal of a jar that may be gone.
abbrev pub principal_of : Option Jar → ℕ
principal_of none = 0
principal_of (some jar) = principal_sum jar.deposits

no_principal : (ds : List Deposit) → Jar.has_no_deposits ds ≡ true → principal_sum ds ≡ 0
unfolding Jar.has_no_deposits principal_sum
no_principal [] h = refl
no_principal (d ∷ ds) h = cc

should_close-no_principal : (jar : Jar) → should_close jar ≡ true → principal_sum jar.deposits ≡ 0
unfolding should_close
should_close-no_principal jar h = no_principal jar.deposits (ground arith)

principal_of-close_or_keep :
    (a : Account) (id : String) (jar : Jar)
    → principal_of (lookup id (close_or_keep a id jar).jars) ≡ principal_sum jar.deposits
unfolding close_or_keep put_jar
principal_of-close_or_keep a id jar = elim (Bool-cases (should_close jar)) [
  | inl closed ↦
      rw (closed, lookup-remove id id a.jars, str_eq_refl id)
        (sym (should_close-no_principal jar closed))
  | inr kept ↦ rw (kept, lookup-insert_self id jar a.jars) refl
]

pub request_for-balance :
    (env : Env) (c : Contract) (jar : Jar) (id : String) {r : WithdrawalRequest}
    → request_for env c jar id ≡ ok r
    → (terms : Terms) × (get_liquid_balance jar terms env.now
        ≡ ok (r.withdrawal.amount, r.partition_index))
unfolding request_for
request_for-balance env c jar id h =
    let (p, _, h1) = >>=-eq-ok (get_product c id) _ h in
    let (b, hb, h2) = >>=-eq-ok (get_liquid_balance jar p.terms env.now) _ h1 in
    let (fee, _, h3) = >>=-eq-ok (calculate_fee p b.0) _ h2 in
    let e = ok-injective h3 in
    (p.terms, hb ∙ ap (λ r. ok (r.withdrawal.amount, r.partition_index)) e)

clean_up-of_liquid :
    (env : Env) (a : Account) (jar : Jar) (terms : Terms) (later : List Deposit)
    (r : WithdrawalRequest)
    → get_liquid_balance jar terms env.now ≡ ok (r.withdrawal.amount, r.partition_index)
    → get_jar a r.product_id ≡ ok (record jar { deposits = jar.deposits ++ later })
    → (b : Account) × (clean_up a r ≡ ok b)
      × (principal_of (lookup r.product_id b.jars) + r.withdrawal.amount
          ≡ principal_sum (jar.deposits ++ later))
unfolding clean_up
clean_up-of_liquid env a jar terms later r hb hj =
    let (e, sum) = clean_up_liquid jar terms env.now later hb in
    let jar' : Jar = record jar { deposits = drop r.partition_index jar.deposits ++ later } in
    (
      close_or_keep a r.product_id jar',
      rw (hj, e) refl,
      omega (arith, sum, principal_of-close_or_keep a r.product_id jar'),
    )

new_view-fee :
    (id : String) (amount fee : ℕ) {v : WithdrawView}
    → new_view id amount fee ≡ ok v
    → v.withdrawn_amount + fee ≡ amount
unfolding new_view
new_view-fee id amount fee h =
    let (n, hn, h1) = >>=-eq-ok (sub_checked amount fee) _ h in
    omega (arith, sub_checked-eq-ok amount fee hn, ap (λ v. v.withdrawn_amount) (ok-injective h1))

unlocked_jar :
    (a : Account) (id : String) (jar : Jar) (later : List Deposit)
    → get_jar (put_jar a id (Jar.unlock (record jar { deposits = jar.deposits ++ later }))) id
      ≡ ok (record (Jar.unlock jar) { deposits = jar.deposits ++ later })
unfolding get_jar put_jar Jar.unlock
unlocked_jar a id jar later =
    rw
      (lookup-insert_self id (record jar { deposits = jar.deposits ++ later; is_locked = false })
        a.jars)
      refl

pub net_amount-lem :
    (w : WithdrawalDto) {net : ℕ}
    → net_amount w ≡ ok net
    → (w.fee ≤ w.amount) × (net ≡ w.amount - w.fee)
unfolding net_amount
net_amount-lem w {net} h =
    let (_, hr, h1) = >>=-eq-ok (require (leb w.fee w.amount) fee_exceeds_amount) _ h in
    let (e, e') = sub_checked-eq-ok w.amount w.fee h1 in (omega (arith, e), e')

-- The view and the account of a successful callback, from its parts.
success_parts :
    (c : Contract) (call : AfterWithdraw) (a b : Account) (jar : Jar)
    → get_account c call.account_id ≡ ok a
    → get_jar a call.request.product_id ≡ ok jar
    → clean_up (put_jar a call.request.product_id (Jar.unlock jar)) call.request ≡ ok b
    → call.request.withdrawal.fee ≤ call.request.withdrawal.amount
    → c.fee_amount + call.request.withdrawal.fee < u128_mod
    → after_withdraw c call true
      ≡ ok (
        record (put_account c call.account_id b) {
          fee_amount = c.fee_amount + call.request.withdrawal.fee;
        },
        record {
          product_id = call.request.product_id;
          withdrawn_amount = call.request.withdrawal.amount - call.request.withdrawal.fee;
          fee = call.request.withdrawal.fee;
        },
      )
unfolding after_withdraw new_view
success_parts c call a b jar ha hj hb le small =
    rw
      (
        ha,
        hj,
        hb,
        add_u128-of_lt c.fee_amount call.request.withdrawal.fee small,
        sub_checked-of_le call.request.withdrawal.amount call.request.withdrawal.fee le,
      )
      refl

-- The callback of a successful transfer, from the liquid balance that its request was made of.
pub after_withdraw-of_balance :
    (env : Env) (c1 : Contract) (call : AfterWithdraw) (a : Account) (jar : Jar) (terms : Terms)
    (later : List Deposit) {net : ℕ}
    → get_liquid_balance jar terms env.now
      ≡ ok (call.request.withdrawal.amount, call.request.partition_index)
    → net_amount call.request.withdrawal ≡ ok net
    → get_account c1 call.account_id ≡ ok a
    → get_jar a call.request.product_id ≡ ok (record jar { deposits = jar.deposits ++ later })
    → c1.fee_amount + call.request.withdrawal.fee < u128_mod
    → (b : Account) × (after_withdraw c1 call true
        ≡ ok (
          record (put_account c1 call.account_id b) {
            fee_amount = c1.fee_amount + call.request.withdrawal.fee;
          },
          record {
            product_id = call.request.product_id;
            withdrawn_amount = net;
            fee = call.request.withdrawal.fee;
          },
        ))
      × (principal_of (lookup call.request.product_id b.jars) + call.request.withdrawal.amount
          ≡ principal_sum (jar.deposits ++ later))
unfolding get_liquid_balance Jar.unlock
after_withdraw-of_balance env c1 call a jar terms later hb hn ha hj small =
    let r = call.request in
    let (le, en) = net_amount-lem r.withdrawal hn in
    let jar1 : Jar = record jar { deposits = jar.deposits ++ later } in
    let (b, e, sum) =
      clean_up-of_liquid env (put_jar a r.product_id (Jar.unlock jar1)) (Jar.unlock jar) terms later
        r hb (unlocked_jar a r.product_id jar later) in
    (b, rw en (success_parts c1 call a b jar1 ha hj e le small), sum)

-- A request was made from a jar (its liquid balance now, with a fee that leaves the net amount
-- `net` for the transfer), later deposits may have been pushed to the jar since, and the collected
-- fees stay a u128. Where the transfer succeeds, the callback returns: it has taken exactly
-- the requested amount from the jar's principal, has added the fee to the collected fees,
-- and reports `net` as withdrawn.
pub after_withdraw-success :
    (env : Env) (c c1 : Contract) (id : String) (a : Account) (jar : Jar) (later : List Deposit)
    {r : WithdrawalRequest} {net : ℕ}
    → request_for env c jar r.product_id ≡ ok r
    → net_amount r.withdrawal ≡ ok net
    → get_account c1 id ≡ ok a
    → get_jar a r.product_id ≡ ok (record jar { deposits = jar.deposits ++ later })
    → c1.fee_amount + r.withdrawal.fee < u128_mod
    → (b : Account) × (after_withdraw c1 (record { account_id = id; request = r }) true
        ≡ ok (
          record (put_account c1 id b) { fee_amount = c1.fee_amount + r.withdrawal.fee },
          record { product_id = r.product_id; withdrawn_amount = net; fee = r.withdrawal.fee },
        ))
      × (principal_of (lookup r.product_id b.jars) + r.withdrawal.amount
          ≡ principal_sum (jar.deposits ++ later))
after_withdraw-success env c c1 id a jar later {r} hr hn ha hj small =
    let (terms, hb) = request_for-balance env c jar r.product_id hr in
    after_withdraw-of_balance env c1 (record { account_id = id; request = r }) a jar terms later hb
      hn ha hj small

-- Where the transfer fails, the callback returns, unlocks the jar, changes nothing else, and
-- reports that nothing was withdrawn, whatever the state of the account and of its jar is.
pub after_withdraw-failure :
    (c : Contract) (call : AfterWithdraw) {a : Account} {jar : Jar}
    → get_account c call.account_id ≡ ok a
    → get_jar a call.request.product_id ≡ ok jar
    → after_withdraw c call false
      ≡ ok (
        put_account c call.account_id (put_jar a call.request.product_id (Jar.unlock jar)),
        record { product_id = call.request.product_id; withdrawn_amount = 0; fee = 0 },
      )
unfolding after_withdraw new_view sub_checked
after_withdraw-failure c call ha hj = rw (ha, hj) refl
