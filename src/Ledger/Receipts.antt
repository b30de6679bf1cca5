-- ===== src/Ledger/Receipts.antt =====
-- A transfer to the contract adds its amount to the principal (contract/src/feature/ft_receiver.rs).
use sweat_jar.Base.{
  ℕ, ◌+◌, ◌/◌, ◌%◌, ◌≡◌, refl, true, ◌==◌, ltb, ltb→lt, Option, none, some, [], ◌∷◌, String, arith,
  add_u128, add_u128-eq-ok, length, require, require-eq-ok, account_not_empty, account_not_found,
  principal_mismatch, or_panic,
}
use sweat_jar.Base.Dict.{Dict, lookup}
use sweat_jar.Base.Sums.{sum_of, value_of}
use sweat_jar.Base.Ensures.{Ensures, returns, weaken, after, given}
use sweat_jar.Product.{assert_enabled, assert_cap}
use sweat_jar.Jar.{Jar, total_principal}
use sweat_jar.Jar.Liquid.{sum_from-eq}
use sweat_jar.Account.{Account, is_empty, has_no_jars, principal_from, get_total_principal}
use sweat_jar.Contract.{
  Env, Contract, oracle, get_product, assert_from_ft_contract, assert_migrate_from_previous_version,
}
use sweat_jar.Deposits.{verify_airdrop}
use sweat_jar.Migration.{
  AccountVersioned, read_account, migrate_account, is_new_or_empty_account, empty_or_absent,
}
use sweat_jar.Airdrop.{
  FtMessage, AirdropStakeMessage, stake, migrate, drop, or_else, airdrop, receive_airdrop, receive,
  ft_on_transfer,
}
use sweat_jar.Airdrop.Laws.{shared_out}
use sweat_jar.Ledger.{principal, account_principal, jar_principal, share, put_account-principal}
use sweat_jar.Ledger.Stakes.{deposit-principal, airdrop_each-principal}

receive_airdrop-principal :
    (env : Env) (c : Contract) (sender : String) (amount : ℕ) (m : AirdropStakeMessage)
    → Ensures (λ c'. principal c' ≡ principal c + amount) (receive_airdrop env c sender amount m)
unfolding receive_airdrop airdrop
receive_airdrop-principal env c sender amount m =
    let n = length m.receivers in
    let one = amount / n in
    after (require (env.has_role oracle sender) _) _ λ _ _.
      after (require (ltb 0 n) _) _ λ _ some_one. after (require (amount % n == 0) _) _ λ _ even.
        let whole =
          shared_out amount n (ltb→lt _ _ (require-eq-ok _ _ some_one)) (require-eq-ok _ _ even) in
        given _
          (after (get_product c m.ticket.product_id) _ λ p _. after (assert_enabled p) _ λ _ _.
            after (assert_cap p one) _ λ _ _.
              after (verify_airdrop env c m.ticket one m.receivers m.signature) _ λ _ _.
                airdrop_each-principal env.now m.receivers c m.ticket one p (or_else m.booster 0)
                  m.booster_timestamp _)
          λ r h. returns _ (omega (arith, h, whole))

total_principal-eq :
    (jars : Dict Jar) (acc : ℕ)
    → Ensures (λ n. n ≡ acc + sum_of jar_principal jars) (principal_from acc jars)
unfolding principal_from total_principal sum_of jar_principal
total_principal-eq [] acc = returns _ (omega arith)
total_principal-eq ((id, jar) ∷ jars) acc = after (total_principal jar) _ λ p hp.
    after (add_u128 acc p) _ λ acc' ha.
      weaken (λ n h. omega (arith, h, add_u128-eq-ok acc p ha, sum_from-eq 0 jar.deposits hp))
        (total_principal-eq jars acc')

get_total_principal-account_principal :
    (a : Account) → Ensures (λ n. n ≡ account_principal a) (get_total_principal a)
unfolding get_total_principal account_principal
get_total_principal-account_principal a =
    weaken (λ n h. omega (arith, h)) (total_principal-eq a.jars 0)

has_no_jars-sum : (jars : Dict Jar) → has_no_jars jars ≡ true → sum_of jar_principal jars ≡ 0
unfolding has_no_jars sum_of
has_no_jars-sum [] h = refl
has_no_jars-sum (_ ∷ _) h = cc

new-share : (o : Option Account) → empty_or_absent o ≡ true → value_of account_principal o ≡ 0
unfolding empty_or_absent is_empty value_of account_principal
new-share none h = refl
new-share (some a) h = has_no_jars-sum a.jars (ground arith)

migrate_account-principal :
    (c : Contract) (sender : String) (amount : ℕ) (id : String) (stored : Option AccountVersioned)
    → Ensures
        (λ c'. principal c' ≡ principal c + amount)
        (migrate_account c sender amount id stored)
unfolding migrate_account is_new_or_empty_account share
migrate_account-principal c sender amount id stored =
    after (assert_migrate_from_previous_version c sender) _ λ _ _.
      after (require (is_new_or_empty_account c id) account_not_empty) _ λ _ new.
        after (or_panic stored account_not_found) _ λ versioned _.
          after (read_account versioned) _ λ a _.
            given _ (get_total_principal-account_principal a) λ n total.
              after (require (n == amount) principal_mismatch) _ λ _ same.
                let e : n ≡ amount =
                  let t = require-eq-ok (n == amount) principal_mismatch same in ground arith in
                returns _ (
                  omega (
                    arith,
                    put_account-principal c id a,
                    new-share (lookup id c.accounts) (require-eq-ok _ _ new),
                    e,
                    total,
                  ))

pub ft_on_transfer-principal :
    (env : Env) (c : Contract) (sender : String) (amount : ℕ) (message : FtMessage)
    → Ensures
        (λ r. principal r.0 ≡ principal c + amount)
        (ft_on_transfer env c sender amount message)
unfolding ft_on_transfer receive
ft_on_transfer-principal env c sender amount (stake ticket signature receiver) =
    after (assert_from_ft_contract env c) _ λ _ _.
      given _ (deposit-principal env c (or_else receiver sender) ticket amount signature)
        λ c' h. returns _ h
ft_on_transfer-principal env c sender amount (migrate id stored) =
    after (assert_from_ft_contract env c) _
      λ _ _. given _ (migrate_account-principal c sender amount id stored) λ c' h. returns _ h
ft_on_transfer-principal env c sender amount (drop m) =
    after (assert_from_ft_contract env c) _
      λ _ _. given _ (receive_airdrop-principal env c sender amount m) λ c' h. returns _ h
