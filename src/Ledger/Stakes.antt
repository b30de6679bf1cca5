-- ===== src/Ledger/Stakes.antt =====
-- What is received adds to the principal (contract/src/feature/account/common.rs, `deposit`;
-- contract/src/feature/airdrop/api.rs; contract/src/feature/ft_receiver.rs).
use sweat_jar.Base.{
  ℕ, ◌+◌, ◌*◌, ◌≡◌, refl, ap, ◌∙◌, ◌==◌, Option, none, some, List, [], ◌∷◌, String, arith, add_u32,
  length,
}
use sweat_jar.Base.Dict.{lookup}
use sweat_jar.Base.Sums.{value_of}
use sweat_jar.Base.Ensures.{Ensures, returns, weaken, on_if, after, given}
use sweat_jar.Time.{Timezone}
use sweat_jar.Product.{Product, assert_enabled, assert_cap}
use sweat_jar.Jar.{Jar, push_deposit, empty_jar}
use sweat_jar.Jar.Liquid.{principal_sum, principal_sum-append}
use sweat_jar.Account.{Account, jar_or_default, put_jar, get_total_principal}
use sweat_jar.Account
use sweat_jar.Contract.{
  Env, Contract, get_product, get_account, put_account, get_or_create_account, to_deposit,
  cache_jar,
}
use sweat_jar.Deposits.{DepositTicket, verify, timezone_for, write_deposit, deposit}
use sweat_jar.Oracle.{BoosterData}
use sweat_jar.Airdrop.{create_airdrop_deposit, apply_airdrop_booster, airdrop_one, airdrop_each}
use sweat_jar.Keeper.Settling.{cache_jar-IsKept}
use sweat_jar.Keeper.Scoring.{timezone_for-IsKept}
use sweat_jar.Keeper.Depositing.{
  prepare_account_for_airdrop-IsKept, settle_interest_before_booster-IsKept,
  place_airdrop_booster-IsKept,
}
use sweat_jar.Ledger.{
  principal, account_principal, jar_principal, share, ledger, own-IsSplit, put_account-principal,
  put_jar-principal, get_account-share, create-share, other_field,
}

default-principal : (o : Option Jar) → jar_principal (jar_or_default o) ≡ value_of jar_principal o
unfolding jar_or_default empty_jar jar_principal value_of principal_sum
default-principal none = refl
default-principal (some jar) = refl

push_deposit-principal :
    (jar : Jar) (time amount : ℕ)
    → jar_principal (push_deposit jar time amount) ≡ jar_principal jar + amount
unfolding jar_principal push_deposit principal_sum
push_deposit-principal jar time amount = omega (
  arith,
  principal_sum-append jar.deposits (record { created_at = time; principal = amount } ∷ []),
)

pub deposit-account_principal :
    (a : Account) (id : String) (amount time : ℕ)
    → account_principal (Account.deposit a id amount time) ≡ account_principal a + amount
unfolding Account.deposit
deposit-account_principal a id amount time =
    let jar = jar_or_default (lookup id a.jars) in
    omega (
      arith,
      put_jar-principal a id (push_deposit jar time amount),
      push_deposit-principal jar time amount,
      default-principal (lookup id a.jars),
    )

cache_jar-principal :
    (now : ℕ) (id : String) (a : Account) (p : Product)
    → Ensures (λ b. account_principal b ≡ account_principal a) (cache_jar a p now)
cache_jar-principal now id a p =
    cache_jar-IsKept (ledger 0 (λ _. account_principal a) now) id a p refl

timezone_for-principal :
    (id : String) (a : Account) (p : Product) (tz : Option Timezone)
    → Ensures (λ b. account_principal b ≡ account_principal a) (timezone_for a p tz)
timezone_for-principal id a p tz =
    timezone_for-IsKept (ledger 0 (λ _. account_principal a) 0) id a p tz refl

-- An account that is stored again with more principal than it had.
put_more :
    (c : Contract) (id : String) (a b : Account) (amount : ℕ)
    → share c id ≡ account_principal a
    → account_principal b ≡ account_principal a + amount
    → principal (put_account c id b) ≡ principal c + amount
put_more c id a b amount had has = omega (arith, put_account-principal c id b, had, has)

-- `Contract::deposit`
pub deposit-principal :
    (env : Env) (c : Contract) (id : String) (ticket : DepositTicket) (amount : ℕ)
    (signature : Option (List ℕ))
    → Ensures (λ c'. principal c' ≡ principal c + amount) (deposit env c id ticket amount signature)
unfolding deposit write_deposit
deposit-principal env c id ticket amount signature =
    let a = get_or_create_account c id env.now in
    after (get_product c ticket.product_id) _ λ p _. after (assert_enabled p) _ λ _ _.
      after (assert_cap p amount) _ λ _ _.
        after (verify env c to_deposit id amount ticket signature) _ λ _ _.
          after (add_u32 a.nonce 1) _ λ nonce _.
            let a0 = record a { nonce = nonce } in
            given _ (timezone_for-principal id a0 p ticket.timezone) λ a' same.
              given _
                (cache_jar-principal env.now id
                  (Account.deposit a' ticket.product_id amount env.now) p)
                λ b cached. returns _ (
                  put_more c id a b amount (create-share c id env.now) (
                    cached
                    ∙ (deposit-account_principal a' ticket.product_id amount env.now
                        ∙ ap (λ n. n + amount) (same ∙ other_field a a0 refl))))

module _ (now : ℕ) where
  create_airdrop_deposit-principal :
      (c : Contract) (id : String) (ticket : DepositTicket) (amount : ℕ) (p : Product)
      → Ensures
          (λ c'. principal c' ≡ principal c + amount)
          (create_airdrop_deposit c now id ticket amount p)
  unfolding create_airdrop_deposit
  create_airdrop_deposit-principal c id ticket amount p = after (get_account c id) _ λ a ha.
      given _ (cache_jar-principal now id (Account.deposit a ticket.product_id amount now) p)
        λ b cached. returns _ (
          put_more c id a b amount (get_account-share c id ha)
            (cached ∙ deposit-account_principal a ticket.product_id amount now))

  airdrop_one-principal :
      (c : Contract) (id : String) (ticket : DepositTicket) (amount : ℕ) (p : Product) (booster : ℕ)
      (timestamp : Option ℕ) (noted : BoosterData)
      → Ensures
          (λ r. principal r.0 ≡ principal c + amount)
          (airdrop_one c now id ticket amount p booster timestamp noted)
  unfolding airdrop_one apply_airdrop_booster
  airdrop_one-principal c id ticket amount p booster timestamp noted =
      let K = ledger (principal c) (share c) now in
      given _ (prepare_account_for_airdrop-IsKept K c id ticket p (own-IsSplit c)) λ c1 h1.
        given _ (settle_interest_before_booster-IsKept K c1 id booster h1) λ c2 h2.
          given _ (create_airdrop_deposit-principal c2 id ticket amount p) λ c3 h3.
            let e = h3 ∙ ap (λ n. n + amount) h2.0 in
            on_if (booster == 0) _ _ (returns _ e) (
              weaken (λ r hr. hr.0 ∙ e)
                (place_airdrop_booster-IsKept (ledger (principal c3) (share c3) now) c3 id booster
                  timestamp noted (own-IsSplit c3)))

  pub airdrop_each-principal :
      (ids : List String) (c : Contract) (ticket : DepositTicket) (amount : ℕ) (p : Product)
      (booster : ℕ) (timestamp : Option ℕ) (noted : BoosterData)
      → Ensures
          (λ r. principal r.0 ≡ principal c + length ids * amount)
          (airdrop_each c now ids ticket amount p booster timestamp noted)
  unfolding airdrop_each
  airdrop_each-principal [] c ticket amount p booster timestamp noted = returns _ (omega arith)
  airdrop_each-principal (id ∷ ids) c ticket amount p booster timestamp noted =
      given _ (airdrop_one-principal c id ticket amount p booster timestamp noted) λ r h.
        weaken (λ r' h'. omega (arith, h, h'))
          (airdrop_each-principal ids r.0 ticket amount p booster timestamp r.1)
