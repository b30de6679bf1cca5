-- ===== src/Keeper/Depositing.antt =====
-- Deposits and airdrops change no deposit but the new ones (contract/src/feature/account/common.rs, `deposit`;
-- contract/src/feature/airdrop/api.rs).
use sweat_jar.Base.{ℕ, ltb, ◌==◌, Option, List, [], ◌∷◌, String, add_u32}
use sweat_jar.Base.Ensures.{Ensures, returns, on_if, after, given}
use sweat_jar.Time.{is_valid}
use sweat_jar.Product.{Product, assert_enabled, assert_cap}
use sweat_jar.Account.{Account, jar_or_default}
use sweat_jar.Account
use sweat_jar.Contract.{Env, Contract, to_deposit, get_or_create_account, get_product}
use sweat_jar.Deposits.{DepositTicket, verify, verify_airdrop, write_deposit, deposit}
use sweat_jar.Oracle.{BoosterData}
use sweat_jar.Airdrop.{
  prepare_account_for_airdrop, settle_interest_before_booster, create_airdrop_deposit,
  booster_days_ago, place_airdrop_booster, apply_airdrop_booster, airdrop_one, airdrop_each,
  airdrop,
}
use sweat_jar.Contract.{get_account}
use sweat_jar.Keeper.{Keeper}
use sweat_jar.Keeper.Settling.{settle_interest-IsKept, cache_jar-IsKept}
use sweat_jar.Keeper.Scoring.{timezone_for-IsKept, apply_booster_le}

module _ {now : ℕ} (K : Keeper now) where
  pub prepare_account_for_airdrop-IsKept :
      (c : Contract) (id : String) (ticket : DepositTicket) (p : Product)
      → K.IsKept c
      → Ensures K.IsKept (prepare_account_for_airdrop c now id ticket p)
  unfolding prepare_account_for_airdrop
  prepare_account_for_airdrop-IsKept c id ticket p h =
      given _
        (timezone_for-IsKept K id (get_or_create_account c id now) p ticket.timezone
          (K.create c id h))
        λ a ha. returns _ (K.write c id a h ha)

  pub settle_interest_before_booster-IsKept :
      (c : Contract) (id : String) (booster : ℕ)
      → K.IsKept c
      → Ensures K.IsKept (settle_interest_before_booster c now id booster)
  unfolding settle_interest_before_booster
  settle_interest_before_booster-IsKept c id booster h =
      on_if (ltb 0 booster) _ _ (settle_interest-IsKept K c id h) (returns c h)

  pub place_airdrop_booster-IsKept :
      (c : Contract) (id : String) (booster : ℕ) (timestamp : Option ℕ) (noted : BoosterData)
      → K.IsKept c
      → Ensures (λ r. K.IsKept r.0) (place_airdrop_booster c now id booster timestamp noted)
  unfolding place_airdrop_booster
  place_airdrop_booster-IsKept c id booster timestamp noted h = after (get_account c id) _ λ a ha.
      on_if (is_valid a.timezone) _ _
        (after (booster_days_ago a now timestamp) _ λ days_ago _.
          given _ (apply_booster_le now a.score days_ago booster)
            λ r le. returns _ (K.write c id _ h (K.change_score id a r.0 (K.read c id h ha) le)))
        (returns _ h)

module _ {now : ℕ} (K : Keeper now)
    (deposited : (id : String) (a : Account) (product_id : String) (principal : ℕ)
      → K.IsKeptAccount id a
      → K.IsKeptAccount id (Account.deposit a product_id principal now)) where
  create_airdrop_deposit-IsKept :
      (c : Contract) (id : String) (ticket : DepositTicket) (amount : ℕ) (p : Product)
      → K.IsKept c
      → Ensures K.IsKept (create_airdrop_deposit c now id ticket amount p)
  unfolding create_airdrop_deposit
  create_airdrop_deposit-IsKept c id ticket amount p h = after (get_account c id) _ λ a ha.
      given _
        (cache_jar-IsKept K id (Account.deposit a ticket.product_id amount now) p
          (deposited id a ticket.product_id amount (K.read c id h ha)))
        λ b hb. returns _ (K.write c id b h hb)

  airdrop_one-IsKept :
      (c : Contract) (id : String) (ticket : DepositTicket) (amount : ℕ) (p : Product) (booster : ℕ)
      (timestamp : Option ℕ) (noted : BoosterData)
      → K.IsKept c
      → Ensures (λ r. K.IsKept r.0) (airdrop_one c now id ticket amount p booster timestamp noted)
  unfolding airdrop_one apply_airdrop_booster
  airdrop_one-IsKept c id ticket amount p booster timestamp noted h =
      given _ (prepare_account_for_airdrop-IsKept K c id ticket p h) λ c1 h1.
        given _ (settle_interest_before_booster-IsKept K c1 id booster h1) λ c2 h2.
          given _ (create_airdrop_deposit-IsKept c2 id ticket amount p h2) λ c3 h3.
            on_if (booster == 0) _ _ (returns _ h3)
              (place_airdrop_booster-IsKept K c3 id booster timestamp noted h3)

  airdrop_each-IsKept :
      (ids : List String) (c : Contract) (ticket : DepositTicket) (amount : ℕ) (p : Product)
      (booster : ℕ) (timestamp : Option ℕ) (noted : BoosterData)
      → K.IsKept c
      → Ensures (λ r. K.IsKept r.0) (airdrop_each c now ids ticket amount p booster timestamp noted)
  unfolding airdrop_each
  airdrop_each-IsKept [] c ticket amount p booster timestamp noted h = returns _ h
  airdrop_each-IsKept (id ∷ ids) c ticket amount p booster timestamp noted h =
      given _ (airdrop_one-IsKept c id ticket amount p booster timestamp noted h)
        λ r hr. airdrop_each-IsKept ids r.0 ticket amount p booster timestamp r.1 hr

module _ (env : Env) (K : Keeper env.now)
    (deposited : (id : String) (a : Account) (product_id : String) (principal : ℕ)
      → K.IsKeptAccount id a
      → K.IsKeptAccount id (Account.deposit a product_id principal env.now))
    (c : Contract) (h : K.IsKept c) where
  -- `Contract::deposit`
  pub deposit-IsKept :
      (id : String) (ticket : DepositTicket) (amount : ℕ) (signature : Option (List ℕ))
      → Ensures K.IsKept (deposit env c id ticket amount signature)
  unfolding deposit write_deposit
  deposit-IsKept id ticket amount signature =
      let a = get_or_create_account c id env.now in
      after (get_product c ticket.product_id) _ λ p _. after (assert_enabled p) _ λ _ _.
        after (assert_cap p amount) _ λ _ _.
          after (verify env c to_deposit id amount ticket signature) _ λ _ _.
            after (add_u32 a.nonce 1) _ λ nonce _.
              given _
                (timezone_for-IsKept K id (record a { nonce = nonce }) p ticket.timezone
                  (K.change_nonce id a nonce (K.create c id h)))
                λ a' ha.
                  given _
                    (cache_jar-IsKept K id (Account.deposit a' ticket.product_id amount env.now) p
                      (deposited id a' ticket.product_id amount ha))
                    λ b hb. returns _ (K.write c id b h hb)

  -- `Contract::airdrop`
  pub airdrop-IsKept :
      (ticket : DepositTicket) (amount : ℕ) (receivers : List String) (signature : Option (List ℕ))
      (booster : ℕ) (timestamp : Option ℕ)
      → Ensures
          (λ r. K.IsKept r.0)
          (airdrop env c ticket amount receivers signature booster timestamp)
  unfolding airdrop
  airdrop-IsKept ticket amount receivers signature booster timestamp =
      after (get_product c ticket.product_id) _ λ p _. after (assert_enabled p) _ λ _ _.
        after (assert_cap p amount) _ λ _ _.
          after (verify_airdrop env c ticket amount receivers signature) _
            λ _ _. airdrop_each-IsKept K deposited receivers c ticket amount p booster timestamp _ h
