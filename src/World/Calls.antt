-- ===== src/World/Calls.antt =====
-- A call keeps what the writes behind it keep.
use sweat_jar.Base.{
  ◌≡◌, refl, ℕ, ◌%◌, ◌/◌, ◌==◌, Bool, ltb, Option, List, [], ◌∷◌, Result, String, require, length,
  not, xor_bool,
}
use sweat_jar.Base.Dict.{contains}
use sweat_jar.Base.Ensures.{Ensures, returns, after, given}
use sweat_jar.Product.{
  Product, assert_score_based_product_is_protected, assert_fee_amount, assert_cap_order,
  assert_udecimal_exponents_in_range, set_public_key,
}
use sweat_jar.Contract.{
  Env, Contract, assert_role, assert_one_yocto, get_product, assert_from_ft_contract,
  assert_migrate_from_previous_version, product_manager, maintainer, fee_manager, oracle,
}
use sweat_jar.Account.{get_total_principal}
use sweat_jar.Restake.{restake, restake_all}
use sweat_jar.Fees.{withdraw_fee}
use sweat_jar.Catalog.{
  add_product, add_products, put_product, register_product, set_enabled, set_product_key,
  migrate_products, disable_migration, enable_migration,
}
use sweat_jar.Catalog.Own.{IsOwn, put_product-IsOwn, same_products-IsOwn}
use sweat_jar.Migration.{AccountVersioned, migrate_account}
use sweat_jar.Airdrop.{
  FtMessage, AirdropStakeMessage, stake, migrate, drop, or_else, receive_airdrop, receive,
  ft_on_transfer,
}
use sweat_jar.World.{
  Call, handle, alone, ft_on_transfer_call, claim_total_call, withdraw_call, withdraw_all_call,
  restake_call, restake_all_call, record_score_call, apply_booster_call, set_timezone_call,
  set_feature_enabled_call, batch_set_feature_enabled_call, set_penalty_call,
  batch_set_penalty_call, unlock_jars_for_account_call, withdraw_fee_call, register_product_call,
  set_enabled_call, set_public_key_call, migrate_products_call, disable_migration_call,
  enable_migration_call,
}
use sweat_jar.Keeper.{Keeper}
use sweat_jar.Keeper.Scoring.{
  record_score-IsKept, apply_booster_batch-IsKept, set_timezone-IsKept, set_account_feature-IsKept,
  batch_set_feature_enabled-IsKept, set_penalty-IsKept, batch_set_penalty-IsKept,
}
use sweat_jar.Keeper.Depositing.{deposit-IsKept, airdrop-IsKept}
use sweat_jar.Keeper.Paying.{withdraw-IsKept, withdraw_all-IsKept, claim_total-IsKept}
use sweat_jar.Oracle.{unlock_jars_for_account}
use sweat_jar.Account.{Account}
use sweat_jar.Account
use sweat_jar.Deposits.{DepositTicket}

-- A token transfer, given the writes of a deposit and of a migration.
module _ (env : Env) (K : Keeper env.now) (c : Contract) (h : K.IsKept c) (IsApt : Call → Type 0)
    (deposited : (id : String) (a : Account) (product_id : String) (principal : ℕ)
      → K.IsKeptAccount id a
      → K.IsKeptAccount id (Account.deposit a product_id principal env.now))
    (migrated : (sender : String) (amount : ℕ) (id : String) (stored : Option AccountVersioned)
      → IsApt (ft_on_transfer_call sender amount (migrate id stored))
      → Ensures K.IsKept (migrate_account c sender amount id stored)) where
  receive_airdrop-IsKept :
      (sender : String) (amount : ℕ) (m : AirdropStakeMessage)
      → Ensures K.IsKept (receive_airdrop env c sender amount m)
  unfolding receive_airdrop
  receive_airdrop-IsKept sender amount m = after (require (env.has_role oracle sender) _) _ λ _ _.
      after (require (ltb 0 (length m.receivers)) _) _ λ _ _.
        after (require (amount % length m.receivers == 0) _) _ λ _ _.
          given _
            (airdrop-IsKept env K deposited c h m.ticket (amount / length m.receivers) m.receivers
              m.signature (or_else m.booster 0) m.booster_timestamp)
            λ r hr. returns _ hr

  receive-IsKept :
      (sender : String) (amount : ℕ) (message : FtMessage)
      → IsApt (ft_on_transfer_call sender amount message)
      → Ensures K.IsKept (receive env c sender amount message)
  unfolding receive
  receive-IsKept sender amount (stake ticket signature receiver) apt =
      deposit-IsKept env K deposited c h (or_else receiver sender) ticket amount signature
  receive-IsKept sender amount (migrate id stored) apt = migrated sender amount id stored apt
  receive-IsKept sender amount (drop m) apt = receive_airdrop-IsKept sender amount m

  pub ft_on_transfer-IsKept :
      (sender : String) (amount : ℕ) (message : FtMessage)
      → IsApt (ft_on_transfer_call sender amount message)
      → Ensures (λ r. K.IsKept r.0) (ft_on_transfer env c sender amount message)
  unfolding ft_on_transfer
  ft_on_transfer-IsKept sender amount message apt =
      after (assert_from_ft_contract env c) _
        λ _ _. given _ (receive-IsKept sender amount message apt) λ c' hc. returns _ hc

-- Any call, given those of which a keeper says nothing.
module _ (env : Env) (K : Keeper env.now) (c : Contract) (h : K.IsKept c) (IsApt : Call → Type 0)
    (received : (sender : String) (amount : ℕ) (message : FtMessage)
      → IsApt (ft_on_transfer_call sender amount message)
      → Ensures (λ r. K.IsKept r.0) (ft_on_transfer env c sender amount message))
    (restaked : (from : String) (ticket : DepositTicket) (signature : Option (List ℕ))
        (amount : Option ℕ)
      → IsApt (restake_call from ticket signature amount)
      → Ensures (λ r. K.IsKept r.0) (restake env c from ticket signature amount))
    (all_restaked : (ticket : DepositTicket) (signature : Option (List ℕ)) (amount : Option ℕ)
      → IsApt (restake_all_call ticket signature amount)
      → Ensures (λ r. K.IsKept r.0) (restake_all env c ticket signature amount))
    (unlocked : (id : String) (ids : List String)
      → IsApt (unlock_jars_for_account_call id ids)
      → Ensures K.IsKept (unlock_jars_for_account env c id ids))
    (elsewhere : (c1 c2 : Contract)
      → c2.accounts ≡ c1.accounts
      → (IsOwn c1 → IsOwn c2)
      → K.IsKept c1
      → K.IsKept c2) where
  add_product-IsKept :
      (c' : Contract) (p : Product) → K.IsKept c' → Ensures K.IsKept (add_product env c' p)
  unfolding add_product put_product
  add_product-IsKept c' p h' = after (require (not (contains p.id c'.products)) _) _ λ _ _.
      after (assert_score_based_product_is_protected p) _ λ _ _.
        after (assert_fee_amount env.below_one p) _ λ _ _. after (assert_cap_order p) _ λ _ _.
          after (assert_udecimal_exponents_in_range p) _
            λ _ _. returns _ (elsewhere c' _ refl (put_product-IsOwn c' p.id p refl) h')

  add_products-IsKept :
      (ps : List Product) (c' : Contract) → K.IsKept c' → Ensures K.IsKept (add_products env c' ps)
  unfolding add_products
  add_products-IsKept [] c' h' = returns c' h'
  add_products-IsKept (p ∷ ps) c' h' =
      given _ (add_product-IsKept c' p h') λ c'' hc. add_products-IsKept ps c'' hc

  set_enabled-IsKept :
      (id : String) (is_enabled : Bool) → Ensures K.IsKept (set_enabled env c id is_enabled)
  unfolding set_enabled put_product
  set_enabled-IsKept id is_enabled = after (assert_role env product_manager) _ λ _ _.
      after (assert_one_yocto env) _ λ _ _. after (get_product c id) _ λ p hp.
        after (require (xor_bool is_enabled p.is_enabled) _) _ λ _ _.
          returns _ (elsewhere c _ refl (λ own. put_product-IsOwn c id _ (own id p hp) own) h)

  set_product_key-IsKept :
      (id : String) (key : List ℕ) → Ensures K.IsKept (set_product_key env c id key)
  unfolding set_product_key put_product set_public_key
  set_product_key-IsKept id key = after (assert_role env product_manager) _ λ _ _.
      after (assert_one_yocto env) _ λ _ _.
        after (get_product c id) _ λ p hp.
          returns _ (elsewhere c _ refl (λ own. put_product-IsOwn c id _ (own id p hp) own) h)

  withdraw_fee-IsKept : Ensures (λ r. K.IsKept r.0) (withdraw_fee env c)
  unfolding withdraw_fee
  withdraw_fee-IsKept =
      after (assert_role env fee_manager) _
        λ _ _. returns _ (elsewhere c _ refl (same_products-IsOwn c _ refl) h)

  alone-IsKept : {m : Result Contract} → Ensures K.IsKept m → Ensures (λ r. K.IsKept r.0) (alone m)
  alone-IsKept hm = given _ hm λ c' hc. returns _ hc

  -- The state that any public call leaves.
  pub handle-IsKept : (call : Call) → IsApt call → Ensures (λ r. K.IsKept r.0) (handle env c call)
  unfolding handle register_product migrate_products disable_migration enable_migration
  handle-IsKept (ft_on_transfer_call sender amount message) apt =
      given _ (received sender amount message apt) λ r hr. returns _ hr
  handle-IsKept (claim_total_call details) apt =
      given _ (claim_total-IsKept env K c details h) λ r hr. returns _ hr
  handle-IsKept (withdraw_call id) apt = given _ (withdraw-IsKept env K c id h) λ r hr. returns _ hr
  handle-IsKept (withdraw_all_call ids) apt =
      given _ (withdraw_all-IsKept env K c ids h) λ r hr. returns _ hr
  handle-IsKept (restake_call from ticket signature amount) apt =
      given _ (restaked from ticket signature amount apt) λ r hr. returns _ hr
  handle-IsKept (restake_all_call ticket signature amount) apt =
      given _ (all_restaked ticket signature amount apt) λ r hr. returns _ hr
  handle-IsKept (record_score_call batch) apt = alone-IsKept (record_score-IsKept env K c h batch)
  handle-IsKept (apply_booster_call ids score timestamp) apt =
      given _ (apply_booster_batch-IsKept env K c h ids score timestamp) λ r hr. returns _ hr
  handle-IsKept (set_timezone_call id shift) apt =
      alone-IsKept (set_timezone-IsKept env K c h id shift)
  handle-IsKept (set_feature_enabled_call id feature enabled) apt =
      alone-IsKept (set_account_feature-IsKept env K c h id feature enabled)
  handle-IsKept (batch_set_feature_enabled_call ids feature enabled) apt =
      alone-IsKept (batch_set_feature_enabled-IsKept env K c h ids feature enabled)
  handle-IsKept (set_penalty_call id applied) apt =
      alone-IsKept (set_penalty-IsKept env K c h id applied)
  handle-IsKept (batch_set_penalty_call ids applied) apt =
      alone-IsKept (batch_set_penalty-IsKept env K c h ids applied)
  handle-IsKept (unlock_jars_for_account_call id ids) apt = alone-IsKept (unlocked id ids apt)
  handle-IsKept withdraw_fee_call apt = given _ (withdraw_fee-IsKept) λ r hr. returns _ hr
  handle-IsKept (register_product_call p) apt = alone-IsKept (
      after (assert_role env product_manager) _
        λ _ _. after (assert_one_yocto env) _ λ _ _. add_product-IsKept c p h)
  handle-IsKept (set_enabled_call id is_enabled) apt =
      alone-IsKept (set_enabled-IsKept id is_enabled)
  handle-IsKept (set_public_key_call id key) apt = alone-IsKept (set_product_key-IsKept id key)
  handle-IsKept (migrate_products_call ps) apt = alone-IsKept (
      after (assert_migrate_from_previous_version c env.predecessor) _
        λ _ _. add_products-IsKept ps c h)
  handle-IsKept disable_migration_call apt = alone-IsKept (
      after (assert_role env maintainer) _ λ _ _.
        after (assert_one_yocto env) _
          λ _ _. returns _ (elsewhere c _ refl (same_products-IsOwn c _ refl) h))
  handle-IsKept (enable_migration_call id) apt = alone-IsKept (
      after (assert_role env maintainer) _ λ _ _.
        after (assert_one_yocto env) _
          λ _ _. returns _ (elsewhere c _ refl (same_products-IsOwn c _ refl) h))
