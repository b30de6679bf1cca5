-- ===== src/Contract.antt =====
-- The contract's state and what its handlers share (contract/src/lib.rs, common/assertions.rs,
-- feature/account/common.rs, feature/product/common.rs).
use sweat_jar.Base.{
  ℕ, Bool, if◌then◌else◌, Option, none, some, List, [], ◌∷◌, Result, ok, ◌>>=◌, or_panic, require,
  account_not_found, product_not_found, not_permitted, not_one_yocto, not_enough_gas,
  wrong_ft_contract, wrong_migration_source, timezone_not_set, ◌==◌, ltb, String, str_eq, not,
}
use sweat_jar.Base.Dict.{Dict, lookup, insert}
use sweat_jar.Decimal.{UDecimal}
use sweat_jar.Time.{is_valid}
use sweat_jar.Product.{Product}
use sweat_jar.Jar.{Jar}
use sweat_jar.Jar
use sweat_jar.Account.{Account, default_account, get_jar, put_jar}
use sweat_jar.Interest.{get_jar_interest}

pub data Role : Type 0 where
  oracle product_manager fee_manager maintainer staging_manager upgrade_manager : Role

-- What a signature is made for: the fields of `DepositMessage` and of `AirdropMessage`.
pub data Purpose : Type 0 where
  to_deposit to_restake : Purpose

pub data Message : Type 0 where
  deposit_message : Purpose → String → String → String → ℕ → ℕ → ℕ → Message
  airdrop_message : String → String → ℕ → ℕ → List String → Message

-- The host's side of a call: the block, the caller, and the code that is not the contract's
-- (access control of near_plugins, ed25519 verification, a comparison of floats).
pub record Env : Type 0 where
  pub now : ℕ
  pub predecessor : String
  pub current_account : String
  pub attached_yocto : ℕ
  pub gas_left : ℕ
  pub has_role : Role → String → Bool
  pub verifies : List ℕ → Message → List ℕ → Bool
  pub below_one : UDecimal → Bool

-- `Contract`. The products cache is not stored, so each call begins with an empty one and it
-- answers as `products` does.
pub record Contract : Type 0 where
  pub token_account_id : String
  pub fee_account_id : String
  pub products : Dict Product
  pub accounts : Dict Account
  pub fee_amount : ℕ
  pub previous_version_account_id : String

-- `PromiseOrValue`: a value now, or a token transfer whose outcome is given to a callback.
pub record Transfer : Type 0 where
  pub receiver_id : String
  pub amount : ℕ

pub data PromiseOrValue (A C : Type 0) : Type 0 where
  value : A → PromiseOrValue A C
  promise : Transfer → C → PromiseOrValue A C

-- `#[access_control_any(roles(..))]`
unfoldable pub assert_role : Env → Role → Result (Unit {0})
assert_role env role = require (env.has_role role env.predecessor) not_permitted

unfoldable pub assert_one_yocto : Env → Result (Unit {0})
assert_one_yocto env = require (env.attached_yocto == 1) not_one_yocto

unfoldable pub assert_gas : Env → ℕ → Result (Unit {0})
assert_gas env needed = require (not (ltb env.gas_left needed)) not_enough_gas

unfoldable pub assert_from_ft_contract : Env → Contract → Result (Unit {0})
assert_from_ft_contract env c =
    require (str_eq env.predecessor c.token_account_id) wrong_ft_contract

unfoldable pub assert_migrate_from_previous_version : Contract → String → Result (Unit {0})
assert_migrate_from_previous_version c account_id =
    require (str_eq account_id c.previous_version_account_id) wrong_migration_source

unfoldable pub get_account : Contract → String → Result Account
get_account c id = or_panic (lookup id c.accounts) account_not_found

-- A write through `get_account_mut`.
unfoldable pub put_account : Contract → String → Account → Contract
put_account c id a = record c { accounts = insert id a c.accounts }

unfoldable pub account_or_default : Option Account → ℕ → Account
unfolding default_account
account_or_default none now = default_account now
account_or_default (some a) now = a

-- `get_or_create_account_mut`, as a value: the caller writes it back.
unfoldable pub get_or_create_account : Contract → String → ℕ → Account
unfolding account_or_default
get_or_create_account c id now = account_or_default (lookup id c.accounts) now

unfoldable pub get_product : Contract → String → Result Product
get_product c id = or_panic (lookup id c.products) product_not_found

unfoldable pub assert_timezone_is_set : Contract → String → Result (Unit {0})
unfolding get_account is_valid
assert_timezone_is_set c id = do
  a ← get_account c id
  require (is_valid a.timezone) timezone_not_set

unfoldable select_products : Contract → (Product → Bool) → Dict Jar → Result (List Product)
unfolding get_product
select_products c filter [] = ok []
select_products c filter ((id, _) ∷ jars) = do
  p ← get_product c id
  ps ← select_products c filter jars
  ok (if filter p then p ∷ ps else ps)

-- `get_products_for_account`
unfoldable pub get_products_for_account :
    Contract → String → (Product → Bool) → Result (List Product)
unfolding get_account select_products
get_products_for_account c id filter = do a ← get_account c id; select_products c filter a.jars

-- `Account::update_jar_cache` (model/src/data/account/common.rs).
unfoldable pub cache_jar : Account → Product → ℕ → Result Account
unfolding get_jar put_jar Jar.update_cache
cache_jar a p now = do
  jar ← get_jar a p.id
  i ← get_jar_interest p.terms a jar now
  ok (put_jar a p.id (Jar.update_cache jar i.0 i.1 now))

-- `Contract::update_jar_cache`
unfoldable pub update_jar_cache : Contract → String → String → ℕ → Result Contract
unfolding get_product get_account put_account cache_jar
update_jar_cache c account_id product_id now = do
  p ← get_product c product_id
  a ← get_account c account_id
  a' ← cache_jar a p now
  ok (put_account c account_id a')
