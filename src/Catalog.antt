-- ===== src/Catalog.antt =====
-- The catalogue of products (contract/src/feature/product/api.rs; contract/src/migration/api.rs,
-- `migrate_products` and the switch of migration).
use sweat_jar.Base.{
  ℕ, Bool, true, false, not, xor_bool, Option, none, some, List, [], ◌∷◌, Result, ok, ◌>>=◌, ◌>>◌,
  require, product_exists, status_matches, String, if◌then◌else◌,
}
use sweat_jar.Base.Dict.{Dict, lookup, insert, contains}
use sweat_jar.Product.{
  Product, set_public_key, assert_score_based_product_is_protected, assert_fee_amount,
  assert_cap_order, assert_udecimal_exponents_in_range,
}
use sweat_jar.Contract.{
  Env, Contract, product_manager, maintainer, assert_role, assert_one_yocto, get_product,
  assert_migrate_from_previous_version,
}
pub mod Listed
pub mod Own

unfoldable pub put_product : Contract → String → Product → Contract
put_product c id p = record c { products = insert id p c.products }

-- The checks and the write that `register_product` and `migrate_products` share.
unfoldable pub add_product : Env → Contract → Product → Result Contract
unfolding put_product
add_product env c p = do
  require (not (contains p.id c.products)) product_exists
  assert_score_based_product_is_protected p
  assert_fee_amount env.below_one p
  assert_cap_order p
  assert_udecimal_exponents_in_range p
  ok (put_product c p.id p)

-- `register_product`
unfoldable pub register_product : Env → Contract → Product → Result Contract
unfolding add_product
register_product env c p = do
  assert_role env product_manager
  assert_one_yocto env
  add_product env c p

-- `set_enabled`
unfoldable pub set_enabled : Env → Contract → String → Bool → Result Contract
unfolding put_product
set_enabled env c id is_enabled = do
  assert_role env product_manager
  assert_one_yocto env
  p ← get_product c id
  require (xor_bool is_enabled p.is_enabled) status_matches
  ok (put_product c id (record p { is_enabled = is_enabled }))

-- `ProductApi::set_public_key`
unfoldable pub set_product_key : Env → Contract → String → List ℕ → Result Contract
unfolding put_product
set_product_key env c id key = do
  assert_role env product_manager
  assert_one_yocto env
  p ← get_product c id
  ok (put_product c id (set_public_key p (some key)))

unfoldable pub add_products : Env → Contract → List Product → Result Contract
unfolding add_product
add_products env c [] = ok c
add_products env c (p ∷ ps) = do c' ← add_product env c p; add_products env c' ps

-- `migrate_products`
unfoldable pub migrate_products : Env → Contract → List Product → Result Contract
unfolding add_products
migrate_products env c ps = do
  assert_migrate_from_previous_version c env.predecessor
  add_products env c ps

-- `disable_migration` and `enable_migration`
unfoldable pub disable_migration : Env → Contract → Result Contract
disable_migration env c = do
  assert_role env maintainer
  assert_one_yocto env
  ok (record c { previous_version_account_id = "system" })

unfoldable pub enable_migration : Env → Contract → String → Result Contract
enable_migration env c id = do
  assert_role env maintainer
  assert_one_yocto env
  ok (record c { previous_version_account_id = id })
