-- ===== src/Catalog/Listed.antt =====
-- The products in the catalogue (contract/src/feature/product/api.rs).
use sweat_jar.Base.{
  ℕ, ◌≡◌, sym, subst, Bool, not, some, List, [], ◌∷◌, ok, >>=-eq-ok, ok-injective, or_panic-eq-ok,
  require, xor_bool, status_matches, product_exists, product_not_found, All, arith, String,
}
use sweat_jar.Base.Dict.{contains, All-insert, All-lookup}
use sweat_jar.Product.{
  Product, assert_score_based_product_is_protected, assert_fee_amount, assert_cap_order,
  assert_udecimal_exponents_in_range, is_protected, set_public_key,
}
use sweat_jar.Decimal.{UDecimal}
use sweat_jar.Contract.{
  Env, Contract, assert_role, assert_one_yocto, get_product, product_manager,
  assert_migrate_from_previous_version,
}
use sweat_jar.Catalog.{
  put_product, add_product, add_products, register_product, set_enabled, set_product_key,
  migrate_products,
}

-- The checks of registration, as a predicate.
abbrev IsSound : (UDecimal → Bool) → Product → Type 0
IsSound below_one p =
    (assert_score_based_product_is_protected p ≡ ok tt)
    × (assert_fee_amount below_one p ≡ ok tt)
    × (assert_cap_order p ≡ ok tt)
    × (assert_udecimal_exponents_in_range p ≡ ok tt)

abbrev pub IsListed : (UDecimal → Bool) → Contract → Type 0
IsListed below_one c = All (λ e. IsSound below_one e.1) c.products

-- The calls that write the catalogue. The float comparison is one function throughout.
pub data CatalogStep (below_one : UDecimal → Bool) : Contract → Contract → Type 0 where
  registers :
      {c c' : Contract} (env : Env) (p : Product)
      → env.below_one ≡ below_one
      → register_product env c p ≡ ok c'
      → CatalogStep below_one c c'
  migrates :
      {c c' : Contract} (env : Env) (ps : List Product)
      → env.below_one ≡ below_one
      → migrate_products env c ps ≡ ok c'
      → CatalogStep below_one c c'
  switches :
      {c c' : Contract} (env : Env) (id : String) (is_enabled : Bool)
      → set_enabled env c id is_enabled ≡ ok c'
      → CatalogStep below_one c c'
  rekeys :
      {c c' : Contract} (env : Env) (id : String) (key : List ℕ)
      → set_product_key env c id key ≡ ok c'
      → CatalogStep below_one c c'

pub data CatalogSteps (below_one : UDecimal → Bool) : Contract → Contract → Type 0 where
  no_step : {c : Contract} → CatalogSteps below_one c c
  and_step :
      {c c' c'' : Contract}
      → CatalogSteps below_one c c'
      → CatalogStep below_one c' c''
      → CatalogSteps below_one c c''

same_checks :
    (below_one : UDecimal → Bool) (p : Product) (is_enabled : Bool)
    → IsSound below_one p
    → IsSound below_one (record p { is_enabled = is_enabled })
unfolding assert_score_based_product_is_protected assert_fee_amount assert_cap_order
    assert_udecimal_exponents_in_range is_protected
same_checks below_one p is_enabled h = h

protected_by_key :
    (p : Product) (key : List ℕ)
    → assert_score_based_product_is_protected (set_public_key p (some key)) ≡ ok tt
unfolding assert_score_based_product_is_protected is_protected set_public_key
protected_by_key p key = ground arith

same_checks_keyed :
    (below_one : UDecimal → Bool) (p : Product) (key : List ℕ)
    → IsSound below_one p
    → IsSound below_one (set_public_key p (some key))
unfolding assert_fee_amount assert_cap_order assert_udecimal_exponents_in_range set_public_key
same_checks_keyed below_one p key (_, h2, h3, h4) = (protected_by_key p key, h2, h3, h4)

add_product-IsListed :
    (env : Env) (c : Contract) (p : Product) {c' : Contract}
    → add_product env c p ≡ ok c'
    → IsListed env.below_one c
    → IsListed env.below_one c'
unfolding add_product put_product
add_product-IsListed env c p {c'} h listed =
    let (_, _, h1) = >>=-eq-ok (require (not (contains p.id c.products)) product_exists) _ h in
    let (_, s1, h2) = >>=-eq-ok (assert_score_based_product_is_protected p) _ h1 in
    let (_, s2, h3) = >>=-eq-ok (assert_fee_amount env.below_one p) _ h2 in
    let (_, s3, h4) = >>=-eq-ok (assert_cap_order p) _ h3 in
    let (_, s4, h5) = >>=-eq-ok (assert_udecimal_exponents_in_range p) _ h4 in
    subst (IsListed env.below_one) (ok-injective h5)
      (All-insert (IsSound env.below_one) p.id p c.products (s1, s2, s3, s4) listed)

add_products-IsListed :
    (env : Env) (ps : List Product) (c : Contract) {c' : Contract}
    → add_products env c ps ≡ ok c'
    → IsListed env.below_one c
    → IsListed env.below_one c'
unfolding add_products
add_products-IsListed env [] c h listed = subst (IsListed env.below_one) (ok-injective h) listed
add_products-IsListed env (p ∷ ps) c h listed =
    let (c1, h1, h2) = >>=-eq-ok (add_product env c p) _ h in
    add_products-IsListed env ps c1 h2 (add_product-IsListed env c p h1 listed)

set_enabled-IsListed :
    (below_one : UDecimal → Bool) (env : Env) (c : Contract) (id : String) (is_enabled : Bool)
    {c' : Contract}
    → set_enabled env c id is_enabled ≡ ok c'
    → IsListed below_one c
    → IsListed below_one c'
unfolding set_enabled put_product get_product
set_enabled-IsListed below_one env c id is_enabled h listed =
    let (_, _, h1) = >>=-eq-ok (assert_role env product_manager) _ h in
    let (_, _, h2) = >>=-eq-ok (assert_one_yocto env) _ h1 in
    let (p, hp, h3) = >>=-eq-ok (get_product c id) _ h2 in
    let (_, _, h4) = >>=-eq-ok (require (xor_bool is_enabled p.is_enabled) status_matches) _ h3 in
    let sound =
      All-lookup (IsSound below_one) id c.products listed (or_panic-eq-ok _ product_not_found hp) in
    subst (IsListed below_one) (ok-injective h4) (
      All-insert (IsSound below_one) id (record p { is_enabled = is_enabled }) c.products
        (same_checks below_one p is_enabled sound) listed)

set_product_key-IsListed :
    (below_one : UDecimal → Bool) (env : Env) (c : Contract) (id : String) (key : List ℕ)
    {c' : Contract}
    → set_product_key env c id key ≡ ok c'
    → IsListed below_one c
    → IsListed below_one c'
unfolding set_product_key put_product get_product
set_product_key-IsListed below_one env c id key h listed =
    let (_, _, h1) = >>=-eq-ok (assert_role env product_manager) _ h in
    let (_, _, h2) = >>=-eq-ok (assert_one_yocto env) _ h1 in
    let (p, hp, h3) = >>=-eq-ok (get_product c id) _ h2 in
    let sound =
      All-lookup (IsSound below_one) id c.products listed (or_panic-eq-ok _ product_not_found hp) in
    subst (IsListed below_one) (ok-injective h3) (
      All-insert (IsSound below_one) id (set_public_key p (some key)) c.products
        (same_checks_keyed below_one p key sound) listed)

CatalogStep-IsListed :
    (below_one : UDecimal → Bool) {c c' : Contract}
    → CatalogStep below_one c c'
    → IsListed below_one c
    → IsListed below_one c'
unfolding register_product migrate_products
CatalogStep-IsListed below_one {c} {c'} (registers env p e h) listed =
    let (_, _, h1) = >>=-eq-ok (assert_role env product_manager) _ h in
    let (_, _, h2) = >>=-eq-ok (assert_one_yocto env) _ h1 in
    subst (λ b. IsListed b c') e
      (add_product-IsListed env c p h2 (subst (λ b. IsListed b c) (sym e) listed))
CatalogStep-IsListed below_one {c} {c'} (migrates env ps e h) listed =
    let (_, _, h1) = >>=-eq-ok (assert_migrate_from_previous_version c env.predecessor) _ h in
    subst (λ b. IsListed b c') e
      (add_products-IsListed env ps c h1 (subst (λ b. IsListed b c) (sym e) listed))
CatalogStep-IsListed below_one {c} (switches env id is_enabled h) listed =
    set_enabled-IsListed below_one env c id is_enabled h listed
CatalogStep-IsListed below_one {c} (rekeys env id key h) listed =
    set_product_key-IsListed below_one env c id key h listed

-- Whatever calls of `register_product`, `migrate_products`, `set_enabled` and `set_public_key` succeed one after
-- the other, from a catalogue in which every product passes the checks of registration (an empty
-- one, for example) they lead to one in which every product does.
pub CatalogSteps-IsListed :
    (below_one : UDecimal → Bool) {c c' : Contract}
    → CatalogSteps below_one c c'
    → IsListed below_one c
    → IsListed below_one c'
CatalogSteps-IsListed below_one no_step listed = listed
CatalogSteps-IsListed below_one (and_step steps step) listed =
    CatalogStep-IsListed below_one step (CatalogSteps-IsListed below_one steps listed)
