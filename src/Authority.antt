-- ===== src/Authority.antt =====
-- The first call of the contract and its access control (contract/src/lib.rs). The access control
-- itself is the plugin's: its state and its three calls are parameters.
use sweat_jar.Base.{
  ℕ, Bool, true, false, Option, none, some, List, [], ◌∷◌, map, Result, ok, panic, ◌>>=◌, ◌>>◌,
  require, acl_not_initialized, not_private, String, str_eq,
}
use sweat_jar.Contract.{
  Env, Contract, Role, oracle, product_manager, fee_manager, maintainer, staging_manager,
  upgrade_manager,
}
pub mod Bootstrap

-- `AccessControllable`: each call is made by an account, and `none` says that it had no right to.
pub record Acl (S : Type 0) : Type 0 where
  pub init_super_admin : S → String → S × Bool
  pub transfer_super_admin : S → String → String → S × Option Bool
  pub grant_role : S → String → Role → String → S × Option Bool

unfoldable pub is_some : Option Bool → Bool
is_some none = false
is_some (some _) = true

-- `Roles::all` and `all_roles_to`
abbrev all_roles : List Role
all_roles =
    oracle ∷ product_manager ∷ fee_manager ∷ maintainer ∷ staging_manager ∷ upgrade_manager ∷ []

unfoldable pub all_roles_to : String → List (Role × List String)
all_roles_to id = map (λ role. (role, id ∷ [])) all_roles

module _ {S : Type 0} (acl : Acl S) where
  unfoldable pub grant_to : S → String → Role → List String → Result S
  grant_to s caller role [] = ok s
  grant_to s caller role (id ∷ ids) = do
    let r = acl.grant_role s caller role id
    require (is_some r.1) acl_not_initialized
    grant_to r.0 caller role ids

  -- `grant_role_assignments`
  unfoldable pub grant_role_assignments : S → String → List (Role × List String) → Result S
  unfolding grant_to
  grant_role_assignments s caller [] = ok s
  grant_role_assignments s caller ((role, ids) ∷ roles) = do
    s' ← grant_to s caller role ids
    grant_role_assignments s' caller roles

  -- `init_authority`: the caller is super admin only while the roles are granted.
  unfoldable pub init_authority : S → String → String → List (Role × List String) → Result S
  unfolding grant_role_assignments is_some
  init_authority s caller super_admin roles = do
    let r = acl.init_super_admin s caller
    require r.1 acl_not_initialized
    s' ← grant_role_assignments r.0 caller roles
    let t = acl.transfer_super_admin s' caller super_admin
    require (is_some t.1) acl_not_initialized
    ok t.0

  -- `init`, which `#[private]` keeps to the contract's own account.
  unfoldable pub init :
      Env
      → S
      → String
      → String
      → String
      → String
      → List (Role × List String)
      → Result (Contract × S)
  unfolding init_authority
  init env s token_account_id fee_account_id previous_version_account_id super_admin roles = do
    require (str_eq env.predecessor env.current_account) not_private
    s' ← init_authority s env.predecessor super_admin roles
    ok (
      record {
        token_account_id = token_account_id;
        fee_account_id = fee_account_id;
        products = [];
        accounts = [];
        fee_amount = 0;
        previous_version_account_id = previous_version_account_id;
      },
      s',
    )
