-- ===== src/Oracle/Flags.antt =====
-- Setting and reading penalties (contract/src/feature/penalty/api.rs).
use sweat_jar.Base.{◌<◌, ◌≡◌, refl, ap, Bool, true, false, not, ok, >>=-eq-ok, u8_mod, String}
use sweat_jar.Base.Dict.{lookup-insert_self}
use sweat_jar.Features.{increased_apy}
use sweat_jar.Features.Laws.{is_feature_enabled-set}
use sweat_jar.Account.{Account}
use sweat_jar.Contract.{Env, Contract, assert_role, oracle, get_account, put_account}
use sweat_jar.Settle.{update_account_cache}
use sweat_jar.Oracle.{switch_feature, set_penalty, is_penalty_applied}

not-not : (b : Bool) → not (not b) ≡ b
not-not true = refl
not-not false = refl

pub get_account-put_account :
    (c : Contract) (id : String) (a : Account) → get_account (put_account c id a) id ≡ ok a
unfolding get_account put_account
get_account-put_account c id a = rw (lookup-insert_self id a c.accounts) refl

switched :
    (c : Contract) (id : String) (a : Account) (enabled : Bool)
    → a.features.bits < u8_mod
    → is_penalty_applied (put_account c id (switch_feature a increased_apy enabled)) id
      ≡ ok (not enabled)
unfolding is_penalty_applied switch_feature
switched c id a enabled small =
    rw
      (
        get_account-put_account c id (switch_feature a increased_apy enabled),
        is_feature_enabled-set a.features increased_apy increased_apy enabled small,
      )
      refl

-- Where `set_penalty` returns, the account's interest was first brought up to date with the old
-- flags, the account is otherwise as that left it, and (its flags being a byte) the penalty reads as it was set.
pub set_penalty-is_penalty_applied :
    (env : Env) (c : Contract) (id : String) (value : Bool) {out c1 : Contract} {a : Account}
    → update_account_cache c id env.now ≡ ok c1
    → get_account c1 id ≡ ok a
    → a.features.bits < u8_mod
    → set_penalty env c id value ≡ ok out
    → (out ≡ put_account c1 id (switch_feature a increased_apy (not value)))
      × (is_penalty_applied out id ≡ ok value)
unfolding set_penalty
set_penalty-is_penalty_applied env c id value {out} {c1} {a} hc ha small h =
    let (_, _, h1) = >>=-eq-ok (assert_role env oracle) _ h in
    let (c1', hc', h2) = >>=-eq-ok (update_account_cache c id env.now) _ h1 in
    let e : c1' ≡ c1 = cc in
    let (a', ha', h3) = >>=-eq-ok (get_account c1' id) _ h2 in
    let e' : a' ≡ a = cc in
    let r : out ≡ put_account c1 id (switch_feature a increased_apy (not value)) = cc in
    (r, rw r (rw (switched c1 id a (not value) small) (ap ok (not-not value))))
