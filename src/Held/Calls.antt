-- ===== src/Held/Calls.antt =====
-- No call takes a held jar away (contract/src/feature), whoever makes it.
use sweat_jar.Base.{
  ℕ, ◌≡◌, ◌≢◌, refl, sym, ap, ◌∙◌, subst, true, false, List, [], ◌∷◌, Option, some, ok, String,
  arith, or_panic, account_not_found, require, require-eq-ok, account_not_empty, ◌==◌,
}
use sweat_jar.Base.Dict.{Dict, lookup}
use sweat_jar.Base.Ensures.{Ensures, returns, after, outcome}
use sweat_jar.Jar.{Deposit, Jar}
use sweat_jar.Account.{Account, is_empty, has_no_jars, get_total_principal}
use sweat_jar.Contract.{
  Env, Contract, maintainer, assert_role, get_account, put_account,
  assert_migrate_from_previous_version,
}
use sweat_jar.Migration.{
  AccountVersioned, read_account, is_new_or_empty_account, empty_or_absent, migrate_account,
}
use sweat_jar.Oracle.{unlock_jars_for_account}
use sweat_jar.Invariant.{IsContract}
use sweat_jar.World.{Call, Callback, handle, unlock_jars_for_account_call}
use sweat_jar.World.Calls.{ft_on_transfer-IsKept, handle-IsKept}
use sweat_jar.Held.{IsHeldIn, IsHeld, holder, deposit-IsHeldIn, write-IsHeld}
use sweat_jar.Held.Restakes.{restake-IsHeld, restake_all-IsHeld}

-- The call does not unlock jars of the account by the maintainer's hand.
abbrev pub Spares : String → Call → Type 0
Spares id (unlock_jars_for_account_call k _) = k ≢ id
Spares id _ = Unit

module _ (id product_id : String) (front : List Deposit) where
  has_jars :
      (jars : Dict Jar) {jar : Jar} → lookup product_id jars ≡ some jar → has_no_jars jars ≡ false
  unfolding lookup has_no_jars
  has_jars [] h = cc
  has_jars (_ ∷ jars) h = refl

  held_not_empty : (a : Account) → IsHeldIn product_id front a → is_empty a ≡ false
  unfolding is_empty
  held_not_empty a (jar, found, _) = let busy = has_jars a.jars found in ground (arith, busy)

  pub write_other :
      (c : Contract) (k : String) (a : Account)
      → k ≢ id
      → IsHeld id product_id front c
      → IsHeld id product_id front (put_account c k a)
  write_other c k a other h =
      write-IsHeld 0 id product_id front c k a h (λ same. absurd (other same))

  not_new :
      (c : Contract) (k : String) {u : Unit {0}}
      → IsHeld id product_id front c
      → require (is_new_or_empty_account c k) account_not_empty ≡ ok u
      → k ≢ id
  unfolding is_new_or_empty_account empty_or_absent
  not_new c k (a, found, held) h same =
      let e : lookup k c.accounts ≡ some a = ap (λ key. lookup key c.accounts) same ∙ found in
      let new = require-eq-ok _ account_not_empty h in
      let busy = held_not_empty a held in absurd (let z : is_empty a ≡ true = rw e at new in cc)

  migrate_account-IsHeld :
      (c : Contract) (sender : String) (amount : ℕ) (k : String) (stored : Option AccountVersioned)
      → IsHeld id product_id front c
      → Ensures (IsHeld id product_id front) (migrate_account c sender amount k stored)
  unfolding migrate_account
  migrate_account-IsHeld c sender amount k stored h =
      after (assert_migrate_from_previous_version c sender) _ λ _ _.
        after (require (is_new_or_empty_account c k) account_not_empty) _ λ _ new.
          after (or_panic stored account_not_found) _ λ versioned _.
            after (read_account versioned) _ λ a _. after (get_total_principal a) _ λ principal _.
              after (require (principal == amount) _) _
                λ _ _. returns _ (write_other c k a (not_new c k h new) h)

  unlock_other :
      (env : Env) (c : Contract) (k : String) (ids : List String)
      → k ≢ id
      → IsHeld id product_id front c
      → Ensures (IsHeld id product_id front) (unlock_jars_for_account env c k ids)
  unfolding unlock_jars_for_account
  unlock_other env c k ids other h =
      after (assert_role env maintainer) _
        λ _ _. after (get_account c k) _ λ a _. returns _ (write_other c k _ other h)

  handle-Ensures :
      (env : Env) (c : Contract) (call : Call)
      → IsContract env.now c
      → Spares id call
      → IsHeld id product_id front c
      → Ensures (λ r. IsHeld id product_id front r.0) (handle env c call)
  handle-Ensures env c call hc other h =
      handle-IsKept env (holder env.now id product_id front) c h (Spares id)
        (ft_on_transfer-IsKept env (holder env.now id product_id front) c h (Spares id)
          (λ k a j principal ha same.
            deposit-IsHeldIn product_id front a j principal env.now (ha same))
          (λ sender amount k stored _. migrate_account-IsHeld c sender amount k stored h))
        (λ from ticket signature amount _.
          restake-IsHeld id product_id front env c from ticket signature amount h)
        (λ ticket signature amount _.
          restake_all-IsHeld id product_id front env c ticket signature amount hc h)
        (λ k ids apart. unlock_other env c k ids apart h)
        (λ c1 c2 same _ h1.
          subst (λ m. (a : Account) × (lookup id m ≡ some a) × IsHeldIn product_id front a)
            (sym same) h1)
        call other

-- No call unlocks a locked jar, removes it, or takes any of its deposits, the maintainer's unlocking of
-- jars of that account excepted: in a sound state, after any other call that returns, the jar is
-- still locked, and its deposits begin with those it had.
pub handle-IsHeld :
    (env : Env) (c : Contract) (call : Call) (id product_id : String) (front : List Deposit)
    {c' : Contract} {due : List Callback}
    → IsContract env.now c
    → Spares id call
    → IsHeld id product_id front c
    → handle env c call ≡ ok (c', due)
    → IsHeld id product_id front c'
handle-IsHeld env c call id product_id front hc other h done =
    outcome _ (handle-Ensures id product_id front env c call hc other h) done
