-- ===== src/Pending/Withdrawals.antt =====
-- What a withdrawal leaves pending (contract/src/feature/withdraw/api.rs, `withdraw`).
use sweat_jar.Base.{
  ℕ, ◌≡◌, ◌≢◌, refl, sym, ap, ◌∙◌, List, ◌++◌, ok, >>=-eq-ok, arith, String, take, drop,
  take-append-drop, or_panic-eq-ok, jar_not_found,
}
use mathlib.Core.List.{append_assoc}
use sweat_jar.Base.Dict.{lookup}
use sweat_jar.Base.Ensures.{Ensures, after, always, outcome}
use sweat_jar.Jar.{Deposit, Jar, try_lock, assert_not_locked}
use sweat_jar.Jar.Liquid.{get_liquid_balance_lem}
use sweat_jar.Account.{get_jar}
use sweat_jar.Contract.{Env, Contract, PromiseOrValue, value, promise, Transfer, get_account}
use sweat_jar.Withdraw.{WithdrawView, AfterWithdraw, withdraw}
use sweat_jar.World.{after_withdraw_due}
use sweat_jar.Held.{IsHeld}
use sweat_jar.Held.Restakes.{held_locked, unlocked_lem}
use sweat_jar.Held.Transfers.{IsWithdrawal, withdraw-IsWithdrawal}
use sweat_jar.Ledger.Due.{counted_of}
use sweat_jar.Pending.{IsPending, IsNewPromise}
use sweat_jar.Pending.Locks.{length-take}

-- A jar that is held with some deposits is held with the first of them.
IsHeld-shorten :
    (c : Contract) (id p : String) (front : List Deposit) (n : ℕ)
    → IsHeld id p front c
    → IsHeld id p (take n front) c
IsHeld-shorten c id p front n (a, found, (jar, listed, (locked, (back, e)))) = (
  a,
  found,
  (
    jar,
    listed,
    (
      locked,
      (
        drop n front ++ back,
        e
            ∙ (ap (λ ds. ds ++ back) (sym (take-append-drop n front))
                ∙ append_assoc (take n front) (drop n front) back),
      ),
    ),
  ),
)

-- The jar that is locked for a withdrawal was not held before.
withdraw-unlocked :
    (env : Env) (c : Contract) (product_id id p : String) (front : List Deposit)
    → IsHeld id p front c
    → Ensures (λ r. env.predecessor ≡ id → product_id ≢ p) (withdraw env c product_id)
unfolding withdraw get_jar try_lock
withdraw-unlocked env c product_id id p front h = after (get_account c env.predecessor) _ λ a ha.
    after (get_jar a product_id) _ λ jar hj. after (try_lock jar) _ λ locked hl.
      always _ (λ r _ same is.
        let (_, free) = assert_of jar hl in
        unlocked_lem jar free (
          held_locked id p front c env.predecessor h ha same (
            ap (λ key. lookup key a.jars) (sym is)
            ∙ or_panic-eq-ok (lookup product_id a.jars) jar_not_found hj)))
  where
    assert_of :
        (jar : Jar) {locked : Jar}
        → try_lock jar ≡ ok locked
        → (u : Unit {0}) × (assert_not_locked jar ≡ ok u)
    assert_of jar e = let (u, hu, _) = >>=-eq-ok (assert_not_locked jar) _ e in (u, hu)

withdrawal-IsPending :
    (env : Env) (c : Contract) (product_id : String) (t : Transfer) (call : AfterWithdraw)
    → IsWithdrawal env product_id c (promise t call)
    → IsPending c (after_withdraw_due call)
unfolding counted_of
withdrawal-IsPending env c product_id t call (owner, product, _, (jar, terms, balance, held)) =
    let (sum, bound) = get_liquid_balance_lem jar terms env.now balance in
    let n = call.request.partition_index in
    (
      (tt, tt),
      (
        take n jar.deposits,
        0,
        rw (owner, product) (IsHeld-shorten c env.predecessor product_id jar.deposits n held),
        length-take n jar.deposits bound,
        omega (arith, sum),
        refl,
      ),
    )

pub withdraw-IsNew :
    (env : Env) (c : Contract) (product_id : String)
    → Ensures (IsNewPromise after_withdraw_due c) (withdraw env c product_id)
withdraw-IsNew env c product_id = always (withdraw env c product_id) λ r e. new r e
  where
    new :
        (r : Contract × PromiseOrValue WithdrawView AfterWithdraw)
        → withdraw env c product_id ≡ ok r
        → IsNewPromise after_withdraw_due c r
    new (c', value _) e = tt
    new (c', promise t call) e =
        let is = outcome _ (withdraw-IsWithdrawal env c product_id) e in
        (
          withdrawal-IsPending env c' product_id t call is,
          λ id p front held same. (
            (λ product.
                outcome _ (withdraw-unlocked env c product_id id p front held) e (sym is.0 ∙ same)
                  (sym is.1 ∙ product)),
            tt,
          ),
        )
