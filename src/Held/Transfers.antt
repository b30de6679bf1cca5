-- ===== src/Held/Transfers.antt =====
-- A withdrawal from its call to its callback, whatever happens between them
-- (contract/src/feature/withdraw/api.rs).
use sweat_jar.Base.{
  ◌+◌, ◌<◌, ◌≡◌, refl, sym, ap, ◌∙◌, subst, true, false, List, [], ◌∷◌, ◌++◌, ok, String, u128_mod,
  or_panic-eq-ok, jar_not_found, account_not_found,
}
use sweat_jar.Base.Dict.{lookup, lookup-insert_self}
use sweat_jar.Base.Ensures.{Ensures, returns, after, given, outcome}
use sweat_jar.Product.{Terms}
use sweat_jar.Jar.{Deposit, Jar, get_liquid_balance, try_lock, assert_not_locked}
use sweat_jar.Jar
use sweat_jar.Jar.Liquid.{principal_sum}
use sweat_jar.Account.{Account, get_jar, put_jar}
use sweat_jar.Contract.{
  Env, Contract, PromiseOrValue, value, promise, Transfer, get_account, put_account,
}
use sweat_jar.Withdraw.{
  WithdrawView, AfterWithdraw, net_amount, request_for, withdraw, after_withdraw,
}
use sweat_jar.Withdraw.Conservation.{
  principal_of, request_for-balance, after_withdraw-of_balance, after_withdraw-failure,
}
use sweat_jar.Keeper.Settling.{update_jar_cache-IsKept}
use sweat_jar.World.{
  World, Callback, after_withdraw_due, Step, called, resolved, lost, passed, Steps, still, more,
}
use sweat_jar.World.Reach.{IsWorld, Steps-IsWorld}
use sweat_jar.Keeper.Paying.{withdraw-IsKept}
use sweat_jar.Invariant.{IsContract, sound as sound_keeper}
use sweat_jar.Held.{IsHeld, holder}
use sweat_jar.Held.Restakes.{held_locked}
use sweat_jar.Held.Calls.{Spares, handle-IsHeld}
use sweat_jar.Held.Callbacks.{Misses, resolve-IsHeld}

-- A step that is no callback which counts on the jar, and does not unlock its jars by the maintainer's hand.
abbrev IsOther : String → String → {w w' : World} → Step w w' → Type 0
IsOther id product_id (called w env call c due _ _ _) = Spares id call
IsOther id product_id (resolved c c' now front back due success _) = Misses id product_id due
IsOther id product_id (lost c now front back due success why _) = Unit
IsOther id product_id (passed w later _) = Unit

pub data OtherSteps (id product_id : String) : World → World → Type 0 where
  no_step : (w : World) → OtherSteps id product_id w w
  one_more :
      {w w' w'' : World}
      → OtherSteps id product_id w w'
      → (step : Step w' w'') → IsOther id product_id step
      → OtherSteps id product_id w w''

OtherSteps-Steps :
    {id product_id : String} {w w' : World} → OtherSteps id product_id w w' → Steps w w'
OtherSteps-Steps (no_step w) = still w
OtherSteps-Steps (one_more steps step _) = more (OtherSteps-Steps steps) step

Step-IsHeld :
    (id product_id : String) (front : List Deposit) {w w' : World} (step : Step w w')
    → IsOther id product_id step
    → IsWorld w
    → IsHeld id product_id front w.contract
    → IsHeld id product_id front w'.contract
Step-IsHeld id product_id front (called w env call c due time _ done) other sound h =
    handle-IsHeld env w.contract call id product_id front
      (subst (λ t. IsContract t w.contract) (sym time) sound.0) other h done
Step-IsHeld id product_id front (resolved c c' now _ back due success done) other sound h =
    outcome _ (resolve-IsHeld id product_id front c now due success other h) done
Step-IsHeld id product_id front (lost c now _ back due success why _) other sound h = h
Step-IsHeld id product_id front (passed w later _) other sound h = h

-- Through any such steps a held jar stays held.
OtherSteps-IsHeld :
    (id product_id : String) (front : List Deposit) {w w' : World}
    → OtherSteps id product_id w w'
    → IsWorld w
    → IsHeld id product_id front w.contract
    → IsHeld id product_id front w'.contract
OtherSteps-IsHeld id product_id front (no_step w) sound h = h
OtherSteps-IsHeld id product_id front (one_more steps step other) sound h =
    Step-IsHeld id product_id front step other (Steps-IsWorld (OtherSteps-Steps steps) sound)
      (OtherSteps-IsHeld id product_id front steps sound h)

-- What `withdraw` leaves: a transfer of the request's net amount, and the jar held with the deposits
-- whose liquid balance was requested.
abbrev pub IsWithdrawal :
    Env → String → Contract → PromiseOrValue WithdrawView AfterWithdraw → Type 0
IsWithdrawal env product_id c (value _) = ⊥
IsWithdrawal env product_id c (promise t call) =
    (call.account_id ≡ env.predecessor)
    × (call.request.product_id ≡ product_id)
    × (net_amount call.request.withdrawal ≡ ok t.amount)
    × ((jar : Jar) × (terms : Terms) × (get_liquid_balance jar terms env.now
          ≡ ok (call.request.withdrawal.amount, call.request.partition_index))
        × IsHeld env.predecessor product_id jar.deposits c)

try_lock-locked : (jar : Jar) → Ensures (λ j. j.is_locked ≡ true) (try_lock jar)
unfolding try_lock Jar.lock
try_lock-locked jar = after (assert_not_locked jar) _ λ _ _. returns _ refl

append_nil : (ds : List Deposit) → ds ≡ ds ++ []
append_nil [] = refl
append_nil (d ∷ ds) = ap (λ rest. d ∷ rest) (append_nil ds)

pub withdraw-IsWithdrawal :
    (env : Env) (c : Contract) (product_id : String)
    → Ensures (λ r. IsWithdrawal env product_id r.0 r.1) (withdraw env c product_id)
unfolding withdraw get_account get_jar put_account put_jar
withdraw-IsWithdrawal env c product_id =
    let id = env.predecessor in
    after (get_account c id) _ λ a _. after (get_jar a product_id) _ λ jar _.
      given _ (try_lock-locked jar) λ locked is_locked.
        let a0 = put_jar a product_id locked in
        let h0 : IsHeld id product_id [] (put_account c id a0) = (
          a0,
          lookup-insert_self id a0 c.accounts,
          (
            locked,
            lookup-insert_self product_id locked a.jars,
            (is_locked, (locked.deposits, refl)),
          ),
        ) in
        given _ (update_jar_cache-IsKept (holder env.now id product_id []) _ id product_id h0)
          λ c' h'. after (get_account c' id) _ λ a' ha. after (get_jar a' product_id) _ λ jar' hj.
            after (request_for env c' jar' product_id) _ λ request hr.
              after (net_amount request.withdrawal) _ λ net hn.
                let found = or_panic-eq-ok (lookup id c'.accounts) account_not_found ha in
                let listed = or_panic-eq-ok (lookup product_id a'.jars) jar_not_found hj in
                let still_locked = held_locked id product_id [] c' id h' ha refl listed in
                let (terms, balance) = request_for-balance env c' jar' product_id hr in
                returns _ (
                  refl,
                  refl,
                  hn,
                  (
                    jar',
                    terms,
                    balance,
                    (a', found, (jar', listed, (still_locked, ([], append_nil jar'.deposits)))),
                  ),
                )

-- The jar that a callback finds: other than in its deposits it may have changed since the request.
with_deposits :
    (jar : Jar) (ds : List Deposit) → jar.deposits ≡ ds → record jar { deposits = ds } ≡ jar
with_deposits jar ds e = ap (λ x. record jar { deposits = x }) (sym e)

-- How the callback of a withdrawal ends in the state `c`. Its transfer failed: the jar is unlocked,
-- and that is all. Its transfer succeeded: the requested amount has left the jar's principal, the
-- fee is added to the fees, and the account is told the amount that was transferred.
abbrev pub IsSettled : Contract → Transfer → AfterWithdraw → Type 0
IsSettled c t call =
    (a : Account) × (jar : Jar) × (b : Account) × (get_account c call.account_id ≡ ok a)
    × (get_jar a call.request.product_id ≡ ok jar)
    × (after_withdraw c call false
        ≡ ok (
          put_account c call.account_id (put_jar a call.request.product_id (Jar.unlock jar)),
          record { product_id = call.request.product_id; withdrawn_amount = 0; fee = 0 },
        ))
    × (after_withdraw c call true
        ≡ ok (
          record (put_account c call.account_id b) {
            fee_amount = c.fee_amount + call.request.withdrawal.fee;
          },
          record {
            product_id = call.request.product_id;
            withdrawn_amount = t.amount;
            fee = call.request.withdrawal.fee;
          },
        ))
    × (principal_of (lookup call.request.product_id b.jars) + call.request.withdrawal.amount
        ≡ principal_sum jar.deposits)

held-IsSettled :
    (env : Env) (c c0 : Contract) (product_id : String) (t : Transfer) (call : AfterWithdraw)
    → IsWithdrawal env product_id c0 (promise t call)
    → ((front : List Deposit)
        → IsHeld env.predecessor product_id front c0
        → IsHeld env.predecessor product_id front c)
    → c.fee_amount + call.request.withdrawal.fee < u128_mod
    → IsSettled c t call
unfolding get_account get_jar get_liquid_balance
held-IsSettled env c c0 product_id t call (owner, product, hn, (jar0, terms, balance, h0)) keeps
      small =
    let (a, found, (jar, listed, (_, (later, e)))) = keeps jar0.deposits h0 in
    let ha : get_account c call.account_id ≡ ok a = rw (owner, found) refl in
    let hj : get_jar a call.request.product_id ≡ ok jar = rw (product, listed) refl in
    let before : Jar = record jar { deposits = jar0.deposits } in
    let hj' : get_jar a call.request.product_id
        ≡ ok (record before { deposits = jar0.deposits ++ later }) =
      hj ∙ ap ok (sym (with_deposits jar (jar0.deposits ++ later) e)) in
    let (b, done, sum) =
      after_withdraw-of_balance env c call a before terms later balance hn ha hj' small in
    (a, jar, b, ha, hj, after_withdraw-failure c call ha hj, done, sum ∙ ap principal_sum (sym e))

-- A call of `withdraw` that starts a transfer is always brought to an end. From a sound state with any
-- pending callbacks, whatever happens before its transfer is resolved (calls of anyone, callbacks, also of
-- transfers that were pending before, that do not count on this jar, time), but for the maintainer's unlocking of the account's jars, the callback
-- returns with either outcome, provided that the collected fees stay a u128. If the transfer failed, the jar
-- is unlocked and nothing else changes. If it succeeded, exactly the requested amount has left the jar's
-- principal, the fee is added to the collected fees, and the amount reported is the amount
-- that was transferred.
pub withdraw-settles :
    (env : Env) (c c1 : Contract) (product_id : String) (t : Transfer) (call : AfterWithdraw)
    (others : List Callback) {w : World}
    → IsWorld (record { contract = c; now = env.now; pending = others })
    → withdraw env c product_id ≡ ok (c1, promise t call)
    → OtherSteps env.predecessor product_id
        (record { contract = c1; now = env.now; pending = after_withdraw_due call ∷ others })
        w
    → w.contract.fee_amount + call.request.withdrawal.fee < u128_mod
    → IsSettled w.contract t call
withdraw-settles env c c1 product_id t call others {w} (sound, callbacks) h steps small =
    let h0 = outcome _ (withdraw-IsWithdrawal env c product_id) h in
    let sound1 = outcome _ (withdraw-IsKept env (sound_keeper env.now) c product_id sound) h in
    held-IsSettled env w.contract c1 product_id t call h0
      (λ front held.
        OtherSteps-IsHeld env.predecessor product_id front steps (sound1, (tt, callbacks)) held)
      small
