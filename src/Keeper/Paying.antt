-- ===== src/Keeper/Paying.antt =====
-- A claim, a withdrawal and a restake leave the deposits alone until their transfer is resolved
-- (contract/src/feature/claim/api.rs, contract/src/feature/withdraw/api.rs,
-- contract/src/feature/restake/api).
use sweat_jar.Base.{
  ℕ, ◌*◌, ◌+◌, refl, inl, inr, ltb, leb, List, [], ◌∷◌, Option, Bool, length, arith, String,
  require, too_many_jars,
}
use sweat_jar.Base.Dict.{Dict}
use sweat_jar.Base.Ensures.{Ensures, returns, on_if, after, given}
use sweat_jar.Jar.{Jar, try_lock, assert_not_locked}
use sweat_jar.Jar
use sweat_jar.Account.{Account, get_jar}
use sweat_jar.Contract.{Env, Contract, assert_gas, get_account}
use sweat_jar.Claim.{
  AfterClaim, new_view, max_jars_per_claim, scan_jars, claim_jars, claim_interest, claim_account,
  claim_total, gas_for_ft_transfer, gas_for_after_claim, get_total,
}
use sweat_jar.Withdraw.{
  WithdrawalRequest, net_amount, request_for, withdraw, collect_requests, lock_requested,
  listed_or_all, transfer_bulk_withdraw, total_net_amount, withdraw_all,
  gas_for_bulk_after_withdraw,
}
use sweat_jar.Restake.{cache_partitions, lock_partitions}
use sweat_jar.Keeper.{IsQuiet, Keeper}
use sweat_jar.Keeper.Settling.{
  settle_interest-IsKept, update_jar_cache-IsKept, update_account_cache-IsKept,
}

lock-IsQuiet : (now : ℕ) (jar : Jar) → IsQuiet now jar (Jar.lock jar)
unfolding Jar.lock
lock-IsQuiet now jar = (refl, inr refl, inl refl)

claim-IsQuiet :
    (now : ℕ) (jar : Jar) (remainder : ℕ) → IsQuiet now jar (Jar.lock (Jar.claim jar remainder now))
unfolding Jar.lock Jar.claim
claim-IsQuiet now jar remainder = (refl, inr refl, inr (omega arith))

try_lock-IsQuiet : (now : ℕ) (jar : Jar) → Ensures (IsQuiet now jar) (Jar.try_lock jar)
unfolding Jar.try_lock
try_lock-IsQuiet now jar = after (assert_not_locked jar) _ λ _ _. returns _ (lock-IsQuiet now jar)

module _ {now : ℕ} (K : Keeper now) where
  pub claim_jars-IsKept :
      (claimed : Dict (ℕ × ℕ)) (id : String) (a : Account)
      → K.IsKeptAccount id a
      → Ensures (K.IsKeptAccount id) (claim_jars a now claimed)
  unfolding claim_jars
  claim_jars-IsKept [] id a h = returns a h
  claim_jars-IsKept ((j, (_, remainder)) ∷ rest) id a h = after (get_jar a j) _ λ jar hj.
      claim_jars-IsKept rest id _ (K.change_jar id a j _ h hj (claim-IsQuiet now jar remainder))

  lock_requested-IsKept :
      (rs : List WithdrawalRequest) (id : String) (a : Account)
      → K.IsKeptAccount id a
      → Ensures (K.IsKeptAccount id) (lock_requested a rs)
  unfolding lock_requested
  lock_requested-IsKept [] id a h = returns a h
  lock_requested-IsKept (r ∷ rs) id a h = after (get_jar a r.product_id) _ λ jar hj.
      lock_requested-IsKept rs id _
        (K.change_jar id a r.product_id (Jar.lock jar) h hj (lock-IsQuiet now jar))

  pub lock_partitions-IsKept :
      (partitions : List (String × ℕ)) (id : String) (a : Account)
      → K.IsKeptAccount id a
      → Ensures (K.IsKeptAccount id) (lock_partitions a partitions)
  unfolding lock_partitions
  lock_partitions-IsKept [] id a h = returns a h
  lock_partitions-IsKept ((j, n) ∷ rest) id a h = after (get_jar a j) _ λ jar hj.
      lock_partitions-IsKept rest id _
        (K.change_jar id a j (Jar.lock jar) h hj (lock-IsQuiet now jar))

  pub cache_partitions-IsKept :
      (partitions : List (String × ℕ)) (c : Contract) (id : String)
      → K.IsKept c
      → Ensures K.IsKept (cache_partitions c id now partitions)
  unfolding cache_partitions
  cache_partitions-IsKept [] c id h = returns c h
  cache_partitions-IsKept ((j, n) ∷ rest) c id h =
      given _ (update_jar_cache-IsKept K c id j h) λ c' hc. cache_partitions-IsKept rest c' id hc

module _ (env : Env) (K : Keeper env.now) where
  -- `withdraw`
  pub withdraw-IsKept :
      (c : Contract) (product_id : String)
      → K.IsKept c
      → Ensures (λ r. K.IsKept r.0) (withdraw env c product_id)
  unfolding withdraw
  withdraw-IsKept c product_id h =
      let id = env.predecessor in
      after (get_account c id) _ λ a ha. after (get_jar a product_id) _ λ jar hj.
        given _ (try_lock-IsQuiet env.now jar) λ locked quiet.
          given _
            (update_jar_cache-IsKept K _ id product_id
              (K.write c id _ h (K.change_jar id a product_id locked (K.read c id h ha) hj quiet)))
            λ c' hc. after (get_account c' id) _ λ a' _. after (get_jar a' product_id) _ λ jar' _.
              after (request_for env c' jar' product_id) _
                λ request _. after (net_amount request.withdrawal) _ λ net _. returns _ hc

  transfer_bulk_withdraw-IsKept :
      (c : Contract) (id : String) (rs : List WithdrawalRequest)
      → K.IsKept c
      → Ensures (λ r. K.IsKept r.0) (transfer_bulk_withdraw env c id rs)
  unfolding transfer_bulk_withdraw
  transfer_bulk_withdraw-IsKept c id [] h = returns _ h
  transfer_bulk_withdraw-IsKept c id (r ∷ rs) h =
      after (assert_gas env (gas_for_ft_transfer + gas_for_bulk_after_withdraw)) _
        λ _ _. after (total_net_amount (r ∷ rs)) _ λ net _. returns _ h

  -- `withdraw_all`
  pub withdraw_all-IsKept :
      (c : Contract) (ids : Option (List String))
      → K.IsKept c
      → Ensures (λ r. K.IsKept r.0) (withdraw_all env c ids)
  unfolding withdraw_all
  withdraw_all-IsKept c ids h =
      let id = env.predecessor in
      given _ (update_account_cache-IsKept K c id h) λ c' hc. after (get_account c' id) _ λ a ha.
        after (collect_requests env c' a (listed_or_all ids a)) _ λ requests _.
          given _ (lock_requested-IsKept K requests id a (K.read c' id hc ha))
            λ a' ha'. transfer_bulk_withdraw-IsKept _ id requests (K.write c' id a' hc ha')

  claim_interest-IsKept :
      (c : Contract) (call : AfterClaim) (count : ℕ)
      → K.IsKept c
      → Ensures (λ r. K.IsKept r.0) (claim_interest env c call count)
  unfolding claim_interest
  claim_interest-IsKept c call count h =
      after (assert_gas env (gas_for_ft_transfer * 2 + gas_for_after_claim count)) _
        λ _ _. returns _ h

  -- `claim_total`
  pub claim_total-IsKept :
      (c : Contract) (details : Option Bool)
      → K.IsKept c
      → Ensures (λ r. K.IsKept r.0) (claim_total env c details)
  unfolding claim_total claim_account
  claim_total-IsKept c details h = given _ (settle_interest-IsKept K c env.predecessor h) λ c' hc.
      after (get_account c' env.predecessor) _ λ a ha.
        after
          (scan_jars c' a env.now
            (record { rollback_jars = []; interest_per_jar = []; accumulator = new_view details })
            a.jars)
          _
          λ s _.
            after (require (leb (length s.interest_per_jar) max_jars_per_claim) too_many_jars) _
              λ _ _.
                given _
                  (claim_jars-IsKept K s.interest_per_jar env.predecessor a (K.read c' _ hc ha))
                  λ a' ha'.
                    let h' = K.write c' env.predecessor a' hc ha' in
                    on_if (ltb 0 (get_total s.accumulator)) _ _ (claim_interest-IsKept _ _ _ h')
                      (returns _ h')
