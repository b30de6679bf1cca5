-- ===== src/Invariant/Claiming.antt =====
-- Claims, and the rollbacks that their callbacks are given, keep the contract sound
-- (contract/src/feature/claim/api.rs).
use sweat_jar.Base.{
  ◌≤◌, some, none, ℕ, ◌*◌, ◌+◌, refl, Bool, true, false, ltb, leb, ◌==◌, [], ◌∷◌, Option, length,
  inl, inr, String, All, Bool-cases, or_panic, too_many_jars, account_not_found, require,
}
use sweat_jar.Base.Dict.{Dict, All-insert}
use sweat_jar.Base.Ensures.{Ensures, returns, on_if, after, given}
use sweat_jar.Jar.{
  Jar, JarCache, JarCompanion, Deposit, should_close, to_rollback, from_json, cache_from_json,
}
use sweat_jar.Jar
use sweat_jar.Account.{Account}
use sweat_jar.Interest.{get_jar_interest}
use sweat_jar.Contract.{Env, Contract, PromiseOrValue, value, promise, assert_gas, get_product}
use sweat_jar.Claim.{
  Scan, ClaimedAmountView, AfterClaim, add_claimed, max_jars_per_claim, scan_amount, scan_jar,
  scan_jars, claim_rollback, claim_interest, claim_account, claim_total, release_jar,
  unlock_claimed, after_claim, gas_for_ft_transfer, gas_for_after_claim, get_total,
}
use sweat_jar.Invariant.{
  sound, IsJar, IsAccount, IsContract, get_jar-IsJar, put_jar-IsAccount, remove_jar-IsAccount,
  get_account-IsAccount, put_account-IsContract,
}
use sweat_jar.Keeper.{cache_time}
use sweat_jar.Keeper.Settling.{settle_interest-IsKept}
use sweat_jar.Keeper.Paying.{claim_jars-IsKept}
use sweat_jar.Invariant.Rollback.{cache_written, IsJarChange, IsRollback, apply-IsAccount}

module _ (now : ℕ) where
  cache_from_json-le :
      (o : Option JarCache) → cache_time o ≤ now → cache_written (cache_from_json (some o)) ≤ now
  unfolding cache_from_json
  cache_from_json-le none h = h
  cache_from_json-le (some cache) h = h

  scan_jar-IsRollback :
      (c : Contract) (a : Account) (s : Scan) (id : String) (jar : Jar)
      → IsJar now jar
      → All (λ e. IsJarChange now e.1) s.rollback_jars
      → Ensures (λ s'. All (λ e. IsJarChange now e.1) s'.rollback_jars) (scan_jar c a now s id jar)
  unfolding scan_jar scan_amount to_rollback from_json
  scan_jar-IsRollback c a s id jar hj hs = on_if jar.is_locked _ _ (returns s hs) (
      after (get_product c id) _ λ p _. after (get_jar_interest p.terms a jar now) _ λ i _.
        on_if (i.0 == 0) _ _ (returns s hs) (
          after (add_claimed s.accumulator id i.0) _ λ total _. returns _ (
            All-insert (IsJarChange now) id _ s.rollback_jars
              (refl, cache_from_json-le jar.cache hj.1) hs)))

  scan_jars-IsRollback :
      (jars : Dict Jar) (c : Contract) (a : Account) (s : Scan)
      → All (λ e. IsJar now e.1) jars
      → All (λ e. IsJarChange now e.1) s.rollback_jars
      → Ensures (λ s'. All (λ e. IsJarChange now e.1) s'.rollback_jars) (scan_jars c a now s jars)
  unfolding scan_jars
  scan_jars-IsRollback [] c a s hj hs = returns s hs
  scan_jars-IsRollback ((id, jar) ∷ jars) c a s hj hs =
      given _ (scan_jar-IsRollback c a s id jar hj.0 hs)
        λ s' hs'. scan_jars-IsRollback jars c a s' hj.1 hs'

  release_jar-IsAccount :
      (a : Account) (id : String) (jar : Jar)
      → IsAccount now a
      → IsJar now jar
      → IsAccount now (release_jar a id jar)
  unfolding release_jar
  release_jar-IsAccount a id jar h hj = elim (Bool-cases (should_close jar)) [
    | inl empty ↦ rw empty (remove_jar-IsAccount now a id h)
    | inr full ↦ rw full (put_jar-IsAccount now a id jar h hj)
  ]

  unlock_claimed-IsAccount :
      (cs : Dict JarCompanion) (a : Account)
      → IsAccount now a
      → Ensures (IsAccount now) (unlock_claimed a cs)
  unfolding unlock_claimed Jar.unlock
  unlock_claimed-IsAccount [] a h = returns a h
  unlock_claimed-IsAccount ((id, _) ∷ rest) a h =
      given _ (get_jar-IsJar now a id h)
        λ jar hj. unlock_claimed-IsAccount rest _ (release_jar-IsAccount a id (Jar.unlock jar) h hj)

  -- `after_claim_internal`, on both outcomes.
  pub after_claim-IsContract :
      (c : Contract) (call : AfterClaim) (success : Bool)
      → IsContract now c
      → IsRollback now call.account_rollback
      → Ensures (λ r. IsContract now r.0) (after_claim c call success)
  unfolding after_claim
  after_claim-IsContract c call true h hr =
      given _ (get_account-IsAccount now c call.account_id h) λ a ha.
        after (or_panic call.account_rollback.new_jars account_not_found) _ λ jars _.
          given _ (unlock_claimed-IsAccount jars a ha)
            λ a' ha'. returns _ (put_account-IsContract now c call.account_id a' h ha')
  after_claim-IsContract c call false h hr =
      given _ (get_account-IsAccount now c call.account_id h) λ a ha.
        given _ (apply-IsAccount now a call.account_rollback ha hr)
          λ a' ha'. returns _ (put_account-IsContract now c call.account_id a' h ha')

-- The callback of a claim, where there is one, is given a rollback.
abbrev pub IsRollbackCall : ℕ → PromiseOrValue ClaimedAmountView AfterClaim → Type 0
IsRollbackCall now (value _) = Unit
IsRollbackCall now (promise _ call) = IsRollback now call.account_rollback

abbrev IsClaim : ℕ → Contract × PromiseOrValue ClaimedAmountView AfterClaim → Type 0
IsClaim now r = IsContract now r.0 × IsRollbackCall now r.1

claim_interest-IsClaim :
    (env : Env) (c : Contract) (call : AfterClaim) (count : ℕ)
    → IsContract env.now c
    → IsRollback env.now call.account_rollback
    → Ensures (IsClaim env.now) (claim_interest env c call count)
unfolding claim_interest
claim_interest-IsClaim env c call count h hr =
    after (assert_gas env (gas_for_ft_transfer * 2 + gas_for_after_claim count)) _
      λ _ _. returns _ (h, hr)

claim_account-IsClaim :
    (env : Env) (c : Contract) (details : Option Bool) (a : Account)
    → IsContract env.now c
    → IsAccount env.now a
    → Ensures (IsClaim env.now) (claim_account env c details a)
unfolding claim_account claim_rollback
claim_account-IsClaim env c details a h ha =
    given _ (scan_jars-IsRollback env.now a.jars c a _ ha.1 tt) λ s hs.
      after (require (leb (length s.interest_per_jar) max_jars_per_claim) too_many_jars) _ λ _ _.
        given _ (claim_jars-IsKept (sound env.now) s.interest_per_jar env.predecessor a ha)
          λ a' ha'.
            let h' = put_account-IsContract env.now c env.predecessor a' h ha' in
            on_if (ltb 0 (get_total s.accumulator)) _ _
              (claim_interest-IsClaim env _ _ _ h' (hs, ha'.3, refl)) (returns _ (h', tt))

-- `claim_total`
pub claim_total-IsClaim :
    (env : Env) (c : Contract) (details : Option Bool)
    → IsContract env.now c
    → Ensures (λ r. IsContract env.now r.0 × IsRollbackCall env.now r.1) (claim_total env c details)
unfolding claim_total
claim_total-IsClaim env c details h =
    given _ (settle_interest-IsKept (sound env.now) c env.predecessor h) λ c' hc.
      given _ (get_account-IsAccount env.now c' env.predecessor hc)
        λ a ha. claim_account-IsClaim env c' details a hc ha
