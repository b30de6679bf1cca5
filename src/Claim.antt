-- ===== src/Claim.antt =====
-- Claiming of interest (contract/src/feature/claim/api.rs, model/src/data/claim/view.rs).
use sweat_jar.Base.{
  ℕ, ◌+◌, ◌*◌, Bool, true, false, ltb, leb, ◌==◌, if◌then◌else◌, Option, none, some, List, [], ◌∷◌,
  length, Result, ok, panic, ◌>>=◌, ◌>>◌, require, or_panic, too_many_jars, account_not_found,
  add_u128, String,
}
use sweat_jar.Base.Dict.{Dict, lookup, insert, remove}
use sweat_jar.Jar.{Jar, JarCompanion, should_close, to_rollback, from_json}
use sweat_jar.Jar
use sweat_jar.Account.{Account, AccountCompanion, get_jar, put_jar}
use sweat_jar.Account
use sweat_jar.Interest.{get_jar_interest}
use sweat_jar.Contract.{
  Env, Contract, PromiseOrValue, value, promise, Transfer, assert_gas, get_account, put_account,
  get_product,
}
use sweat_jar.Settle.{settle_interest}
pub mod Rollback
pub mod Collect

-- `ClaimedAmountView`: the total, or with it the amount of each product.
pub data ClaimedAmountView : Type 0 where
  total : ℕ → ClaimedAmountView
  detailed : ℕ → Dict ℕ → ClaimedAmountView

unfoldable pub new_view : Option Bool → ClaimedAmountView
new_view (some true) = detailed 0 []
new_view (some false) = total 0
new_view none = total 0

unfoldable pub get_total : ClaimedAmountView → ℕ
get_total (total t) = t
get_total (detailed t _) = t

-- `ClaimedAmountView::add`
unfoldable pub add_claimed : ClaimedAmountView → String → ℕ → Result ClaimedAmountView
add_claimed (total t) id amount = do t' ← add_u128 t amount; ok (total t')
add_claimed (detailed t m) id amount = do
  t' ← add_u128 t amount
  ok (detailed t' (insert id amount m))

unfoldable pub emptied : ClaimedAmountView → ClaimedAmountView
emptied (total _) = total 0
emptied (detailed _ _) = detailed 0 []

-- `MAX_JARS_PER_CLAIM`
abbrev pub max_jars_per_claim : ℕ
max_jars_per_claim = 200

abbrev pub gas_for_ft_transfer : ℕ
gas_for_ft_transfer = 6 * 1000000000000

unfoldable pub gas_for_after_claim : ℕ → ℕ
gas_for_after_claim jar_count = 4 * 1000000000000 + 80 * 1000000000 * jar_count

-- What the scan over the jars collects.
pub record Scan : Type 0 where
  pub rollback_jars : Dict JarCompanion
  pub interest_per_jar : Dict (ℕ × ℕ)
  pub accumulator : ClaimedAmountView

-- The rollback of the jar is kept as the callback will read it.
unfoldable pub scan_amount : Scan → String → Jar → ℕ × ℕ → Result Scan
unfolding add_claimed
scan_amount s id jar i =
    if i.0 == 0
    then ok s
    else (add_claimed s.accumulator id i.0 >>= λ accumulator. ok (record {
      rollback_jars = insert id (from_json (to_rollback jar)) s.rollback_jars;
      interest_per_jar = insert id i s.interest_per_jar;
      accumulator = accumulator;
    }))

-- One jar of the scan: a locked jar and a jar without interest are passed over.
unfoldable pub scan_jar : Contract → Account → ℕ → Scan → String → Jar → Result Scan
unfolding scan_amount
scan_jar c a now s id jar =
    if jar.is_locked
    then ok s
    else (get_product c id >>= λ p. get_jar_interest p.terms a jar now >>= scan_amount s id jar)

unfoldable pub scan_jars : Contract → Account → ℕ → Scan → Dict Jar → Result Scan
unfolding scan_jar
scan_jars c a now s [] = ok s
scan_jars c a now s ((id, jar) ∷ jars) = do
  s' ← scan_jar c a now s id jar
  scan_jars c a now s' jars

unfoldable pub claim_jars : Account → ℕ → Dict (ℕ × ℕ) → Result Account
claim_jars a now [] = ok a
claim_jars a now ((id, (_, remainder)) ∷ rest) = do
  jar ← get_jar a id
  claim_jars (put_jar a id (Jar.lock (Jar.claim jar remainder now))) now rest

-- `claim_rollback`: what a failed transfer restores.
unfoldable pub claim_rollback : Account → Dict JarCompanion → AccountCompanion
claim_rollback a rollback_jars = record {
  new_nonce = none;
  new_jars = some rollback_jars;
  new_timezone = some a.timezone;
  new_score = some a.score;
  new_features = none;
}

-- The arguments of the callback `after_claim`.
pub record AfterClaim : Type 0 where
  pub account_id : String
  pub claimed_amount : ClaimedAmountView
  pub account_rollback : AccountCompanion

-- `claim_interest`
unfoldable pub claim_interest :
    Env
    → Contract
    → AfterClaim
    → ℕ
    → Result (Contract × PromiseOrValue ClaimedAmountView AfterClaim)
unfolding gas_for_after_claim
claim_interest env c call jar_count = do
  assert_gas env (gas_for_ft_transfer * 2 + gas_for_after_claim jar_count)
  ok (
    c,
    promise (record { receiver_id = call.account_id; amount = get_total call.claimed_amount }) call,
  )

-- The body of `claim_total` once the account is settled and read.
unfoldable pub claim_account :
    Env
    → Contract
    → Option Bool
    → Account
    → Result (Contract × PromiseOrValue ClaimedAmountView AfterClaim)
unfolding new_view scan_jars claim_jars claim_rollback claim_interest
claim_account env c details a = do
  let id = env.predecessor
  s ←
      scan_jars c a env.now
        (record { rollback_jars = []; interest_per_jar = []; accumulator = new_view details })
        a.jars
  require (leb (length s.interest_per_jar) max_jars_per_claim) too_many_jars
  a' ← claim_jars a env.now s.interest_per_jar
  let c' = put_account c id a'
  if ltb 0 (get_total s.accumulator)
      then claim_interest env c'
          (record {
            account_id = id;
            claimed_amount = s.accumulator;
            account_rollback = claim_rollback a' s.rollback_jars;
          })
          (length s.interest_per_jar)
      else ok (c', value s.accumulator)

-- `claim_total`
unfoldable pub claim_total :
    Env → Contract → Option Bool → Result (Contract × PromiseOrValue ClaimedAmountView AfterClaim)
unfolding claim_account
claim_total env c details = do
  c' ← settle_interest c env.predecessor env.now
  a ← get_account c' env.predecessor
  claim_account env c' details a

-- A claimed jar is unlocked, and closed if nothing is left in it.
unfoldable pub release_jar : Account → String → Jar → Account
release_jar a id jar =
    if should_close jar then record a { jars = remove id a.jars } else put_jar a id jar

unfoldable pub unlock_claimed : Account → Dict JarCompanion → Result Account
unfolding release_jar
unlock_claimed a [] = ok a
unlock_claimed a ((id, _) ∷ rest) = do
  jar ← get_jar a id
  unlock_claimed (release_jar a id (Jar.unlock jar)) rest

-- `after_claim_internal`, where the transfer succeeded and where it failed.
unfoldable pub after_claim : Contract → AfterClaim → Bool → Result (Contract × ClaimedAmountView)
unfolding unlock_claimed emptied
after_claim c call true = do
  a ← get_account c call.account_id
  jars ← or_panic call.account_rollback.new_jars account_not_found
  a' ← unlock_claimed a jars
  ok (put_account c call.account_id a', call.claimed_amount)
after_claim c call false = do
  a ← get_account c call.account_id
  a' ← Account.apply a call.account_rollback
  ok (put_account c call.account_id a', emptied call.claimed_amount)
