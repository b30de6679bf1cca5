-- ===== src/Examples/Calls.antt =====
-- Examples of the theorems on calls of the contract.
use sweat_jar.Base.{
  ℕ, ◌≡◌, refl, true, false, ◌+◌, ◌<◌, ◌≤◌, none, some, List, [], ◌∷◌, ◌++◌, Result, ok, String,
  arith, u128_mod, Option, ◌*◌, ◌>>=◌,
}
use sweat_jar.Base.Dict.{lookup, IsMap}
use sweat_jar.Time.{ms_in_day}
use sweat_jar.Jar.{JarCache}
use sweat_jar.Contract.{
  Contract, PromiseOrValue, promise, value, Transfer, get_account, put_account,
}
use sweat_jar.Account.{Account, or_keep, get_jar}
use sweat_jar.Claim.{
  AfterClaim, ClaimedAmountView, claim_total, claim_rollback, after_claim, emptied, get_total,
}
use sweat_jar.Claim.Rollback.{SameAccount, claim_total-rollback, after_claim-score}
use sweat_jar.Settle.{settle_interest}
use sweat_jar.Examples.Data.{env, bank, alice, year_jar, deposit_at, score_of, result_or}

-- Alice's jars with interest that was computed on day 20.
abbrev day_20 : Option JarCache
day_20 = some (record { updated_at = 20 * ms_in_day; interest = 300 })

abbrev cached_alice : Account
cached_alice = record alice {
  jars =
      ("flex", record year_jar { deposits = deposit_at 10 100000 ∷ []; cache = day_20 })
      ∷ ("year", record year_jar { cache = day_20 })
      ∷ [];
}

abbrev cached_bank : Contract
cached_bank = put_account bank "alice.near" cached_alice

abbrev settled_bank : Contract
settled_bank = result_or bank (settle_interest cached_bank "alice.near" env.now)

abbrev settled_alice : Account
settled_alice = result_or alice (get_account settled_bank "alice.near")

abbrev no_promise : PromiseOrValue ClaimedAmountView AfterClaim
no_promise = value (ClaimedAmountView.total 0)

abbrev claimed : Contract × PromiseOrValue ClaimedAmountView AfterClaim
claimed = result_or (bank, no_promise) (claim_total env cached_bank none)

abbrev claim_transfer : Transfer
claim_transfer = record { receiver_id = "alice.near"; amount = 3952 }

abbrev claim_call : AfterClaim
claim_call = elim claimed.1 [
  | value v ↦ record {
    account_id = "";
    claimed_amount = v;
    account_rollback = record {
      new_nonce = none;
      new_jars = none;
      new_timezone = none;
      new_score = none;
      new_features = none;
    };
  }
  | promise t call ↦ call
]

-- A score of 9000 is recorded while the claim is on its way.
abbrev late_alice : Account
late_alice = record (result_or alice (get_account claimed.0 "alice.near")) {
  score = score_of 40 9000 5000;
}

abbrev late : Contract
late = put_account claimed.0 "alice.near" late_alice

claim_total-rollback_example :
    (claim_transfer
      ≡ record { receiver_id = env.predecessor; amount = get_total claim_call.claimed_amount })
    × ((b : Account) × (after_claim claimed.0 claim_call false
          ≡ ok (put_account claimed.0 env.predecessor b, emptied claim_call.claimed_amount))
        × SameAccount settled_alice b)
unfolding claim_total get_account get_total lookup put_account settle_interest
    sweat_jar.Account.get_jar sweat_jar.Account.put_jar sweat_jar.Base.Dict.insert
    sweat_jar.Base.add_u128 sweat_jar.Base.add_u64 sweat_jar.Base.sub_checked
    sweat_jar.Contract.assert_gas sweat_jar.Contract.get_products_for_account
    sweat_jar.Decimal.pow10 sweat_jar.Interest.get_interest sweat_jar.Interest.get_jar_interest
    sweat_jar.Product.is_score_based sweat_jar.Score.days_since_last_update sweat_jar.Time.is_valid
claim_total-rollback_example =
    claim_total-rollback env cached_bank none {c' = settled_bank} {c1 = claimed.0}
      {a = settled_alice} {t = claim_transfer} {call = claim_call} refl refl (refl, (refl, tt))
      ((_, refl), ((_, refl), tt)) refl

after_claim-score_example :
    (b : Account) × (get_account
        (result_or (claimed.0, ClaimedAmountView.total 0) (after_claim late claim_call false)).0
        "alice.near"
      ≡ ok b)
    × (b.score ≡ settled_alice.score)
    × (b.timezone ≡ settled_alice.timezone)
    × (b.nonce ≡ late_alice.nonce)
unfolding after_claim claim_rollback claim_total get_account get_total lookup put_account
    settle_interest sweat_jar.Account.apply sweat_jar.Account.get_jar sweat_jar.Account.or_keep
    sweat_jar.Account.put_jar sweat_jar.Base.Dict.insert sweat_jar.Base.add_u128
    sweat_jar.Base.add_u64 sweat_jar.Base.sub_checked sweat_jar.Contract.assert_gas
    sweat_jar.Contract.get_products_for_account sweat_jar.Decimal.pow10
    sweat_jar.Interest.get_interest sweat_jar.Interest.get_jar_interest
    sweat_jar.Product.is_score_based sweat_jar.Score.days_since_last_update sweat_jar.Time.is_valid
after_claim-score_example =
    after_claim-score late claim_call settled_alice late_alice
      (or_keep claim_call.account_rollback.new_jars []) {view = emptied claim_call.claimed_amount}
      refl refl refl

-- Interest was never computed for the jars of `bank`: when a claim there fails, they keep the claim's cache.
abbrev uncached : Contract × PromiseOrValue ClaimedAmountView AfterClaim
uncached = result_or (bank, no_promise) (claim_total env bank none)

abbrev failed_claim : Contract
failed_claim = elim uncached.1 [
  | value v ↦ bank
  | promise t call ↦
      (result_or (bank, ClaimedAmountView.total 0) (after_claim uncached.0 call false)).0
]

flex_cache_is_lost :
    (get_account failed_claim "alice.near" >>= λ a. get_jar a "flex" >>= λ jar. ok jar.cache)
    ≡ ok (some (record { updated_at = 40 * ms_in_day; interest = 0 }))
unfolding after_claim sweat_jar.Account.apply claim_total get_account get_total lookup put_account
    settle_interest sweat_jar.Account.get_jar sweat_jar.Account.put_jar sweat_jar.Base.Dict.insert
    sweat_jar.Base.add_u128 sweat_jar.Base.add_u64 sweat_jar.Base.sub_checked
    sweat_jar.Contract.assert_gas sweat_jar.Contract.get_products_for_account
    sweat_jar.Decimal.pow10 sweat_jar.Interest.get_interest sweat_jar.Interest.get_jar_interest
    sweat_jar.Product.is_score_based sweat_jar.Score.days_since_last_update sweat_jar.Time.is_valid
    sweat_jar.Jar.from_json sweat_jar.Jar.to_rollback sweat_jar.Jar.lock sweat_jar.Jar.claim
flex_cache_is_lost = refl
