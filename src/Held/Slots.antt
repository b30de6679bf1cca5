-- ===== src/Held/Slots.antt =====
-- The jars that a pending callback counts on, and the rest of its account's jars, which it leaves alone
-- (contract/src/feature, the `#[private]` functions).
use sweat_jar.Base.{
  ℕ, ◌≢◌, ◌∙◌, true, false, Bool, Bool-cases, inl, inr, Option, none, some, List, [], ◌∷◌, map,
  or_panic, String, All, str_eq, eq_iff, jar_not_found, add_u128, if◌then◌else◌,
}
use sweat_jar.Base.Dict.{Dict, lookup, remove, lookup-insert_ne, lookup-remove}
use sweat_jar.Base.Ensures.{Ensures, returns, after, given}
use sweat_jar.Jar.{Deposit, Jar, JarCompanion, clean_up_deposits, should_close}
use sweat_jar.Jar
use sweat_jar.Account.{Account, AccountCompanion, get_jar, put_jar, apply_jars, apply_companions}
use sweat_jar.Account
use sweat_jar.Claim.{release_jar, unlock_claimed}
use sweat_jar.Withdraw.{
  WithdrawalRequest, close_or_keep, clean_up, unlock_requested, clean_up_requested,
}
use sweat_jar.Restake.{unlock_partitions}
use sweat_jar.World.{
  Callback, after_claim_due, after_withdraw_due, after_bulk_withdraw_due,
  after_transfer_remainder_due, after_fee_withdrawn_due,
}
use sweat_jar.Held.{IsHeldIn}

-- A product is not among the partitions of a request.
abbrev pub Avoids : String → List (String × ℕ) → Type 0
Avoids product_id = All (λ e. e.0 ≢ product_id)

-- The jars of a claim, of which no deposit is counted.
abbrev pub claim_slots : Dict JarCompanion → List (String × ℕ)
claim_slots = map (λ e. (e.0, 0))

abbrev pub rollback_slots : Option (Dict JarCompanion) → List (String × ℕ)
rollback_slots none = []
rollback_slots (some jars) = claim_slots jars

abbrev pub request_slots : List WithdrawalRequest → List (String × ℕ)
request_slots = map (λ r. (r.product_id, r.partition_index))

-- The jars that a callback counts on, each with the number of its deposits that the callback takes.
abbrev pub slots_of : Callback → List (String × ℕ)
slots_of (after_claim_due call) = rollback_slots call.account_rollback.new_jars
slots_of (after_withdraw_due call) = (call.request.product_id, call.request.partition_index) ∷ []
slots_of (after_bulk_withdraw_due call) = request_slots call.requests
slots_of (after_transfer_remainder_due r) = r.partitions
slots_of (after_fee_withdrawn_due _) = []

abbrev pub owner_of : Callback → String
owner_of (after_claim_due call) = call.account_id
owner_of (after_withdraw_due call) = call.account_id
owner_of (after_bulk_withdraw_due call) = call.account_id
owner_of (after_transfer_remainder_due r) = r.account_id
owner_of (after_fee_withdrawn_due _) = ""

module _ (product_id : String) (front : List Deposit) where
  pub put_jar_other :
      (a : Account) (j : String) (jar' : Jar)
      → j ≢ product_id
      → IsHeldIn product_id front a
      → IsHeldIn product_id front (put_jar a j jar')
  unfolding put_jar
  put_jar_other a j jar' other (jar, found, held) =
      (jar, lookup-insert_ne j product_id jar' a.jars other ∙ found, held)

  -- A jar that is written or closed, under another key.
  closed_other :
      (a : Account) (j : String) (jar' : Jar) (closes : Bool)
      → j ≢ product_id
      → IsHeldIn product_id front a
      → IsHeldIn product_id front
          (if closes then record a { jars = remove j a.jars } else put_jar a j jar')
  closed_other a j jar' true other (jar, found, held) = (
    jar,
    lookup-remove j product_id a.jars ∙ elim (Bool-cases (str_eq j product_id)) [
      | inl same ↦ absurd (other ((eq_iff j product_id).0 same))
      | inr unlike ↦ rw unlike found
    ],
    held,
  )
  closed_other a j jar' false other h = put_jar_other a j jar' other h

  pub unlock_claimed-IsHeldIn :
      (jars : Dict JarCompanion) (a : Account)
      → Avoids product_id (claim_slots jars)
      → IsHeldIn product_id front a
      → Ensures (IsHeldIn product_id front) (unlock_claimed a jars)
  unfolding unlock_claimed release_jar
  unlock_claimed-IsHeldIn [] a apart h = returns a h
  unlock_claimed-IsHeldIn ((j, _) ∷ jars) a (other, apart) h = after (get_jar a j) _ λ jar _.
      let jar' = Jar.unlock jar in
      unlock_claimed-IsHeldIn jars _ apart (closed_other a j jar' (should_close jar') other h)

  apply_jars-IsHeldIn :
      (changes : Dict JarCompanion) (a : Account) (jars : Dict Jar)
      → Avoids product_id (claim_slots changes)
      → IsHeldIn product_id front (record a { jars = jars })
      → Ensures
          (λ jars'. IsHeldIn product_id front (record a { jars = jars' }))
          (apply_jars jars changes)
  unfolding apply_jars put_jar
  apply_jars-IsHeldIn [] a jars apart h = returns jars h
  apply_jars-IsHeldIn ((j, change) ∷ changes) a jars (other, apart) h =
      after (or_panic (lookup j jars) jar_not_found) _ λ jar _.
        apply_jars-IsHeldIn changes a _ apart
          (put_jar_other (record a { jars = jars }) j (Jar.apply jar change) other h)

  apply_companions-IsHeldIn :
      (changes : Option (Dict JarCompanion)) (a : Account)
      → Avoids product_id (rollback_slots changes)
      → IsHeldIn product_id front a
      → Ensures
          (λ jars. IsHeldIn product_id front (record a { jars = jars }))
          (apply_companions a.jars changes)
  unfolding apply_companions
  apply_companions-IsHeldIn none a apart h = returns _ h
  apply_companions-IsHeldIn (some changes) a apart h = apply_jars-IsHeldIn changes a a.jars apart h

  pub apply-IsHeldIn :
      (r : AccountCompanion) (a : Account)
      → Avoids product_id (rollback_slots r.new_jars)
      → IsHeldIn product_id front a
      → Ensures (IsHeldIn product_id front) (Account.apply a r)
  unfolding Account.apply
  apply-IsHeldIn r a apart h =
      given _ (apply_companions-IsHeldIn r.new_jars a apart h) λ jars hj. returns _ hj

  pub clean_up-IsHeldIn :
      (r : WithdrawalRequest) (a : Account)
      → r.product_id ≢ product_id
      → IsHeldIn product_id front a
      → Ensures (IsHeldIn product_id front) (clean_up a r)
  unfolding clean_up close_or_keep
  clean_up-IsHeldIn r a other h = after (get_jar a r.product_id) _ λ jar _.
      after (clean_up_deposits jar r.partition_index) _
        λ jar' _. returns _ (closed_other a r.product_id jar' (should_close jar') other h)

  pub unlock_requested-IsHeldIn :
      (rs : List WithdrawalRequest) (a : Account)
      → Avoids product_id (request_slots rs)
      → IsHeldIn product_id front a
      → Ensures (IsHeldIn product_id front) (unlock_requested a rs)
  unfolding unlock_requested
  unlock_requested-IsHeldIn [] a apart h = returns a h
  unlock_requested-IsHeldIn (r ∷ rs) a (other, apart) h = after (get_jar a r.product_id) _ λ jar _.
      unlock_requested-IsHeldIn rs _ apart (put_jar_other a r.product_id (Jar.unlock jar) other h)

  pub clean_up_requested-IsHeldIn :
      (rs : List WithdrawalRequest) (a : Account) (fees : ℕ)
      → Avoids product_id (request_slots rs)
      → IsHeldIn product_id front a
      → Ensures (λ r. IsHeldIn product_id front r.0) (clean_up_requested a fees rs)
  unfolding clean_up_requested
  clean_up_requested-IsHeldIn [] a fees apart h = returns _ h
  clean_up_requested-IsHeldIn (r ∷ rs) a fees (other, apart) h =
      after (add_u128 fees r.withdrawal.fee) _ λ fees' _.
        given _ (clean_up-IsHeldIn r a other h)
          λ a' h'. clean_up_requested-IsHeldIn rs a' fees' apart h'

  pub unlock_partitions-IsHeldIn :
      (ps : List (String × ℕ)) (a : Account)
      → Avoids product_id ps
      → IsHeldIn product_id front a
      → Ensures (IsHeldIn product_id front) (unlock_partitions a ps)
  unfolding unlock_partitions
  unlock_partitions-IsHeldIn [] a apart h = returns a h
  unlock_partitions-IsHeldIn ((j, _) ∷ ps) a (other, apart) h =
      after (get_jar a j) _
        λ jar _. unlock_partitions-IsHeldIn ps _ apart (put_jar_other a j (Jar.unlock jar) other h)
