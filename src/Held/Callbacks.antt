-- ===== src/Held/Callbacks.antt =====
-- No callback takes away a held jar that it does not count on (contract/src/feature).
use sweat_jar.Base.{
  ℕ, ◌≡◌, subst, ok, ok-injective, true, false, Bool, Option, none, some, List, String, or_panic,
  account_not_found, add_u128,
}
use sweat_jar.Base.Ensures.{Ensures, returns, on_if, after, given, under}
use sweat_jar.Base.Dict.{Dict}
use sweat_jar.Jar.{Deposit, JarCompanion}
use sweat_jar.Jar
use sweat_jar.Account.{Account, get_jar, put_jar}
use sweat_jar.Account
use sweat_jar.Contract.{Contract, get_account, put_account}
use sweat_jar.Claim.{AfterClaim, unlock_claimed, after_claim}
use sweat_jar.Withdraw.{
  AfterWithdraw, AfterBulkWithdraw, after_withdraw, after_bulk_withdraw, unlock_requested,
  view_requests, clean_up_requested, clean_up, new_view, empty_bulk,
}
use sweat_jar.Restake.{
  Request, after_transfer_remainder, withdrawn_amount, unlock_partitions, fee_of_withdrawal,
}
use sweat_jar.Fees.{after_fee_withdrawn}
use sweat_jar.World.{
  Callback, resolve, after_claim_due, after_withdraw_due, after_bulk_withdraw_due,
  after_transfer_remainder_due, after_fee_withdrawn_due,
}
use sweat_jar.Held.{IsHeldIn, IsHeld, read-IsHeldAt, write-IsHeld}
use sweat_jar.Held.Slots.{
  Avoids, slots_of, owner_of, put_jar_other, unlock_claimed-IsHeldIn, apply-IsHeldIn,
  clean_up-IsHeldIn, unlock_requested-IsHeldIn, clean_up_requested-IsHeldIn,
  unlock_partitions-IsHeldIn, rollback_slots, claim_slots, request_slots,
}
use sweat_jar.Held.Restakes.{clean_up_and_deposit-IsHeld}

-- The callback is of another account, or does not count on the account's jar of the product.
abbrev pub Misses : String → String → Callback → Type 0
Misses id product_id due = owner_of due ≡ id → Avoids product_id (slots_of due)

listed_slots :
    (product_id : String) (o : Option (Dict JarCompanion)) {jars : Dict JarCompanion}
    → or_panic o account_not_found ≡ ok jars
    → Avoids product_id (rollback_slots o)
    → Avoids product_id (claim_slots jars)
listed_slots product_id none e avoids = cc
listed_slots product_id (some jars) e avoids =
    subst (λ js. Avoids product_id (claim_slots js)) (ok-injective e) avoids

module _ (id product_id : String) (front : List Deposit) where
  unlocked :
      (call : AfterBulkWithdraw) (a : Account)
      → (call.account_id ≡ id
          → Avoids product_id (request_slots call.requests) × IsHeldIn product_id front a)
      → Ensures
          (λ a'. call.account_id ≡ id → IsHeldIn product_id front a')
          (unlock_requested a call.requests)
  unlocked call a h =
      under (unlock_requested a call.requests)
        (λ same. unlock_requested-IsHeldIn product_id front call.requests a (h same).0 (h same).1)

  after_claim-IsHeld :
      (c : Contract) (call : AfterClaim) (success : Bool)
      → Misses id product_id (after_claim_due call)
      → IsHeld id product_id front c
      → Ensures (λ r. IsHeld id product_id front r.0) (after_claim c call success)
  unfolding after_claim
  after_claim-IsHeld c call true apart h = after (get_account c call.account_id) _ λ a ha.
      after (or_panic call.account_rollback.new_jars account_not_found) _ λ jars found.
        given _
          (under (unlock_claimed a jars) (λ same.
            unlock_claimed-IsHeldIn product_id front jars a
              (listed_slots product_id call.account_rollback.new_jars found (apart same))
              (read-IsHeldAt 0 id product_id front c call.account_id h ha same)))
          λ a' ha'. returns _ (write-IsHeld 0 id product_id front c call.account_id a' h ha')
  after_claim-IsHeld c call false apart h = after (get_account c call.account_id) _ λ a ha.
      given _
        (under (Account.apply a call.account_rollback) (λ same.
          apply-IsHeldIn product_id front call.account_rollback a (apart same)
            (read-IsHeldAt 0 id product_id front c call.account_id h ha same)))
        λ a' ha'. returns _ (write-IsHeld 0 id product_id front c call.account_id a' h ha')

  after_withdraw-IsHeld :
      (c : Contract) (call : AfterWithdraw) (success : Bool)
      → Misses id product_id (after_withdraw_due call)
      → IsHeld id product_id front c
      → Ensures (λ r. IsHeld id product_id front r.0) (after_withdraw c call success)
  unfolding after_withdraw
  after_withdraw-IsHeld c call success apart h =
      let r = call.request in
      after (get_account c call.account_id) _ λ a ha. after (get_jar a r.product_id) _ λ jar _.
        let a0 = put_jar a r.product_id (Jar.unlock jar) in
        let h0 : call.account_id ≡ id → IsHeldIn product_id front a0 = λ same.
          put_jar_other product_id front a r.product_id (Jar.unlock jar) (apart same).0
            (read-IsHeldAt 0 id product_id front c call.account_id h ha same) in
        on_if success _ _
          (given _
            (under (clean_up a0 r)
              (λ same. clean_up-IsHeldIn product_id front r a0 (apart same).0 (h0 same)))
            λ a'' ha''. after (add_u128 c.fee_amount r.withdrawal.fee) _ λ fees _.
              after (new_view r.product_id r.withdrawal.amount r.withdrawal.fee) _
                λ v _. returns _ (write-IsHeld 0 id product_id front c call.account_id a'' h ha''))
          (after (new_view r.product_id 0 0) _
            λ v _. returns _ (write-IsHeld 0 id product_id front c call.account_id _ h h0))

  after_bulk_withdraw-IsHeld :
      (c : Contract) (call : AfterBulkWithdraw) (success : Bool)
      → Misses id product_id (after_bulk_withdraw_due call)
      → IsHeld id product_id front c
      → Ensures (λ r. IsHeld id product_id front r.0) (after_bulk_withdraw c call success)
  unfolding after_bulk_withdraw
  after_bulk_withdraw-IsHeld c call false apart h = after (get_account c call.account_id) _ λ a ha.
      given _
        (unlocked call a
          (λ same. (apart same, read-IsHeldAt 0 id product_id front c call.account_id h ha same)))
        λ a' ha'. returns _ (write-IsHeld 0 id product_id front c call.account_id a' h ha')
  after_bulk_withdraw-IsHeld c call true apart h = after (get_account c call.account_id) _ λ a ha.
      given _
        (unlocked call a
          (λ same. (apart same, read-IsHeldAt 0 id product_id front c call.account_id h ha same)))
        λ a' ha'. after (view_requests empty_bulk call.requests) _ λ v _.
          given _
            (under (clean_up_requested a' c.fee_amount call.requests) (λ same.
              clean_up_requested-IsHeldIn product_id front call.requests a' c.fee_amount
                (apart same) (ha' same)))
            λ r hr. returns _ (write-IsHeld 0 id product_id front c call.account_id r.0 h hr)

  after_transfer_remainder-IsHeld :
      (c : Contract) (r : Request) (now : ℕ) (success : Bool)
      → Misses id product_id (after_transfer_remainder_due r)
      → IsHeld id product_id front c
      → Ensures (IsHeld id product_id front) (after_transfer_remainder c r now success)
  unfolding after_transfer_remainder
  after_transfer_remainder-IsHeld c r now success apart h =
      after (withdrawn_amount r.withdrawal) _ λ _ _. after (get_account c r.account_id) _ λ a ha.
        given _
          (under (unlock_partitions a r.partitions) (λ same.
            unlock_partitions-IsHeldIn product_id front r.partitions a (apart same)
              (read-IsHeldAt 0 id product_id front c r.account_id h ha same)))
          λ a' ha'.
            let h' = write-IsHeld 0 id product_id front c r.account_id a' h ha' in
            on_if success _ _
              (after
                (add_u128 (put_account c r.account_id a').fee_amount
                  (fee_of_withdrawal r.withdrawal))
                _ λ fees _. clean_up_and_deposit-IsHeld id product_id front _ r now apart h')
              (returns _ h')

  after_fee_withdrawn-IsHeld :
      (c : Contract) (amount : ℕ) (success : Bool)
      → IsHeld id product_id front c
      → Ensures (λ r. IsHeld id product_id front r.0) (after_fee_withdrawn c amount success)
  unfolding after_fee_withdrawn
  after_fee_withdrawn-IsHeld c amount true h = returns _ h
  after_fee_withdrawn-IsHeld c amount false h =
      after (add_u128 c.fee_amount amount) _ λ fees _. returns _ h

  pub resolve-IsHeld :
      (c : Contract) (now : ℕ) (due : Callback) (success : Bool)
      → Misses id product_id due
      → IsHeld id product_id front c
      → Ensures (IsHeld id product_id front) (resolve c now due success)
  unfolding resolve
  resolve-IsHeld c now (after_claim_due call) success apart h =
      given _ (after_claim-IsHeld c call success apart h) λ r hr. returns _ hr
  resolve-IsHeld c now (after_withdraw_due call) success apart h =
      given _ (after_withdraw-IsHeld c call success apart h) λ r hr. returns _ hr
  resolve-IsHeld c now (after_bulk_withdraw_due call) success apart h =
      given _ (after_bulk_withdraw-IsHeld c call success apart h) λ r hr. returns _ hr
  resolve-IsHeld c now (after_transfer_remainder_due r) success apart h =
      after_transfer_remainder-IsHeld c r now success apart h
  resolve-IsHeld c now (after_fee_withdrawn_due amount) success apart h =
      given _ (after_fee_withdrawn-IsHeld c amount success h) λ r hr. returns _ hr
