-- ===== src/Ledger/Callbacks.antt =====
-- The principal under every callback (contract/src/feature, the `#[private]` functions).
use sweat_jar.Base.{
  ℕ, ◌+◌, ◌≡◌, refl, sym, ap, ◌∙◌, true, false, Bool, if◌then◌else◌, ok, arith, String, add_u128,
  or_panic, account_not_found, or_panic-eq-ok, some-injective, take,
}
use sweat_jar.Base.Dict.{IsMap, lookup-insert_self}
use sweat_jar.Base.Ensures.{Ensures, returns, after, given, weaken, outcome}
use sweat_jar.Jar.{Deposit, Jar, JarCompanion}
use sweat_jar.Jar
use sweat_jar.Jar.Liquid.{principal_sum}
use sweat_jar.Account.{Account, get_jar, put_jar}
use sweat_jar.Contract.{Contract, get_account, put_account}
use sweat_jar.Claim.{AfterClaim, after_claim}
use sweat_jar.Withdraw.{
  AfterWithdraw, AfterBulkWithdraw, after_withdraw, after_bulk_withdraw, view_requests, new_view,
  empty_bulk,
}
use sweat_jar.Restake.{Request, after_transfer_remainder, withdrawn_amount, fee_of_withdrawal}
use sweat_jar.Restake.Fee.{payout}
use sweat_jar.Fees.{after_fee_withdrawn}
use sweat_jar.World.{
  Callback, resolve, after_claim_due, after_withdraw_due, after_bulk_withdraw_due,
  after_transfer_remainder_due, after_fee_withdrawn_due,
}
use sweat_jar.Invariant.{IsContract, get_account-IsAccount}
use sweat_jar.Held.Slots.{request_slots}
use sweat_jar.Book.{book}
use sweat_jar.Ledger.{principal, account_principal}
use sweat_jar.Ledger.Partitions.{covered, clean_up_and_deposit-principal}
use sweat_jar.Ledger.Mature.{page_of}
use sweat_jar.Ledger.Pages.{
  IsTame, put_jar-IsSame, unlock_claimed-IsSame, unlock_requested-IsSame, unlock_partitions-IsSame,
  apply-IsSame,
}
use sweat_jar.Ledger.Payouts.{clean_up-IsCut, clean_up_requested-principal}
use sweat_jar.Ledger.Due.{
  IsDue, counted_of, pages-IsListed, paid_out, put_less, put_same, requested, with_fees,
}

either_way : (success : Bool) (n : ℕ) {m : ℕ} → n + 0 ≡ m → n + (if success then 0 else 0) ≡ m
either_way true n h = h
either_way false n h = h

module _ (now : ℕ) (c : Contract) (sound : IsContract now c) where
  unique_jars : (id : String) {a : Account} → get_account c id ≡ ok a → IsMap a.jars
  unique_jars id ha = (outcome _ (get_account-IsAccount now c id sound) ha).0

  after_claim-principal :
      (call : AfterClaim) (success : Bool)
      → IsTame call.account_rollback.new_jars
      → Ensures (λ r. principal r.0 + 0 ≡ principal c) (after_claim c call success)
  unfolding after_claim
  after_claim-principal call true tame = after (get_account c call.account_id) _ λ a ha.
      after (or_panic call.account_rollback.new_jars account_not_found) _ λ jars _.
        given _ (unlock_claimed-IsSame jars a (unique_jars call.account_id ha))
          λ b same. returns _ (put_same c call.account_id b ha same)
  after_claim-principal call false tame = after (get_account c call.account_id) _ λ a ha.
      given _ (apply-IsSame call.account_rollback a tame)
        λ b same. returns _ (put_same c call.account_id b ha same)

  after_withdraw-principal :
      (call : AfterWithdraw) (success : Bool)
      → IsDue c (after_withdraw_due call)
      → Ensures
          (λ r.
            principal r.0 + (if success then call.request.withdrawal.amount else 0) ≡ principal c)
          (after_withdraw c call success)
  unfolding after_withdraw covered counted_of Jar.unlock
  after_withdraw-principal call true (_, cover, _) =
      let r = call.request in
      after (get_account c call.account_id) _ λ a ha. after (get_jar a r.product_id) _ λ jar hj.
        let a0 = put_jar a r.product_id (Jar.unlock jar) in
        let same = put_jar-IsSame a r.product_id (Jar.unlock jar) hj refl in
        let page = same.0 r.product_id ∙ sym (page_of c call.account_id r.product_id ha) in
        let taken = ap (λ ds. principal_sum (take r.partition_index ds)) page in
        given _ (clean_up-IsCut r a0 (same.2 (unique_jars call.account_id ha))) λ b (_, cut, _).
          after (add_u128 c.fee_amount r.withdrawal.fee) _ λ fees _.
            after (new_view r.product_id r.withdrawal.amount r.withdrawal.fee) _ λ v _.
              let less : account_principal b + r.withdrawal.amount ≡ account_principal a =
                omega (arith, cut, same.1, taken, cover) in
              returns _ (
                ap (λ n. n + r.withdrawal.amount) (with_fees (put_account c call.account_id b) fees)
                ∙ put_less c call.account_id b r.withdrawal.amount ha less)
  after_withdraw-principal call false _ =
      let r = call.request in
      after (get_account c call.account_id) _ λ a ha. after (get_jar a r.product_id) _ λ jar hj.
        after (new_view r.product_id 0 0) _ λ v _.
          returns _ (
            put_same c call.account_id _ ha
              (put_jar-IsSame a r.product_id (Jar.unlock jar) hj refl))

  after_bulk_withdraw-principal :
      (call : AfterBulkWithdraw) (success : Bool)
      → IsDue c (after_bulk_withdraw_due call)
      → Ensures
          (λ r. principal r.0 + (if success then requested call.requests else 0) ≡ principal c)
          (after_bulk_withdraw c call success)
  unfolding after_bulk_withdraw counted_of
  after_bulk_withdraw-principal call true (distinct, cover, _) =
      let id = call.account_id in
      let rs = call.requests in
      after (get_account c id) _ λ a ha. given _ (unlock_requested-IsSame rs a) λ a' same.
        after (view_requests empty_bulk rs) _ λ v _.
          given _
            (clean_up_requested-principal (book c id) rs a' c.fee_amount
              (same.2 (unique_jars id ha)) distinct
              (pages-IsListed c id (request_slots rs) a' ha same.0))
            λ r cut.
              let less : account_principal r.0 + requested rs ≡ account_principal a =
                omega (arith, cut, same.1, cover) in
              returns _ (
                ap (λ n. n + requested rs) (with_fees (put_account c id r.0) r.1)
                ∙ put_less c id r.0 (requested rs) ha less)
  after_bulk_withdraw-principal call false _ = after (get_account c call.account_id) _ λ a ha.
      given _ (unlock_requested-IsSame call.requests a)
        λ b same. returns _ (put_same c call.account_id b ha same)

  -- The account that has just been stored.
  again :
      (id : String) (a : Account) (fees : ℕ) {b : Account}
      → get_account (record (put_account c id a) { fee_amount = fees }) id ≡ ok b
      → b ≡ a
  unfolding get_account put_account
  again id a fees hb =
      some-injective _ _
        (sym (or_panic-eq-ok _ account_not_found hb) ∙ lookup-insert_self id a c.accounts)

  after_transfer_remainder-principal :
      (r : Request) (success : Bool)
      → IsDue c (after_transfer_remainder_due r)
      → Ensures
          (λ c'. principal c' + (if success then payout r.withdrawal else 0) ≡ principal c)
          (after_transfer_remainder c r now success)
  unfolding after_transfer_remainder counted_of
  after_transfer_remainder-principal r true (distinct, cover, _) =
      let id = r.account_id in
      after (withdrawn_amount r.withdrawal) _ λ _ _. after (get_account c id) _ λ a ha.
        given _ (unlock_partitions-IsSame r.partitions a) λ a' same.
          let c1 = put_account c id a' in
          after (add_u128 c1.fee_amount (fee_of_withdrawal r.withdrawal)) _ λ fees _.
            weaken
              (λ c' sum. omega (arith, sum, cover, with_fees c1 fees, put_same c id a' ha same))
              (clean_up_and_deposit-principal (book c id) (record c1 { fee_amount = fees }) r now
                distinct
                (λ b hb. rw (again id a' fees hb) (pages-IsListed c id r.partitions a' ha same.0)))
  after_transfer_remainder-principal r false _ = after (withdrawn_amount r.withdrawal) _ λ _ _.
      after (get_account c r.account_id) _ λ a ha.
        given _ (unlock_partitions-IsSame r.partitions a)
          λ a' same. returns _ (put_same c r.account_id a' ha same)

  after_fee_withdrawn-principal :
      (amount : ℕ) (success : Bool)
      → Ensures (λ r. principal r.0 + 0 ≡ principal c) (after_fee_withdrawn c amount success)
  unfolding after_fee_withdrawn
  after_fee_withdrawn-principal amount true = returns _ (omega arith)
  after_fee_withdrawn-principal amount false =
      after (add_u128 c.fee_amount amount) _ λ fees _. returns _ (omega (arith, with_fees c fees))

  resolve-Ensures :
      (due : Callback) (success : Bool)
      → IsDue c due
      → Ensures
          (λ c'. principal c' + (if success then paid_out due else 0) ≡ principal c)
          (resolve c now due success)
  unfolding resolve paid_out
  resolve-Ensures (after_claim_due call) success (_, _, tame) =
      given _ (after_claim-principal call success tame)
        λ r h. returns _ (either_way success (principal r.0) h)
  resolve-Ensures (after_withdraw_due call) success is_due =
      given _ (after_withdraw-principal call success is_due) λ r h. returns _ h
  resolve-Ensures (after_bulk_withdraw_due call) success is_due =
      given _ (after_bulk_withdraw-principal call success is_due) λ r h. returns _ h
  resolve-Ensures (after_transfer_remainder_due r) success is_due =
      after_transfer_remainder-principal r success is_due
  resolve-Ensures (after_fee_withdrawn_due amount) success is_due =
      given _ (after_fee_withdrawn-principal amount success)
        λ r h. returns _ (either_way success (principal r.0) h)

-- Where the deposits that a pending callback counts on are at the front of their jars, the callback that
-- returns takes exactly what was paid out from the principal of all deposits, and where its transfer
-- failed nothing.
pub resolve-principal :
    (now : ℕ) (c : Contract) (due : Callback) (success : Bool) {c' : Contract}
    → IsContract now c
    → IsDue c due
    → resolve c now due success ≡ ok c'
    → principal c' + (if success then paid_out due else 0) ≡ principal c
resolve-principal now c due success sound is_due done =
    outcome _ (resolve-Ensures now c sound due success is_due) done
