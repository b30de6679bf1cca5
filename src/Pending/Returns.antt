-- ===== src/Pending/Returns.antt =====
-- The callback of any pending transfer returns (contract/src/feature, the `#[private]` functions).
use sweat_jar.Base.{
  ℕ, ◌+◌, ◌≤◌, ◌<◌, ◌≡◌, ◌≢◌, refl, true, Option, none, some, List, [], ◌∷◌, ◌++◌, ok, ◌>>=◌,
  String, arith, All, All-map, All-pick, add_u128-of_lt, u128_mod, add_u32, subst,
  sub_checked-of_le, or_panic-eq-ok, account_not_found,
}
use sweat_jar.Base.Dict.{Dict, lookup, lookup-insert_self}
use sweat_jar.Base.Ensures.{outcome}
use sweat_jar.Jar
use sweat_jar.Jar.{Jar, JarCompanion}
use sweat_jar.Account
use sweat_jar.Account.{Account, get_jar, put_jar}
use sweat_jar.Contract.{Contract, get_account, put_account}
use sweat_jar.Claim.{AfterClaim, after_claim}
use sweat_jar.Withdraw.{
  WithdrawalRequest, AfterWithdraw, AfterBulkWithdraw, after_withdraw, after_bulk_withdraw,
  clean_up, close_or_keep, new_view, empty_bulk,
}
use sweat_jar.Withdraw.Bulk.{amounts, fees}
use sweat_jar.Restake.{
  Request, unlock_partitions, withdrawn_amount, fee_of_withdrawal, clean_up_and_deposit,
  after_transfer_remainder,
}
use sweat_jar.Fees.{after_fee_withdrawn}
use sweat_jar.World.{
  World, Callback, resolve, after_claim_due, after_withdraw_due, after_bulk_withdraw_due,
  after_transfer_remainder_due, after_fee_withdrawn_due,
}
use sweat_jar.World.Reach.{IsWorld}
use sweat_jar.Held.Slots.{slots_of, rollback_slots, request_slots}
use sweat_jar.Ledger.Partitions.{IsDistinct}
use sweat_jar.Pending.{IsCounted, IsPending}
use sweat_jar.Pending.Steps.{IsBacked, FairSteps, FairSteps-IsBacked}
use sweat_jar.Pending.Failures.{
  counted_account, unlock_partitions-returns, unlock_requested-lem, cons_not_nil,
}
use sweat_jar.Pending.Successes.{
  HasFront, counted_fronts, clean_up_deposits-returns, clean_up_partitions-returns,
  clean_up_requested-returns, view_requests-returns, unlock_claimed-returns,
  unlock_partitions-fronts,
}

-- What the callback of a successful transfer asks for: a jar to pay from, fees within the amounts, and
-- sums (with the collected fees) and a nonce that are machine integers.
abbrev pub IsPayable : Contract → Callback → Type 0
IsPayable c (after_claim_due call) = rollback_slots call.account_rollback.new_jars ≢ []
IsPayable c (after_withdraw_due call) =
    let w = call.request.withdrawal in (w.fee ≤ w.amount) × (c.fee_amount + w.fee < u128_mod)
IsPayable c (after_bulk_withdraw_due call) =
    (request_slots call.requests ≢ [])
    × All (λ r. r.withdrawal.fee ≤ r.withdrawal.amount) call.requests
    × (amounts call.requests < u128_mod)
    × (c.fee_amount + fees call.requests < u128_mod)
IsPayable c (after_transfer_remainder_due r) =
    (r.partitions ≢ [])
    × ((n : ℕ) × (withdrawn_amount r.withdrawal ≡ ok n))
    × (c.fee_amount + fee_of_withdrawal r.withdrawal < u128_mod)
    × ((n : ℕ) × ((get_account c r.account_id >>= λ a. add_u32 a.nonce 1) ≡ ok n))
IsPayable c (after_fee_withdrawn_due _) = Unit

-- The account of a callback, and the deposits that are counted on.
fronts_account :
    (c : Contract) (id : String) (ps : List (String × ℕ)) (total : ℕ)
    → ps ≢ []
    → IsCounted c id ps total
    → (a : Account) × (get_account c id ≡ ok a) × All (HasFront a.jars) ps
unfolding get_account
fronts_account c id ps total some_jar h =
    let (a, found, _) = counted_account c id ps total some_jar h in
    (
      a,
      found,
      counted_fronts c id ps total (or_panic-eq-ok (lookup id c.accounts) account_not_found found)
          h,
    )

-- The same with the jars unlocked.
unlocked_fronts_account :
    (c : Contract) (id : String) (ps : List (String × ℕ)) (total : ℕ)
    → ps ≢ []
    → IsCounted c id ps total
    → (a : Account) × (get_account c id ≡ ok a)
      × ((a' : Account) × (unlock_partitions a ps ≡ ok a')
          × All (HasFront a'.jars) ps
          × (a'.nonce ≡ a.nonce))
unlocked_fronts_account c id ps total some_jar h =
    let (a, found, fronts) = fronts_account c id ps total some_jar h in
    let listed = All-map (λ s (jar, e, _). (jar, e)) ps fronts in
    let (a', done) = unlock_partitions-returns ps a listed in
    let (fronts', same) = outcome _ (unlock_partitions-fronts ps ps a fronts) done in
    (a, found, (a', done, fronts', same))

clean_up-returns :
    (a : Account) (r : WithdrawalRequest)
    → HasFront a.jars (r.product_id, r.partition_index)
    → (a' : Account) × (clean_up a r ≡ ok a')
unfolding clean_up get_jar
clean_up-returns a r (jar, e, le) =
    let (jar', done) = clean_up_deposits-returns jar r.partition_index le in
    (close_or_keep a r.product_id jar', rw (e, done) refl)

clean_up_and_deposit-returns :
    (c : Contract) (r : Request) (now : ℕ) (a : Account) {n : ℕ}
    → get_account c r.account_id ≡ ok a
    → IsDistinct r.partitions
    → All (HasFront a.jars) r.partitions
    → add_u32 a.nonce 1 ≡ ok n
    → (c' : Contract) × (clean_up_and_deposit c r now ≡ ok c')
unfolding clean_up_and_deposit Account.deposit put_jar
clean_up_and_deposit-returns c r now a {n} found distinct fronts next =
    let (a', done, same) = clean_up_partitions-returns r.partitions a distinct fronts in
    let a'' = Account.deposit a' r.deposit.product_id r.deposit.amount now in
    (put_account c r.account_id (record a'' { nonce = n }), rw (found, done, same, next) refl)

claimed_jars :
    (o : Option (Dict JarCompanion))
    → rollback_slots o ≢ []
    → (jars : Dict JarCompanion) × (o ≡ some jars)
claimed_jars none some_jar = absurd (some_jar refl)
claimed_jars (some jars) some_jar = (jars, refl)

stored_account :
    (c : Contract) (id : String) (a : Account) (collected : ℕ)
    → get_account (record (put_account c id a) { fee_amount = collected }) id ≡ ok a
unfolding get_account put_account
stored_account c id a collected = rw (lookup-insert_self id a c.accounts) refl

abbrev IsResolved : Contract → ℕ → Callback → Type 0
IsResolved c now due = (c' : Contract) × (resolve c now due true ≡ ok c')

claim-IsResolved :
    (c : Contract) (now : ℕ) (call : AfterClaim)
    → IsPayable c (after_claim_due call)
    → IsPending c (after_claim_due call)
    → IsResolved c now (after_claim_due call)
unfolding resolve after_claim
claim-IsResolved c now call some_jar (distinct, counted) =
    let o = call.account_rollback.new_jars in
    let (jars, is) = claimed_jars o some_jar in
    let (a, found, fronts) =
      fronts_account c call.account_id (rollback_slots o) _ some_jar counted in
    let (a', done) =
      unlock_claimed-returns jars a (subst (λ p. IsDistinct (rollback_slots p)) is distinct)
        (subst (λ p. All (HasFront a.jars) (rollback_slots p)) is fronts) in
    (put_account c call.account_id a', rw (found, is, done) refl)

withdraw-IsResolved :
    (c : Contract) (now : ℕ) (call : AfterWithdraw)
    → IsPayable c (after_withdraw_due call)
    → IsPending c (after_withdraw_due call)
    → IsResolved c now (after_withdraw_due call)
unfolding resolve after_withdraw get_jar put_jar new_view Jar.unlock
withdraw-IsResolved c now call (le, small) (distinct, counted) =
    let r = call.request in
    let w = r.withdrawal in
    let (a, found, ((jar, e, front), _)) =
      fronts_account c call.account_id (slots_of (after_withdraw_due call)) _ (cons_not_nil _ [])
        counted in
    let jar' = Jar.unlock jar in
    let (a', done) =
      clean_up-returns (put_jar a r.product_id jar') r
        (jar', lookup-insert_self r.product_id jar' a.jars, front) in
    (
      record (put_account c call.account_id a') { fee_amount = c.fee_amount + w.fee },
      rw
          (
            found,
            e,
            done,
            add_u128-of_lt c.fee_amount w.fee small,
            sub_checked-of_le w.amount w.fee le,
          )
          refl,
    )

withdraw_all-IsResolved :
    (c : Contract) (now : ℕ) (call : AfterBulkWithdraw)
    → IsPayable c (after_bulk_withdraw_due call)
    → IsPending c (after_bulk_withdraw_due call)
    → IsResolved c now (after_bulk_withdraw_due call)
unfolding resolve after_bulk_withdraw
withdraw_all-IsResolved c now call (some_jar, le, small, small_fees) (distinct, counted) =
    let rs = call.requests in
    let (a, found, (a', done, fronts, _)) =
      unlocked_fronts_account c call.account_id (request_slots rs) _ some_jar counted in
    let (v, viewed) = view_requests-returns rs empty_bulk le (omega arith) in
    let (r, cleaned) = clean_up_requested-returns rs a' c.fee_amount distinct fronts small_fees in
    (
      record (put_account c call.account_id r.0) { fee_amount = r.1 },
      rw (found, unlock_requested-lem rs a, done, viewed, cleaned) refl,
    )

restake-IsResolved :
    (c : Contract) (now : ℕ) (r : Request)
    → IsPayable c (after_transfer_remainder_due r)
    → IsPending c (after_transfer_remainder_due r)
    → IsResolved c now (after_transfer_remainder_due r)
unfolding resolve after_transfer_remainder put_account
restake-IsResolved c now r (some_jar, (n, computed), small, (m, next)) (distinct, counted) =
    let id = r.account_id in
    let (a, found, (a', done, fronts, same)) =
      unlocked_fronts_account c id r.partitions _ some_jar counted in
    let total = c.fee_amount + fee_of_withdrawal r.withdrawal in
    let next' : add_u32 a'.nonce 1 ≡ ok m = rw same (rw found at next) in
    let (c', paid) =
      clean_up_and_deposit-returns (record (put_account c id a') { fee_amount = total }) r now a'
        (stored_account c id a' total) distinct fronts next' in
    (c', rw (computed, found, done, add_u128-of_lt _ _ small) paid)

IsPending-IsResolved :
    (c : Contract) (now : ℕ) (due : Callback)
    → IsPayable c due
    → IsPending c due
    → IsResolved c now due
unfolding resolve after_fee_withdrawn
IsPending-IsResolved c now (after_claim_due call) pay h = claim-IsResolved c now call pay h
IsPending-IsResolved c now (after_withdraw_due call) pay h = withdraw-IsResolved c now call pay h
IsPending-IsResolved c now (after_bulk_withdraw_due call) pay h =
    withdraw_all-IsResolved c now call pay h
IsPending-IsResolved c now (after_transfer_remainder_due r) pay h = restake-IsResolved c now r pay h
IsPending-IsResolved c now (after_fee_withdrawn_due amount) _ _ = (c, refl)

-- The callback of a successful transfer returns. Through any calls (the maintainer's unlocking of jars
-- excepted, and the list of products of a `withdraw_all`, a `HashSet` in the source, naming none twice),
-- callbacks and waiting, from a sound state whose pending callbacks are backed and whose products are listed
-- under their own ids: if the transfer of a pending callback then succeeds, its callback returns. This is
-- provided that the callback names a jar, that no fee is above its amount, that the sums of amounts and of
-- fees are u128, and that a restaking account's next nonce is a u32.
pub FairSteps-resolved :
    {w w' : World} (front back : List Callback) (due : Callback)
    → FairSteps w w'
    → IsWorld w
    → IsBacked w
    → w'.pending ≡ front ++ due ∷ back
    → IsPayable w'.contract due
    → (c' : Contract) × (resolve w'.contract w'.now due true ≡ ok c')
FairSteps-resolved {w} {w'} front back due steps sound backed is pay =
    let h = subst (All (IsPending w'.contract)) is (FairSteps-IsBacked steps sound backed).0 in
    IsPending-IsResolved w'.contract w'.now due pay
      (All-pick (IsPending w'.contract) front due back h).0
