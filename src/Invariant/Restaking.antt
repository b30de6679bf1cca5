-- ===== src/Invariant/Restaking.antt =====
-- The clean-up of a restake and its callback keep the contract sound (contract/src/feature/restake/api).
use sweat_jar.Base.{ℕ, Bool, List, [], ◌∷◌, String, add_u128, add_u32}
use sweat_jar.Base.Ensures.{Ensures, returns, on_if, after, given}
use sweat_jar.Jar
use sweat_jar.Account.{Account}
use sweat_jar.Account
use sweat_jar.Contract.{Contract, put_account}
use sweat_jar.Restake.{
  Request, withdrawn_amount, clean_up_partitions, clean_up_and_deposit, unlock_partitions,
  fee_of_withdrawal, after_transfer_remainder,
}
use sweat_jar.Invariant.{
  IsAccount, IsContract, get_jar-IsJar, put_jar-IsAccount, get_account-IsAccount,
  put_account-IsContract,
}
use sweat_jar.Invariant.Depositing.{deposit-IsAccount}
use sweat_jar.Invariant.Paying.{clean_up_deposits-IsJar}

module _ (now : ℕ) where
  clean_up_partitions-IsAccount :
      (partitions : List (String × ℕ)) (a : Account)
      → IsAccount now a
      → Ensures (IsAccount now) (clean_up_partitions a partitions)
  unfolding clean_up_partitions
  clean_up_partitions-IsAccount [] a h = returns a h
  clean_up_partitions-IsAccount ((id, n) ∷ rest) a h = given _ (get_jar-IsJar now a id h) λ jar hj.
      given _ (clean_up_deposits-IsJar now jar n hj)
        λ jar' hj'. clean_up_partitions-IsAccount rest _ (put_jar-IsAccount now a id jar' h hj')

  unlock_partitions-IsAccount :
      (partitions : List (String × ℕ)) (a : Account)
      → IsAccount now a
      → Ensures (IsAccount now) (unlock_partitions a partitions)
  unfolding unlock_partitions Jar.unlock
  unlock_partitions-IsAccount [] a h = returns a h
  unlock_partitions-IsAccount ((id, n) ∷ rest) a h = given _ (get_jar-IsJar now a id h) λ jar hj.
      unlock_partitions-IsAccount rest _ (put_jar-IsAccount now a id (Jar.unlock jar) h hj)

  pub clean_up_and_deposit-IsContract :
      (c : Contract) (r : Request)
      → IsContract now c
      → Ensures (IsContract now) (clean_up_and_deposit c r now)
  unfolding clean_up_and_deposit
  clean_up_and_deposit-IsContract c r h =
      given _ (get_account-IsAccount now c r.account_id h) λ a ha.
        given _ (clean_up_partitions-IsAccount r.partitions a ha) λ a' ha'.
          after (add_u32 (Account.deposit a' r.deposit.product_id r.deposit.amount now).nonce 1) _
            λ nonce _. returns _ (
              put_account-IsContract now c r.account_id _ h
                (deposit-IsAccount now a' r.deposit.product_id r.deposit.amount ha'))

  -- `after_transfer_remainder`, on both outcomes.
  pub after_transfer_remainder-IsContract :
      (c : Contract) (r : Request) (success : Bool)
      → IsContract now c
      → Ensures (IsContract now) (after_transfer_remainder c r now success)
  unfolding after_transfer_remainder
  after_transfer_remainder-IsContract c r success h = after (withdrawn_amount r.withdrawal) _ λ _ _.
      given _ (get_account-IsAccount now c r.account_id h) λ a ha.
        given _ (unlock_partitions-IsAccount r.partitions a ha) λ a' ha'.
          let h' = put_account-IsContract now c r.account_id a' h ha' in
          on_if success _ _
            (after
              (add_u128 (put_account c r.account_id a').fee_amount (fee_of_withdrawal r.withdrawal))
              _ λ fees _. clean_up_and_deposit-IsContract _ r h')
            (returns _ h')
