-- ===== src/Pending/Restakes.antt =====
-- What a restake leaves pending (contract/src/feature/restake/api).
use sweat_jar.Base.{ℕ, ◌+◌, refl, Option, none, some, List, String, [], ◌∙◌}
use sweat_jar.Base.Dict.{lookup-insert_self}
use sweat_jar.Base.Ensures.{Ensures, returns, after, given, always, outcome}
use sweat_jar.Jar.{Deposit}
use sweat_jar.Contract.{Env, Contract, get_account, put_account, assert_gas}
use sweat_jar.Deposits.{DepositTicket}
use sweat_jar.Claim.{gas_for_ft_transfer}
use sweat_jar.Withdraw.{WithdrawalDto, net_amount}
use sweat_jar.Restake.{
  Request, build_restake, build_restake_all, clean_up_and_deposit, finish_restake,
  gas_for_after_transfer_remainder, restake, restake_all,
}
use sweat_jar.World.{after_transfer_remainder_due}
use sweat_jar.Keeper.Restaking.{restake_internal-Ensures}
use sweat_jar.Invariant.{IsContract}
use sweat_jar.Held.{IsHeld}
use sweat_jar.Held.Restakes.{IsApart, build_restake-IsApart, build_restake_all-IsApart}
use sweat_jar.Book.{book}
use sweat_jar.Book.Pages.{IsBook, bookkeeper, read-IsPage}
use sweat_jar.Ledger.Mature.{IsBalanced, build_restake-IsBalanced, build_restake_all-IsBalanced}
use sweat_jar.Ledger.Partitions.{IsListed-all}
use sweat_jar.Ledger.Due.{counted_of}
use sweat_jar.Pending.{IsNewPromise}
use sweat_jar.Pending.Locks.{lock_partitions-IsReady, ready-IsCounted}

module _ (env : Env) (c : Contract) where
  -- The request is of deposits of unlocked jars.
  abbrev IsFresh : Request → Type 0
  IsFresh r =
      IsBalanced (book c r.account_id) r
      × ((id p : String) (front : List Deposit) → IsHeld id p front c → IsApart id p front r)

  finish_restake-IsNew :
      (c1 : Contract) (r : Request) (withdrawal : Option WithdrawalDto)
      → IsFresh r
      → IsBook (book c) c1
      → Ensures (IsNewPromise after_transfer_remainder_due c) (finish_restake env c1 r withdrawal)
  unfolding finish_restake put_account counted_of
  finish_restake-IsNew c1 r none fresh h =
      after (clean_up_and_deposit c1 r env.now) _ λ c2 _. returns _ tt
  finish_restake-IsNew c1 r (some w) ((distinct, sum, bounds), apart) h =
      after (get_account c1 r.account_id) _ λ a ha.
        given _ (lock_partitions-IsReady r.partitions [] a tt) λ b (same, ready, _).
          after (net_amount w) _ λ net _.
            after (assert_gas env (gas_for_ft_transfer + gas_for_after_transfer_remainder)) _ λ _ _.
              returns _ (
                (
                  distinct,
                  ready-IsCounted (book c r.account_id) (put_account c1 r.account_id b) r.account_id
                      b r.partitions (counted_of (after_transfer_remainder_due r))
                      (lookup-insert_self r.account_id b c1.accounts)
                      (IsListed-all (book c r.account_id) r.partitions b
                        (λ j. same.0 j ∙ read-IsPage (book c) c1 r.account_id h ha j))
                      bounds sum ready,
                ),
                apart,
              )

  restake-IsFresh :
      (from : String) (ticket : DepositTicket) (target : Option ℕ)
      → Ensures IsFresh (build_restake env c from ticket target)
  restake-IsFresh from ticket target = always _ λ r e. (
    outcome _ (build_restake-IsBalanced env c from ticket target) e,
    λ id p front held. outcome _ (build_restake-IsApart id p front env c from ticket target held) e,
  )

  restake_all-IsFresh :
      (ticket : DepositTicket) (target : Option ℕ)
      → IsContract env.now c
      → Ensures IsFresh (build_restake_all env c ticket target)
  restake_all-IsFresh ticket target sound = always _ λ r e. (
    outcome _ (build_restake_all-IsBalanced env c ticket target sound) e,
    λ id p front held.
        outcome _ (build_restake_all-IsApart id p front env c ticket target sound held) e,
  )

  pub restake-IsNew :
      (from : String) (ticket : DepositTicket) (signature : Option (List ℕ)) (amount : Option ℕ)
      → Ensures
          (IsNewPromise after_transfer_remainder_due c)
          (restake env c from ticket signature amount)
  unfolding restake
  restake-IsNew from ticket signature amount =
      restake_internal-Ensures env (bookkeeper (book c) env.now) IsFresh _
        (λ c1 r fresh h. finish_restake-IsNew c1 r r.withdrawal fresh h) c ticket signature
        (build_restake env c from ticket amount) (restake-IsFresh from ticket amount) (λ _ _. refl)

  pub restake_all-IsNew :
      (ticket : DepositTicket) (signature : Option (List ℕ)) (amount : Option ℕ)
      → IsContract env.now c
      → Ensures
          (IsNewPromise after_transfer_remainder_due c)
          (restake_all env c ticket signature amount)
  unfolding restake_all
  restake_all-IsNew ticket signature amount sound =
      restake_internal-Ensures env (bookkeeper (book c) env.now) IsFresh _
        (λ c1 r fresh h. finish_restake-IsNew c1 r r.withdrawal fresh h) c ticket signature
        (build_restake_all env c ticket amount) (restake_all-IsFresh ticket amount sound)
        (λ _ _. refl)
