-- ===== src/Ledger/Restakes.antt =====
-- A restake keeps the principal until it pays some of it out (contract/src/feature/restake/api).
use sweat_jar.Base.{ℕ, ◌≡◌, refl, ap, Option, none, List, arith, String}
use sweat_jar.Base.Ensures.{Ensures, weaken}
use sweat_jar.Contract.{Env, Contract}
use sweat_jar.Deposits.{DepositTicket}
use sweat_jar.Restake.{
  Request, build_restake, build_restake_all, clean_up_and_deposit, restake, restake_all,
}
use sweat_jar.Restake.Fee.{payout}
use sweat_jar.Keeper.{Keeper}
use sweat_jar.Keeper.Both.{both}
use sweat_jar.Keeper.Restaking.{restake_internal-IsKept}
use sweat_jar.Invariant.{IsContract}
use sweat_jar.Book.{book}
use sweat_jar.Book.Pages.{IsBook, bookkeeper, read-IsPage}
use sweat_jar.Ledger.{principal, share, IsSplit, ledger, own-IsSplit}
use sweat_jar.Ledger.Partitions.{IsListed-all, clean_up_and_deposit-principal}
use sweat_jar.Ledger.Mature.{IsBalanced, build_restake-IsBalanced, build_restake_all-IsBalanced}

module _ (env : Env) (c : Contract) where
  abbrev restaker : Keeper env.now
  restaker = both (bookkeeper (book c) env.now) (ledger (principal c) (share c) env.now)

  restaked-principal :
      (c' : Contract) (r : Request)
      → IsBalanced (book c r.account_id) r
      → r.withdrawal ≡ none
      → IsBook (book c) c' × IsSplit (principal c) (share c) c'
      → Ensures (λ c''. principal c'' ≡ principal c) (clean_up_and_deposit c' r env.now)
  unfolding payout
  restaked-principal c' r (distinct, balanced, _) whole (same, split) =
      weaken (λ c'' sum. omega (arith, sum, split.0, balanced, ap payout whole))
        (clean_up_and_deposit-principal (book c r.account_id) c' r env.now distinct (λ a ha.
          IsListed-all (book c r.account_id) r.partitions a
            (read-IsPage (book c) c' r.account_id same ha)))

  pub restake-principal :
      (from : String) (ticket : DepositTicket) (signature : Option (List ℕ)) (amount : Option ℕ)
      → Ensures (λ r. principal r.0 ≡ principal c) (restake env c from ticket signature amount)
  unfolding restake
  restake-principal from ticket signature amount =
      restake_internal-IsKept env restaker (λ r. IsBalanced (book c r.account_id) r)
        (λ c'. principal c' ≡ principal c) (λ _ h. h.1.0) restaked-principal c ticket signature
        (build_restake env c from ticket amount) (build_restake-IsBalanced env c from ticket amount)
        ((λ _ _. refl), own-IsSplit c)

  pub restake_all-principal :
      (ticket : DepositTicket) (signature : Option (List ℕ)) (amount : Option ℕ)
      → IsContract env.now c
      → Ensures (λ r. principal r.0 ≡ principal c) (restake_all env c ticket signature amount)
  unfolding restake_all
  restake_all-principal ticket signature amount hc =
      restake_internal-IsKept env restaker (λ r. IsBalanced (book c r.account_id) r)
        (λ c'. principal c' ≡ principal c) (λ _ h. h.1.0) restaked-principal c ticket signature
        (build_restake_all env c ticket amount)
        (build_restake_all-IsBalanced env c ticket amount hc) ((λ _ _. refl), own-IsSplit c)
