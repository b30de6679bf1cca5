-- ===== src/Examples/Accounts.antt =====
-- The principal through a run of several calls, and the theorems about it at that run.
use sweat_jar.Base.{
  ℕ, ◌*◌, ◌+◌, ◌<◌, ◌≤◌, ◌≡◌, refl, arith, true, false, Bool, if◌then◌else◌, none, some, List, [],
  ◌∷◌, ok, panic, All, String, Result,
}
use sweat_jar.Base.Dict.{lookup}
use sweat_jar.Contract.{Env, Contract, Transfer, get_account}
use sweat_jar.Withdraw.{AfterWithdraw, withdraw}
use sweat_jar.World.{World, called, resolved, handle, resolve, withdraw_call, after_withdraw_due}
use sweat_jar.Catalog.Own.{IsOwn, entries-IsOwn}
use sweat_jar.Ledger.{principal}
use sweat_jar.Ledger.Calls.{received, handle-principal}
use sweat_jar.Ledger.Callbacks.{resolve-principal}
use sweat_jar.Ledger.Due.{IsDue, paid_out}
use sweat_jar.Pending.Steps.{
  IsBacked, FairSteps, at_rest, further, received_in, paid_in, FairSteps-IsBacked,
  FairSteps-principal,
}
use sweat_jar.Pending.Failures.{IsReleased, FairSteps-undone}
use sweat_jar.Pending.Returns.{IsPayable, FairSteps-resolved}
use sweat_jar.Examples.Data.{env, bank, result_or}
use sweat_jar.Examples.Journeys.{
  bank-IsContract, withdrawn, withdraw_call_back, token_env, top_up, topped_up, in_flight, landed,
  start, withdrawn-IsContract, she_withdraws, she_deposits,
}

-- Alice's transfer arrives.
abbrev settled : World
settled = record {
  contract =
      result_or landed.contract
        (resolve landed.contract landed.now (after_withdraw_due withdraw_call_back) true);
  now = landed.now;
  pending = [];
}

she_is_paid :
    resolve landed.contract landed.now (after_withdraw_due withdraw_call_back) true
    ≡ ok settled.contract
unfolding get_account handle lookup sweat_jar.Account.deposit sweat_jar.Account.get_jar
    sweat_jar.Airdrop.ft_on_transfer sweat_jar.Base.Dict.insert sweat_jar.Base.add_u128
    sweat_jar.Base.add_u32 sweat_jar.Base.add_u64 sweat_jar.Base.sub_checked
    sweat_jar.Contract.assert_from_ft_contract sweat_jar.Contract.get_or_create_account
    sweat_jar.Contract.update_jar_cache sweat_jar.Decimal.pow10 sweat_jar.Deposits.deposit
    sweat_jar.Interest.get_interest sweat_jar.Interest.get_jar_interest
    sweat_jar.Jar.get_liquid_balance sweat_jar.Jar.try_lock
    sweat_jar.Product.allows_early_withdrawal sweat_jar.Product.assert_cap
    sweat_jar.Product.assert_enabled sweat_jar.Product.calculate_fee
    sweat_jar.Product.is_score_based withdraw resolve sweat_jar.Withdraw.after_withdraw
    sweat_jar.Jar.unlock sweat_jar.Jar.clean_up_deposits
she_is_paid = refl

payable : IsPayable landed.contract (after_withdraw_due withdraw_call_back)
unfolding get_account handle lookup sweat_jar.Account.deposit sweat_jar.Account.get_jar
    sweat_jar.Airdrop.ft_on_transfer sweat_jar.Base.Dict.insert sweat_jar.Base.add_u128
    sweat_jar.Base.add_u32 sweat_jar.Base.add_u64 sweat_jar.Base.sub_checked
    sweat_jar.Contract.assert_from_ft_contract sweat_jar.Contract.get_or_create_account
    sweat_jar.Contract.update_jar_cache sweat_jar.Decimal.pow10 sweat_jar.Deposits.deposit
    sweat_jar.Interest.get_interest sweat_jar.Interest.get_jar_interest
    sweat_jar.Jar.get_liquid_balance sweat_jar.Jar.try_lock
    sweat_jar.Product.allows_early_withdrawal sweat_jar.Product.assert_cap
    sweat_jar.Product.assert_enabled sweat_jar.Product.calculate_fee
    sweat_jar.Product.is_score_based withdraw
payable = (omega arith, omega arith)

bank-IsOwn : IsOwn bank
bank-IsOwn = entries-IsOwn bank (refl, (refl, (refl, tt)))

-- She withdraws, deposits while the transfer is on its way, and is paid.
abbrev run_in_flight : FairSteps start landed
run_in_flight =
    further
      (further (at_rest start)
        (called start env (withdraw_call "flex") withdrawn.0
          (after_withdraw_due withdraw_call_back ∷ []) refl tt she_withdraws)
        ((λ id. tt), tt))
      (called in_flight token_env top_up topped_up.0 [] refl tt she_deposits) ((λ id. tt), tt)

abbrev run : FairSteps start settled
run =
    further run_in_flight
      (resolved landed.contract settled.contract landed.now [] []
        (after_withdraw_due withdraw_call_back) true she_is_paid)
      tt

FairSteps-principal_example :
    principal settled.contract + paid_in run ≡ principal bank + received_in run
FairSteps-principal_example = FairSteps-principal run (bank-IsContract, tt) (tt, tt, bank-IsOwn)

FairSteps-IsBacked_example : IsBacked landed
FairSteps-IsBacked_example =
    FairSteps-IsBacked run_in_flight (bank-IsContract, tt) (tt, tt, bank-IsOwn)

FairSteps-undone_example :
    (c' : Contract) × (resolve landed.contract landed.now
        (after_withdraw_due withdraw_call_back)
        false
      ≡ ok c')
    × IsReleased c' (after_withdraw_due withdraw_call_back)
FairSteps-undone_example =
    FairSteps-undone [] [] (after_withdraw_due withdraw_call_back) run_in_flight
      (bank-IsContract, tt) (tt, tt, bank-IsOwn) refl tt

FairSteps-resolved_example :
    (c' : Contract) × (resolve landed.contract landed.now
        (after_withdraw_due withdraw_call_back)
        true
      ≡ ok c')
FairSteps-resolved_example =
    FairSteps-resolved [] [] (after_withdraw_due withdraw_call_back) run_in_flight
      (bank-IsContract, tt) (tt, tt, bank-IsOwn) refl payable

handle-principal_example : principal topped_up.0 ≡ principal withdrawn.0 + received top_up
handle-principal_example =
    handle-principal token_env withdrawn.0 top_up {c' = topped_up.0} {due = []} withdrawn-IsContract
      she_deposits

abbrev paid : Contract
paid =
    result_or withdrawn.0 (resolve withdrawn.0 env.now (after_withdraw_due withdraw_call_back) true)

resolve-principal_example :
    principal paid + (if true then paid_out (after_withdraw_due withdraw_call_back) else 0)
    ≡ principal withdrawn.0
unfolding get_account lookup resolve sweat_jar.Account.get_jar sweat_jar.Base.Dict.insert
    sweat_jar.Base.add_u128 sweat_jar.Base.add_u64 sweat_jar.Base.sub_checked sweat_jar.Book.book
    sweat_jar.Contract.update_jar_cache sweat_jar.Decimal.pow10 sweat_jar.Interest.get_interest
    sweat_jar.Interest.get_jar_interest sweat_jar.Jar.Liquid.principal_sum
    sweat_jar.Jar.clean_up_deposits sweat_jar.Jar.get_liquid_balance sweat_jar.Jar.try_lock
    sweat_jar.Jar.unlock sweat_jar.Ledger.Due.counted_of sweat_jar.Ledger.Partitions.covered
    sweat_jar.Product.allows_early_withdrawal sweat_jar.Product.calculate_fee
    sweat_jar.Withdraw.after_withdraw withdraw
resolve-principal_example =
    resolve-principal env.now withdrawn.0 (after_withdraw_due withdraw_call_back) true {c' = paid}
      withdrawn-IsContract ((tt, tt), refl, tt) refl
