-- ===== src/Examples/Journeys.antt =====
-- Runs of several calls, and the theorems about them at these runs.
use sweat_jar.Base.{
  ℕ, ◌*◌, ◌+◌, ◌<◌, ◌≤◌, ◌≡◌, refl, arith, true, false, none, some, List, [], ◌∷◌, ok, panic, All,
  String, take, drop, Result,
}
use sweat_jar.Base.Dict.{lookup}
use sweat_jar.Time.{ms_in_day}
use sweat_jar.Jar.{Jar, Deposit, partition_point}
use sweat_jar.Product.{get_lockup_term}
use sweat_jar.Account.{get_jar, get_total_principal}
use sweat_jar.Contract.{
  Env, Contract, PromiseOrValue, value, promise, Transfer, Role, oracle, get_account,
}
use sweat_jar.Withdraw.{AfterWithdraw, WithdrawView, withdraw}
use sweat_jar.Airdrop.{stake}
use sweat_jar.World.{
  World, Call, Callback, called, passed, still, more, handle, ft_on_transfer_call, withdraw_call,
  after_withdraw_due, after_fee_withdrawn_due,
}
use sweat_jar.World.Reach.{IsWorld, Steps-IsWorld, partition_point-reachable}
use sweat_jar.Invariant.{IsContract}
use sweat_jar.Held.{IsHeld}
use sweat_jar.Held.Calls.{handle-IsHeld}
use sweat_jar.Held.Transfers.{no_step, one_more, IsSettled, withdraw-settles}
use sweat_jar.Book.{book, entered}
use sweat_jar.Book.Refine.{handle-refines}
use sweat_jar.Examples.Data.{env, bank, alice, year, year_jar, ticket, result_or}

pub bank-IsContract : IsContract env.now bank
unfolding lookup
bank-IsContract = (
  (refl, tt),
  (
    (
      (refl, (refl, tt)),
      (
        (((tt, tt), (omega arith, tt)), omega arith),
        (((((omega arith, tt), (tt, tt)), (omega arith, (omega arith, tt))), omega arith), tt),
      ),
      omega arith,
      omega arith,
    ),
    tt,
  ),
)

-- Alice withdraws, and while her transfer is on its way she deposits into the same jar.
abbrev pub withdrawn : Contract × PromiseOrValue WithdrawView AfterWithdraw
withdrawn =
    result_or (bank, value (record { product_id = ""; withdrawn_amount = 0; fee = 0 }))
      (withdraw env bank "flex")

abbrev withdraw_transfer : Transfer
withdraw_transfer = record { receiver_id = "alice.near"; amount = 99990 }

abbrev pub withdraw_call_back : AfterWithdraw
withdraw_call_back = record {
  account_id = "alice.near";
  request = record {
    product_id = "flex";
    withdrawal = record { amount = 100000; fee = 10 };
    partition_index = 1;
  };
}

abbrev pub token_env : Env
token_env = record env { predecessor = "token.near" }

abbrev pub top_up : Call
top_up = ft_on_transfer_call "alice.near" 5000 (stake ticket none none)

abbrev no_callbacks : List Callback
no_callbacks = []

abbrev pub topped_up : Contract × List Callback
topped_up = result_or (withdrawn.0, no_callbacks) (handle token_env withdrawn.0 top_up)

abbrev pub in_flight : World
in_flight = record {
  contract = withdrawn.0;
  now = env.now;
  pending = after_withdraw_due withdraw_call_back ∷ [];
}

abbrev pub landed : World
landed = record in_flight { contract = topped_up.0 }

-- She withdraws, and deposits while the transfer is on its way.
pub she_withdraws :
    handle env bank (withdraw_call "flex")
    ≡ ok (withdrawn.0, after_withdraw_due withdraw_call_back ∷ [])
unfolding get_account handle lookup sweat_jar.Account.deposit sweat_jar.Account.get_jar
    sweat_jar.Airdrop.ft_on_transfer sweat_jar.Base.Dict.insert sweat_jar.Base.add_u128
    sweat_jar.Base.add_u32 sweat_jar.Base.add_u64 sweat_jar.Base.sub_checked
    sweat_jar.Contract.assert_from_ft_contract sweat_jar.Contract.get_or_create_account
    sweat_jar.Contract.update_jar_cache sweat_jar.Decimal.pow10 sweat_jar.Deposits.deposit
    sweat_jar.Interest.get_interest sweat_jar.Interest.get_jar_interest
    sweat_jar.Jar.get_liquid_balance sweat_jar.Jar.try_lock
    sweat_jar.Product.allows_early_withdrawal sweat_jar.Product.assert_cap
    sweat_jar.Product.assert_enabled sweat_jar.Product.calculate_fee
    sweat_jar.Product.is_score_based withdraw
she_withdraws = refl

pub she_deposits : handle token_env withdrawn.0 top_up ≡ ok (topped_up.0, [])
unfolding get_account handle lookup sweat_jar.Account.deposit sweat_jar.Account.get_jar
    sweat_jar.Airdrop.ft_on_transfer sweat_jar.Base.Dict.insert sweat_jar.Base.add_u128
    sweat_jar.Base.add_u32 sweat_jar.Base.add_u64 sweat_jar.Base.sub_checked
    sweat_jar.Contract.assert_from_ft_contract sweat_jar.Contract.get_or_create_account
    sweat_jar.Contract.update_jar_cache sweat_jar.Decimal.pow10 sweat_jar.Deposits.deposit
    sweat_jar.Interest.get_interest sweat_jar.Interest.get_jar_interest
    sweat_jar.Jar.get_liquid_balance sweat_jar.Jar.try_lock
    sweat_jar.Product.allows_early_withdrawal sweat_jar.Product.assert_cap
    sweat_jar.Product.assert_enabled sweat_jar.Product.calculate_fee
    sweat_jar.Product.is_score_based withdraw
she_deposits = refl

-- A withdrawal of fees was pending before.
abbrev busy : World
busy = record in_flight {
  pending = after_withdraw_due withdraw_call_back ∷ after_fee_withdrawn_due 5 ∷ [];
}

withdraw-settles_example : IsSettled landed.contract withdraw_transfer withdraw_call_back
unfolding get_account get_jar handle lookup sweat_jar.Account.deposit
    sweat_jar.Airdrop.ft_on_transfer sweat_jar.Base.Dict.insert sweat_jar.Base.add_u128
    sweat_jar.Base.add_u32 sweat_jar.Base.add_u64 sweat_jar.Base.sub_checked
    sweat_jar.Contract.assert_from_ft_contract sweat_jar.Contract.get_or_create_account
    sweat_jar.Contract.update_jar_cache sweat_jar.Decimal.pow10 sweat_jar.Deposits.deposit
    sweat_jar.Interest.get_interest sweat_jar.Interest.get_jar_interest
    sweat_jar.Jar.get_liquid_balance sweat_jar.Jar.try_lock
    sweat_jar.Product.allows_early_withdrawal sweat_jar.Product.assert_cap
    sweat_jar.Product.assert_enabled sweat_jar.Product.calculate_fee
    sweat_jar.Product.is_score_based withdraw
withdraw-settles_example =
    withdraw-settles env bank withdrawn.0 "flex" withdraw_transfer withdraw_call_back
      (after_fee_withdrawn_due 5 ∷ []) {w = record busy { contract = topped_up.0 }}
      (bank-IsContract, (tt, tt)) refl
      (one_more (no_step busy) (called busy token_env top_up topped_up.0 [] refl tt she_deposits)
        tt)
      (ground arith)

handle-refines_example :
    book topped_up.0 "alice.near" "flex"
    ≡ entered token_env top_up (book withdrawn.0) "alice.near" "flex"
handle-refines_example =
    handle-refines token_env withdrawn.0 top_up "alice.near" "flex" {c' = topped_up.0} {due = []} tt
      she_deposits

-- A day passes in the bank.
abbrev pub start : World
start = record { contract = bank; now = env.now; pending = [] }

abbrev day_later : World
day_later = record start { now = 41 * ms_in_day }

pub withdrawn-IsContract : IsContract env.now withdrawn.0
withdrawn-IsContract =
    (Steps-IsWorld
      (more (still start) (
        called start env (withdraw_call "flex") withdrawn.0
          (after_withdraw_due withdraw_call_back ∷ []) refl tt she_withdraws))
      (bank-IsContract, tt)).0

abbrev flex_deposits : List Deposit
flex_deposits = record { created_at = 10 * ms_in_day; principal = 100000 } ∷ []

handle-IsHeld_example : IsHeld "alice.near" "flex" flex_deposits topped_up.0
unfolding get_account get_jar handle lookup sweat_jar.Account.deposit
    sweat_jar.Airdrop.ft_on_transfer sweat_jar.Base.Dict.insert sweat_jar.Base.add_u128
    sweat_jar.Base.add_u32 sweat_jar.Base.add_u64 sweat_jar.Base.sub_checked
    sweat_jar.Contract.assert_from_ft_contract sweat_jar.Contract.get_or_create_account
    sweat_jar.Contract.update_jar_cache sweat_jar.Decimal.pow10 sweat_jar.Deposits.deposit
    sweat_jar.Interest.get_interest sweat_jar.Interest.get_jar_interest
    sweat_jar.Jar.get_liquid_balance sweat_jar.Jar.try_lock
    sweat_jar.Product.allows_early_withdrawal sweat_jar.Product.assert_cap
    sweat_jar.Product.assert_enabled sweat_jar.Product.calculate_fee
    sweat_jar.Product.is_score_based withdraw
handle-IsHeld_example =
    handle-IsHeld token_env withdrawn.0 top_up "alice.near" "flex" flex_deposits {c' = topped_up.0}
      {due = []} withdrawn-IsContract tt
      (
        result_or alice (get_account withdrawn.0 "alice.near"),
        refl,
        (
          result_or year_jar
              (get_jar (result_or alice (get_account withdrawn.0 "alice.near")) "flex"),
          refl,
          (refl, ([], refl)),
        ),
      )
      she_deposits

Steps-IsWorld_example : IsWorld (record in_flight { now = 41 * ms_in_day })
Steps-IsWorld_example =
    Steps-IsWorld
      (more
        (more (still start) (
          called start env (withdraw_call "flex") withdrawn.0
            (after_withdraw_due withdraw_call_back ∷ []) refl tt she_withdraws))
        (passed in_flight (41 * ms_in_day) (omega arith)))
      (bank-IsContract, tt)

partition_point-reachable_example :
    (n : ℕ) × (partition_point year.terms day_later.now year_jar.deposits ≡ ok n)
    × All (λ d. d.created_at + 30 * ms_in_day < day_later.now) (take n year_jar.deposits)
    × All (λ d. day_later.now ≤ d.created_at + 30 * ms_in_day) (drop n year_jar.deposits)
unfolding get_account lookup get_lockup_term
partition_point-reachable_example =
    partition_point-reachable {w = start} {w' = day_later} "alice.near" "year" alice year_jar
      year.terms (30 * ms_in_day) (more (still start) (passed start (41 * ms_in_day) (omega arith)))
      (bank-IsContract, tt) refl refl refl
