-- ===== src/Examples/Catalogue.antt =====
-- Examples of the theorems on the catalogue, on scores of accounts, and on restakes and airdrops.
use sweat_jar.Base.{
  ℕ, ◌+◌, ◌*◌, ◌≤◌, ◌<◌, ◌≡◌, ◌⊎◌, refl, true, false, not, none, some, List, [], ◌∷◌, Result, ok,
  String, arith, length,
}
use sweat_jar.Time.{ms_in_day}
use sweat_jar.Features.{increased_apy}
use sweat_jar.Score.{default_score, get_last_finalized_record, days_since_last_update}
use sweat_jar.Account.{Account}
use sweat_jar.Contract.{Env, Contract, get_account, put_account, oracle}
use sweat_jar.Settle.{settle_interest, update_account_cache}
use sweat_jar.Settle.Scores.{IsAged, settle_interest-scores, settle_interest_twice}
use sweat_jar.Oracle.{switch_feature, set_penalty, is_penalty_applied}
use sweat_jar.Oracle.Flags.{set_penalty-is_penalty_applied}
use sweat_jar.Catalog.{register_product, set_enabled}
use sweat_jar.Catalog.Listed.{
  IsListed, registers, switches, no_step, and_step, CatalogSteps-IsListed,
}
use sweat_jar.Restake.{fee_of_withdrawal, Request, Mature, build_restake_all, mature_jars}
use sweat_jar.Restake.Fee.{payout, build_restake_all_splits}
use sweat_jar.Airdrop.{AirdropStakeMessage, drop, ft_on_transfer}
use sweat_jar.Book.{book}
use sweat_jar.Book.Airdrops.{credited_all}
use sweat_jar.Airdrop.Laws.{ft_on_transfer-airdrop}
use sweat_jar.Examples.Data.{env, bank, alice, flex, ticket, result_or}

abbrev no_bank : Contract
no_bank = record bank { products = [] }

abbrev one_bank : Contract
one_bank = result_or bank (register_product env no_bank flex)

abbrev two_bank : Contract
two_bank = result_or bank (set_enabled env one_bank "flex" false)

CatalogSteps-IsListed_example : IsListed env.below_one two_bank
unfolding register_product set_enabled sweat_jar.Base.Dict.contains sweat_jar.Base.Dict.insert
    sweat_jar.Contract.assert_one_yocto sweat_jar.Contract.assert_role
    sweat_jar.Contract.get_product sweat_jar.Product.assert_cap_order
    sweat_jar.Product.assert_fee_amount sweat_jar.Product.assert_score_based_product_is_protected
    sweat_jar.Product.assert_udecimal_exponents_in_range
CatalogSteps-IsListed_example =
    CatalogSteps-IsListed env.below_one
      (and_step {c' = one_bank}
        (and_step {c = no_bank} no_step
          (registers {c = no_bank} {c' = one_bank} env flex refl refl))
        (switches {c = one_bank} {c' = two_bank} env "flex" false refl))
      tt

abbrev settled_once : Contract
settled_once = result_or bank (settle_interest bank "alice.near" (40 * ms_in_day))

abbrev settled_twice : Contract
settled_twice = result_or bank (settle_interest settled_once "alice.near" (40 * ms_in_day + 5))

settle_interest-scores_example :
    (b : Account) × (get_account settled_once "alice.near" ≡ ok b) × IsAged alice 1 1 b
unfolding days_since_last_update get_account settle_interest sweat_jar.Base.Dict.lookup
    sweat_jar.Base.sub_checked sweat_jar.Contract.get_products_for_account
    sweat_jar.Product.is_score_based sweat_jar.Time.is_valid
settle_interest-scores_example =
    settle_interest-scores bank "alice.near" (40 * ms_in_day) 1 1 {a = alice} {c1 = settled_once}
      (omega arith) refl refl refl refl

settle_interest_twice_example :
    (b : Account) × (get_account settled_twice "alice.near" ≡ ok b)
    × (b.score.history0 ≡ default_score)
    × (b.score.history1 ≡ default_score)
    × (get_last_finalized_record b.score b.timezone (40 * ms_in_day + 5) ≡ ok default_score)
unfolding days_since_last_update get_account put_account settle_interest sweat_jar.Base.Dict.insert
    sweat_jar.Base.Dict.lookup sweat_jar.Base.sub_checked
    sweat_jar.Contract.get_products_for_account sweat_jar.Product.is_score_based
    sweat_jar.Score.shift sweat_jar.Time.is_valid
settle_interest_twice_example =
    settle_interest_twice bank "alice.near" (40 * ms_in_day) (40 * ms_in_day + 5) {a = alice}
      {c1 = settled_once} {c2 = settled_twice} refl refl refl refl refl refl

abbrev cached_bank : Contract
cached_bank = result_or bank (update_account_cache bank "alice.near" env.now)

abbrev cached_alice : Account
cached_alice = result_or alice (get_account cached_bank "alice.near")

abbrev penalised : Contract
penalised = result_or bank (set_penalty env bank "alice.near" true)

set_penalty-is_penalty_applied_example :
    (penalised
      ≡ put_account cached_bank "alice.near" (switch_feature cached_alice increased_apy (not true)))
    × (is_penalty_applied penalised "alice.near" ≡ ok true)
unfolding days_since_last_update get_account put_account set_penalty sweat_jar.Base.Dict.insert
    sweat_jar.Base.Dict.lookup sweat_jar.Base.add_u128 sweat_jar.Base.add_u64
    sweat_jar.Base.sub_checked sweat_jar.Contract.assert_role sweat_jar.Contract.cache_jar
    sweat_jar.Contract.get_products_for_account sweat_jar.Decimal.pow10
    sweat_jar.Interest.get_interest sweat_jar.Interest.get_jar_interest
    sweat_jar.Product.is_score_based sweat_jar.Time.is_valid update_account_cache
set_penalty-is_penalty_applied_example =
    set_penalty-is_penalty_applied env bank "alice.near" true {out = penalised} {c1 = cached_bank}
      {a = cached_alice} refl refl (omega arith) refl

abbrev no_request : Request
no_request = record {
  account_id = "";
  withdrawal = none;
  deposit = record { product_id = ""; amount = 0 };
  partitions = [];
}

abbrev restake : Request
restake = result_or no_request (build_restake_all env bank ticket (some 100000))

build_restake_all_splits_example :
    (a : Account) × (m : Mature) × (get_account bank env.predecessor ≡ ok a)
    × (mature_jars env bank (record { balance = 0; fee = 0; indices = [] }) a.jars ≡ ok m)
    × (payout restake.withdrawal + restake.deposit.amount ≡ m.balance)
    × (fee_of_withdrawal restake.withdrawal ≤ m.fee)
    × ((m.balance < m.fee) ⊎ (fee_of_withdrawal restake.withdrawal ≤ payout restake.withdrawal))
    × (restake.partitions ≡ m.indices)
unfolding build_restake_all get_account sweat_jar.Base.Dict.lookup sweat_jar.Base.add_u128
    sweat_jar.Base.mul_u128 sweat_jar.Base.sub_checked sweat_jar.Contract.get_product
    sweat_jar.Decimal.mul sweat_jar.Decimal.pow10 sweat_jar.Jar.get_liquid_balance
    sweat_jar.Product.allows_early_withdrawal sweat_jar.Product.calculate_fee
    sweat_jar.Product.is_liquid
build_restake_all_splits_example =
    build_restake_all_splits env bank ticket (some 100000) {r = restake} refl

abbrev token_env : Env
token_env = record env { predecessor = "token.near" }

abbrev drop_message : AirdropStakeMessage
drop_message = record {
  ticket = ticket;
  signature = none;
  receivers = "alice.near" ∷ "bob.near" ∷ [];
  booster = none;
  booster_timestamp = none;
}

abbrev dropped : Contract
dropped =
    (result_or (bank, 1) (ft_on_transfer token_env bank "oracle.near" 1000 (drop drop_message))).0

ft_on_transfer-airdrop_example :
    (◌≡◌ {A = ℕ} 0 0)
    × (token_env.has_role oracle "oracle.near" ≡ true)
    × ((share : ℕ) × (share * length drop_message.receivers ≡ 1000)
        × ((id product_id : String)
            → book dropped id product_id
              ≡ credited_all
                  (book bank)
                  drop_message.receivers
                  drop_message.ticket.product_id
                  (record { created_at = token_env.now; principal = share })
                  id
                  product_id))
unfolding ft_on_transfer get_account put_account sweat_jar.Account.deposit
    sweat_jar.Base.Dict.insert sweat_jar.Base.Dict.lookup sweat_jar.Base.add_u128
    sweat_jar.Base.add_u64 sweat_jar.Base.sub_checked sweat_jar.Contract.assert_from_ft_contract
    sweat_jar.Contract.cache_jar sweat_jar.Contract.get_or_create_account
    sweat_jar.Contract.get_product sweat_jar.Decimal.pow10 sweat_jar.Deposits.timezone_for
    sweat_jar.Deposits.verify_airdrop sweat_jar.Interest.get_interest
    sweat_jar.Interest.get_jar_interest sweat_jar.Product.assert_cap
    sweat_jar.Product.assert_enabled sweat_jar.Product.is_score_based
ft_on_transfer-airdrop_example =
    ft_on_transfer-airdrop token_env bank "oracle.near" 1000 drop_message {out = dropped}
      {returned = 0} refl
