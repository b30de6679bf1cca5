-- ===== src/Airdrop.antt =====
-- Airdrops and the entry point of token transfers (contract/src/feature/airdrop/api.rs,
-- feature/ft_receiver.rs).
use sweat_jar.Base.{
  ℕ, ◌+◌, ◌/◌, ◌%◌, Bool, true, false, ltb, ◌==◌, if◌then◌else◌, Option, none, some, List, [], ◌∷◌,
  ◌++◌, length, Result, ok, panic, ◌>>=◌, ◌>>◌, require, not_permitted, receivers_empty,
  amount_not_divisible, String,
}
use sweat_jar.Time.{is_valid, adjust, day, today, days_offset, assert_not_future}
use sweat_jar.Score.{apply_booster}
use sweat_jar.Product.{Product, assert_enabled, assert_cap}
use sweat_jar.Account.{Account}
use sweat_jar.Account
use sweat_jar.Contract.{
  Env, Contract, oracle, get_account, put_account, get_or_create_account, get_product, cache_jar,
  assert_from_ft_contract,
}
use sweat_jar.Settle.{settle_interest}
use sweat_jar.Oracle.{BoosterData, note_booster}
use sweat_jar.Deposits.{DepositTicket, verify_airdrop, timezone_for, deposit}
use sweat_jar.Migration.{AccountVersioned, migrate_account}
pub mod Laws

-- `prepare_account_for_airdrop`
unfoldable pub prepare_account_for_airdrop :
    Contract → ℕ → String → DepositTicket → Product → Result Contract
prepare_account_for_airdrop c now id ticket p = do
  a ← timezone_for (get_or_create_account c id now) p ticket.timezone
  ok (put_account c id a)

-- `settle_interest_before_booster`
unfoldable pub settle_interest_before_booster : Contract → ℕ → String → ℕ → Result Contract
settle_interest_before_booster c now id booster =
    if ltb 0 booster then settle_interest c id now else ok c

-- `create_airdrop_deposit`
unfoldable pub create_airdrop_deposit :
    Contract → ℕ → String → DepositTicket → ℕ → Product → Result Contract
create_airdrop_deposit c now id ticket amount p = do
  a ← get_account c id
  a' ← cache_jar (Account.deposit a ticket.product_id amount now) p now
  ok (put_account c id a')

unfoldable pub booster_days_ago : Account → ℕ → Option ℕ → Result ℕ
booster_days_ago a now none = ok 0
booster_days_ago a now (some timestamp) = do
  assert_not_future a.timezone now timestamp
  local ← adjust a.timezone timestamp
  t ← today a.timezone now
  days_offset t (day local)

-- The part of `apply_airdrop_booster` for a booster that is not 0.
unfoldable pub place_airdrop_booster :
    Contract → ℕ → String → ℕ → Option ℕ → BoosterData → Result (Contract × BoosterData)
unfolding booster_days_ago
place_airdrop_booster c now id booster timestamp noted = do
  a ← get_account c id
  if is_valid a.timezone
      then (booster_days_ago a now timestamp >>= λ days_ago.
          apply_booster a.score now days_ago booster >>= λ r.
          ok (put_account c id (record a { score = r.0 }), note_booster noted id r.1))
      else ok (c, note_booster noted id false)

-- `apply_airdrop_booster`
unfoldable pub apply_airdrop_booster :
    Contract → ℕ → String → ℕ → Option ℕ → BoosterData → Result (Contract × BoosterData)
unfolding place_airdrop_booster
apply_airdrop_booster c now id booster timestamp noted =
    if booster == 0 then ok (c, noted) else place_airdrop_booster c now id booster timestamp noted

unfoldable pub airdrop_one :
    Contract
    → ℕ
    → String
    → DepositTicket
    → ℕ
    → Product
    → ℕ
    → Option ℕ
    → BoosterData
    → Result (Contract × BoosterData)
unfolding prepare_account_for_airdrop settle_interest_before_booster create_airdrop_deposit
    apply_airdrop_booster
airdrop_one c now id ticket amount p booster timestamp noted = do
  c1 ← prepare_account_for_airdrop c now id ticket p
  c2 ← settle_interest_before_booster c1 now id booster
  c3 ← create_airdrop_deposit c2 now id ticket amount p
  apply_airdrop_booster c3 now id booster timestamp noted

unfoldable pub airdrop_each :
    Contract
    → ℕ
    → List String
    → DepositTicket
    → ℕ
    → Product
    → ℕ
    → Option ℕ
    → BoosterData
    → Result (Contract × BoosterData)
unfolding airdrop_one
airdrop_each c now [] ticket amount p booster timestamp noted = ok (c, noted)
airdrop_each c now (id ∷ ids) ticket amount p booster timestamp noted = do
  r ← airdrop_one c now id ticket amount p booster timestamp noted
  airdrop_each r.0 now ids ticket amount p booster timestamp r.1

-- `Contract::airdrop`
unfoldable pub airdrop :
    Env
    → Contract
    → DepositTicket
    → ℕ
    → List String
    → Option (List ℕ)
    → ℕ
    → Option ℕ
    → Result (Contract × BoosterData)
unfolding airdrop_each
airdrop env c ticket amount receivers signature booster timestamp = do
  p ← get_product c ticket.product_id
  assert_enabled p
  assert_cap p amount
  verify_airdrop env c ticket amount receivers signature
  airdrop_each c env.now receivers ticket amount p booster timestamp
      (record { applied = []; rejected = [] })

-- `AirdropStakeMessage`
pub record AirdropStakeMessage : Type 0 where
  pub ticket : DepositTicket
  pub signature : Option (List ℕ)
  pub receivers : List String
  pub booster : Option ℕ
  pub booster_timestamp : Option ℕ

-- `FtMessage`, as it is parsed: a stake, a migrated account, or an airdrop.
pub data FtMessage : Type 0 where
  stake : DepositTicket → Option (List ℕ) → Option String → FtMessage
  migrate : String → Option AccountVersioned → FtMessage
  drop : AirdropStakeMessage → FtMessage

unfoldable pub or_else {ℓ} : {A : Type ℓ} → Option A → A → A
or_else none d = d
or_else (some a) d = a

-- The third branch of `ft_on_transfer`.
unfoldable pub receive_airdrop : Env → Contract → String → ℕ → AirdropStakeMessage → Result Contract
unfolding airdrop or_else
receive_airdrop env c sender amount m = do
  require (env.has_role oracle sender) not_permitted
  require (ltb 0 (length m.receivers)) receivers_empty
  require (amount % length m.receivers == 0) amount_not_divisible
  r ←
      airdrop env c m.ticket (amount / length m.receivers) m.receivers m.signature
        (or_else m.booster 0) m.booster_timestamp
  ok r.0

unfoldable pub receive : Env → Contract → String → ℕ → FtMessage → Result Contract
unfolding or_else receive_airdrop
receive env c sender amount (stake ticket signature receiver) =
    deposit env c (or_else receiver sender) ticket amount signature
receive env c sender amount (migrate id stored) = migrate_account c sender amount id stored
receive env c sender amount (drop m) = receive_airdrop env c sender amount m

-- `ft_on_transfer`: nothing is returned to the sender.
unfoldable pub ft_on_transfer : Env → Contract → String → ℕ → FtMessage → Result (Contract × ℕ)
unfolding receive
ft_on_transfer env c sender amount message = do
  assert_from_ft_contract env c
  c' ← receive env c sender amount message
  ok (c', 0)
