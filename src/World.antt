-- ===== src/World.antt =====
-- The contract among its calls: the host delivers the public calls and the callbacks of pending
-- token transfers one at a time and in any order (contract/src/feature, the `#[near]` and
-- `#[private]` functions).
use sweat_jar.Base.{
  ℕ, ◌≤◌, ◌≡◌, Bool, Option, none, some, List, [], ◌∷◌, ◌++◌, Result, ok, panic, Panic, ◌>>=◌,
  String, All,
}
use sweat_jar.Base.Ensures.{Ensures}
use sweat_jar.Time.{ℤ}
use sweat_jar.Features.{Feature}
use sweat_jar.Product.{Product}
use sweat_jar.Contract.{Env, Contract, PromiseOrValue, value, promise}
use sweat_jar.Deposits.{DepositTicket}
use sweat_jar.Oracle.{
  unlock_jars_for_account, record_score, apply_booster_batch, set_timezone, set_account_feature,
  batch_set_feature_enabled, set_penalty, batch_set_penalty,
}
use sweat_jar.Claim.{AfterClaim, claim_total, after_claim}
use sweat_jar.Withdraw.{
  AfterWithdraw, AfterBulkWithdraw, withdraw, withdraw_all, after_withdraw, after_bulk_withdraw,
}
use sweat_jar.Restake.{Request, restake, restake_all, after_transfer_remainder}
use sweat_jar.Fees.{withdraw_fee, after_fee_withdrawn}
use sweat_jar.Catalog.{
  register_product, set_enabled, set_product_key, migrate_products, disable_migration,
  enable_migration,
}
use sweat_jar.Migration.{AccountVersioned, read_account}
use sweat_jar.Airdrop.{FtMessage, stake, migrate, drop, ft_on_transfer}
use sweat_jar.Invariant.{IsAccount, IsContract}
use sweat_jar.Invariant.Rollback.{IsRollback}
pub mod Kinds
pub mod Calls
pub mod Sound
pub mod Reach

-- The public calls that change state, with their arguments.
pub data Call : Type 0 where
  ft_on_transfer_call : String → ℕ → FtMessage → Call
  claim_total_call : Option Bool → Call
  withdraw_call : String → Call
  withdraw_all_call : Option (List String) → Call
  restake_call : String → DepositTicket → Option (List ℕ) → Option ℕ → Call
  restake_all_call : DepositTicket → Option (List ℕ) → Option ℕ → Call
  record_score_call : List (String × List (ℕ × ℕ)) → Call
  apply_booster_call : List String → ℕ → ℕ → Call
  set_timezone_call : String → ℤ → Call
  set_feature_enabled_call : String → Feature → Bool → Call
  batch_set_feature_enabled_call : List String → Feature → Bool → Call
  set_penalty_call : String → Bool → Call
  batch_set_penalty_call : List String → Bool → Call
  unlock_jars_for_account_call : String → List String → Call
  withdraw_fee_call : Call
  register_product_call : Product → Call
  set_enabled_call : String → Bool → Call
  set_public_key_call : String → List ℕ → Call
  migrate_products_call : List Product → Call
  disable_migration_call : Call
  enable_migration_call : String → Call

-- The callbacks that wait for the outcome of a transfer.
pub data Callback : Type 0 where
  after_claim_due : AfterClaim → Callback
  after_withdraw_due : AfterWithdraw → Callback
  after_bulk_withdraw_due : AfterBulkWithdraw → Callback
  after_transfer_remainder_due : Request → Callback
  after_fee_withdrawn_due : ℕ → Callback

abbrev pub callbacks_of : {A C : Type 0} → (C → Callback) → PromiseOrValue A C → List Callback
callbacks_of due (value _) = []
callbacks_of due (promise _ call) = due call ∷ []

abbrev alone : Result Contract → Result (Contract × List Callback)
alone m = m >>= λ c. ok (c, [])

-- One call: the new state, and the callback that it leaves pending.
unfoldable pub handle : Env → Contract → Call → Result (Contract × List Callback)
handle env c (ft_on_transfer_call sender amount message) =
    ft_on_transfer env c sender amount message >>= λ r. ok (r.0, [])
handle env c (claim_total_call details) =
    claim_total env c details >>= λ r. ok (r.0, callbacks_of after_claim_due r.1)
handle env c (withdraw_call id) =
    withdraw env c id >>= λ r. ok (r.0, callbacks_of after_withdraw_due r.1)
handle env c (withdraw_all_call ids) =
    withdraw_all env c ids >>= λ r. ok (r.0, callbacks_of after_bulk_withdraw_due r.1)
handle env c (restake_call from ticket signature amount) =
    restake env c from ticket signature amount >>= λ r.
    ok (r.0, callbacks_of after_transfer_remainder_due r.1)
handle env c (restake_all_call ticket signature amount) =
    restake_all env c ticket signature amount >>= λ r.
    ok (r.0, callbacks_of after_transfer_remainder_due r.1)
handle env c (record_score_call batch) = alone (record_score env c batch)
handle env c (apply_booster_call ids score timestamp) =
    apply_booster_batch env c ids score timestamp >>= λ r. ok (r.0, [])
handle env c (set_timezone_call id shift) = alone (set_timezone env c id shift)
handle env c (set_feature_enabled_call id feature enabled) =
    alone (set_account_feature env c id feature enabled)
handle env c (batch_set_feature_enabled_call ids feature enabled) =
    alone (batch_set_feature_enabled env c ids feature enabled)
handle env c (set_penalty_call id applied) = alone (set_penalty env c id applied)
handle env c (batch_set_penalty_call ids applied) = alone (batch_set_penalty env c ids applied)
handle env c (unlock_jars_for_account_call id ids) = alone (unlock_jars_for_account env c id ids)
handle env c withdraw_fee_call =
    withdraw_fee env c >>= λ r. ok (r.0, callbacks_of after_fee_withdrawn_due r.1)
handle env c (register_product_call p) = alone (register_product env c p)
handle env c (set_enabled_call id is_enabled) = alone (set_enabled env c id is_enabled)
handle env c (set_public_key_call id key) = alone (set_product_key env c id key)
handle env c (migrate_products_call ps) = alone (migrate_products env c ps)
handle env c disable_migration_call = alone (disable_migration env c)
handle env c (enable_migration_call id) = alone (enable_migration env c id)

-- One callback, at the time and with the outcome of its transfer.
unfoldable pub resolve : Contract → ℕ → Callback → Bool → Result Contract
resolve c now (after_claim_due call) success = after_claim c call success >>= λ r. ok r.0
resolve c now (after_withdraw_due call) success = after_withdraw c call success >>= λ r. ok r.0
resolve c now (after_bulk_withdraw_due call) success =
    after_bulk_withdraw c call success >>= λ r. ok r.0
resolve c now (after_transfer_remainder_due r) success = after_transfer_remainder c r now success
resolve c now (after_fee_withdrawn_due amount) success =
    after_fee_withdrawn c amount success >>= λ r. ok r.0

-- The stored account of a migration comes from the contract's previous version, which is not part
-- of this repository: what is read of it is taken to be as accounts are.
abbrev IsStored : ℕ → Option AccountVersioned → Type 0
IsStored now none = Unit
IsStored now (some stored) = Ensures (IsAccount now) (read_account stored)

abbrev IsMessage : ℕ → FtMessage → Type 0
IsMessage now (stake _ _ _) = Unit
IsMessage now (migrate _ stored) = IsStored now stored
IsMessage now (drop _) = Unit

abbrev IsCall : ℕ → Call → Type 0
IsCall now (ft_on_transfer_call _ _ message) = IsMessage now message
IsCall now _ = Unit

pub record World : Type 0 where
  pub contract : Contract
  pub now : ℕ
  pub pending : List Callback

-- One event of the host. A call that panics changes nothing, and a callback that panics is lost.
pub data Step : World → World → Type 0 where
  called :
      (w : World) (env : Env) (call : Call) (c : Contract) (due : List Callback)
      → env.now ≡ w.now
      → IsCall env.now call
      → handle env w.contract call ≡ ok (c, due)
      → Step w (record w { contract = c; pending = due ++ w.pending })
  resolved :
      (c c' : Contract) (now : ℕ) (front back : List Callback) (due : Callback) (success : Bool)
      → resolve c now due success ≡ ok c'
      → Step
          (record { contract = c; now = now; pending = front ++ due ∷ back })
          (record { contract = c'; now = now; pending = front ++ back })
  lost :
      (c : Contract) (now : ℕ) (front back : List Callback) (due : Callback) (success : Bool)
      (why : Panic)
      → resolve c now due success ≡ panic why
      → Step
          (record { contract = c; now = now; pending = front ++ due ∷ back })
          (record { contract = c; now = now; pending = front ++ back })
  passed : (w : World) (later : ℕ) → w.now ≤ later → Step w (record w { now = later })

pub data Steps : World → World → Type 0 where
  still : (w : World) → Steps w w
  more : {w w' w'' : World} → Steps w w' → Step w' w'' → Steps w w''
