-- ===== src/Pending/Calls.antt =====
-- What a call leaves pending, whichever call it is (model/src/api.rs).
use sweat_jar.Base.{refl, List, [], ◌∷◌, Result, ok, ◌>>=◌, String}
use sweat_jar.Base.Ensures.{Ensures, returns, after, given}
use sweat_jar.Contract.{assert_role, fee_manager, Env, Contract, PromiseOrValue, value, promise}
use sweat_jar.Fees.{withdraw_fee}
use sweat_jar.Invariant.{IsContract}
use sweat_jar.World.{
  Call, Callback, handle, callbacks_of, after_claim_due, after_withdraw_due,
  after_bulk_withdraw_due, after_transfer_remainder_due, after_fee_withdrawn_due,
  ft_on_transfer_call, claim_total_call, withdraw_call, withdraw_all_call, restake_call,
  restake_all_call, record_score_call, apply_booster_call, set_timezone_call,
  set_feature_enabled_call, batch_set_feature_enabled_call, set_penalty_call,
  batch_set_penalty_call, unlock_jars_for_account_call, withdraw_fee_call, register_product_call,
  set_enabled_call, set_public_key_call, migrate_products_call, disable_migration_call,
  enable_migration_call,
}
use sweat_jar.Held.Calls.{Spares}
use sweat_jar.Ledger.Due.{counted_of}
use sweat_jar.Pending.{IsNewCallback, IsNewPromise}
use sweat_jar.Pending.Withdrawals.{withdraw-IsNew}
use sweat_jar.Pending.Bulk.{withdraw_all-IsNew}
use sweat_jar.Catalog.Own.{IsOwn}
use sweat_jar.Pending.Catalogue.{IsUniqueList}
use sweat_jar.Pending.Claims.{claim_total-IsNew}
use sweat_jar.Pending.Restakes.{restake-IsNew, restake_all-IsNew}

-- The list of a withdrawal of several products is a set.
abbrev IsBulkCall : Call → Type 0
IsBulkCall (withdraw_all_call ids) = IsUniqueList ids
IsBulkCall _ = Unit

-- No jar is unlocked by the maintainer's hand, and a list that the source types as a `HashSet` has no product
-- twice.
abbrev pub IsFair : Call → Type 0
IsFair call = ((id : String) → Spares id call) × IsBulkCall call

-- At most one callback, and that a new one.
abbrev pub IsNew : Contract → Contract × List Callback → Type 0
IsNew c (c', []) = Unit
IsNew c (c', due ∷ []) = IsNewCallback c c' due
IsNew c (c', _ ∷ _ ∷ _) = ⊥

no_due :
    {A : Type 0} (c : Contract) (m : Result A) (f : A → Contract)
    → Ensures (IsNew c) (m >>= λ r. ok (f r, []))
no_due c m f = after m _ λ r _. returns _ tt

of_promise :
    {A C : Type 0} (due : C → Callback) (c : Contract) (r : Contract × PromiseOrValue A C)
    → IsNewPromise due c r
    → IsNew c (r.0, callbacks_of due r.1)
of_promise due c (c', value _) new = tt
of_promise due c (c', promise _ call) new = new

one_due :
    {A C : Type 0} (due : C → Callback) (c : Contract) {m : Result (Contract × PromiseOrValue A C)}
    → Ensures (IsNewPromise due c) m
    → Ensures (IsNew c) (m >>= λ r. ok (r.0, callbacks_of due r.1))
one_due due c h = given _ h λ r new. returns _ (of_promise due c r new)

withdraw_fee-IsNew :
    (env : Env) (c : Contract)
    → Ensures (IsNewPromise after_fee_withdrawn_due c) (withdraw_fee env c)
unfolding withdraw_fee counted_of
withdraw_fee-IsNew env c =
    after (assert_role env fee_manager) _ λ _ _. returns _ ((tt, refl), λ id p front held same. tt)

pub handle-IsNew :
    (env : Env) (c : Contract)
    → IsContract env.now c
    → IsOwn c
    → (call : Call) → IsFair call
    → Ensures (IsNew c) (handle env c call)
unfolding handle
handle-IsNew env c sound own (ft_on_transfer_call _ _ _) fair = no_due c _ (λ r. r.0)
handle-IsNew env c sound own (claim_total_call x) fair =
    one_due after_claim_due c (claim_total-IsNew env c x sound)
handle-IsNew env c sound own (withdraw_call x) fair =
    one_due after_withdraw_due c (withdraw-IsNew env c x)
handle-IsNew env c sound own (withdraw_all_call x) fair =
    one_due after_bulk_withdraw_due c (withdraw_all-IsNew env c x sound own fair.1)
handle-IsNew env c sound own (restake_call x y z u) fair =
    one_due after_transfer_remainder_due c (restake-IsNew env c x y z u)
handle-IsNew env c sound own (restake_all_call x y z) fair =
    one_due after_transfer_remainder_due c (restake_all-IsNew env c x y z sound)
handle-IsNew env c sound own (record_score_call _) fair = no_due c _ (λ c1. c1)
handle-IsNew env c sound own (apply_booster_call _ _ _) fair = no_due c _ (λ r. r.0)
handle-IsNew env c sound own (set_timezone_call _ _) fair = no_due c _ (λ c1. c1)
handle-IsNew env c sound own (set_feature_enabled_call _ _ _) fair = no_due c _ (λ c1. c1)
handle-IsNew env c sound own (batch_set_feature_enabled_call _ _ _) fair = no_due c _ (λ c1. c1)
handle-IsNew env c sound own (set_penalty_call _ _) fair = no_due c _ (λ c1. c1)
handle-IsNew env c sound own (batch_set_penalty_call _ _) fair = no_due c _ (λ c1. c1)
handle-IsNew env c sound own (unlock_jars_for_account_call _ _) fair = no_due c _ (λ c1. c1)
handle-IsNew env c sound own withdraw_fee_call fair =
    one_due after_fee_withdrawn_due c (withdraw_fee-IsNew env c)
handle-IsNew env c sound own (register_product_call _) fair = no_due c _ (λ c1. c1)
handle-IsNew env c sound own (set_enabled_call _ _) fair = no_due c _ (λ c1. c1)
handle-IsNew env c sound own (set_public_key_call _ _) fair = no_due c _ (λ c1. c1)
handle-IsNew env c sound own (migrate_products_call _) fair = no_due c _ (λ c1. c1)
handle-IsNew env c sound own disable_migration_call fair = no_due c _ (λ c1. c1)
handle-IsNew env c sound own (enable_migration_call _) fair = no_due c _ (λ c1. c1)
