-- ===== src/World/Kinds.antt =====
-- The calls by what they do to deposits: receive them, restake them, or leave them alone.
use sweat_jar.Base.{ℕ, ◌≡◌, refl, Option, List, String}
use sweat_jar.Deposits.{DepositTicket}
use sweat_jar.Airdrop.{FtMessage}
use sweat_jar.World.{
  Call, ft_on_transfer_call, claim_total_call, withdraw_call, withdraw_all_call, restake_call,
  restake_all_call, record_score_call, apply_booster_call, set_timezone_call,
  set_feature_enabled_call, batch_set_feature_enabled_call, set_penalty_call,
  batch_set_penalty_call, unlock_jars_for_account_call, withdraw_fee_call, register_product_call,
  set_enabled_call, set_public_key_call, migrate_products_call, disable_migration_call,
  enable_migration_call,
}

pub data Kind : Type 0 where
  receiving : String → ℕ → FtMessage → Kind
  restaking silent_kind : Kind

abbrev pub kind : Call → Kind
kind (ft_on_transfer_call sender amount message) = receiving sender amount message
kind (restake_call _ _ _ _) = restaking
kind (restake_all_call _ _ _) = restaking
kind _ = silent_kind

-- The calls that neither receive deposits nor restake them.
abbrev pub IsSilent : Call → Type 0
IsSilent call = kind call ≡ silent_kind

pub call_cases {ℓ} :
    (P : Call → Type ℓ)
    → ((sender : String) (amount : ℕ) (message : FtMessage)
        → P (ft_on_transfer_call sender amount message))
    → ((from : String) (ticket : DepositTicket) (signature : Option (List ℕ)) (amount : Option ℕ)
        → P (restake_call from ticket signature amount))
    → ((ticket : DepositTicket) (signature : Option (List ℕ)) (amount : Option ℕ)
        → P (restake_all_call ticket signature amount))
    → ((call : Call) → IsSilent call → P call)
    → (call : Call) → P call
call_cases P received restaked all_restaked silent (ft_on_transfer_call x y z) = received x y z
call_cases P received restaked all_restaked silent (claim_total_call x) =
    silent (claim_total_call x) refl
call_cases P received restaked all_restaked silent (withdraw_call x) = silent (withdraw_call x) refl
call_cases P received restaked all_restaked silent (withdraw_all_call x) =
    silent (withdraw_all_call x) refl
call_cases P received restaked all_restaked silent (restake_call x y z u) = restaked x y z u
call_cases P received restaked all_restaked silent (restake_all_call x y z) = all_restaked x y z
call_cases P received restaked all_restaked silent (record_score_call x) =
    silent (record_score_call x) refl
call_cases P received restaked all_restaked silent (apply_booster_call x y z) =
    silent (apply_booster_call x y z) refl
call_cases P received restaked all_restaked silent (set_timezone_call x y) =
    silent (set_timezone_call x y) refl
call_cases P received restaked all_restaked silent (set_feature_enabled_call x y z) =
    silent (set_feature_enabled_call x y z) refl
call_cases P received restaked all_restaked silent (batch_set_feature_enabled_call x y z) =
    silent (batch_set_feature_enabled_call x y z) refl
call_cases P received restaked all_restaked silent (set_penalty_call x y) =
    silent (set_penalty_call x y) refl
call_cases P received restaked all_restaked silent (batch_set_penalty_call x y) =
    silent (batch_set_penalty_call x y) refl
call_cases P received restaked all_restaked silent (unlock_jars_for_account_call x y) =
    silent (unlock_jars_for_account_call x y) refl
call_cases P received restaked all_restaked silent withdraw_fee_call = silent withdraw_fee_call refl
call_cases P received restaked all_restaked silent (register_product_call x) =
    silent (register_product_call x) refl
call_cases P received restaked all_restaked silent (set_enabled_call x y) =
    silent (set_enabled_call x y) refl
call_cases P received restaked all_restaked silent (set_public_key_call x y) =
    silent (set_public_key_call x y) refl
call_cases P received restaked all_restaked silent (migrate_products_call x) =
    silent (migrate_products_call x) refl
call_cases P received restaked all_restaked silent disable_migration_call =
    silent disable_migration_call refl
call_cases P received restaked all_restaked silent (enable_migration_call x) =
    silent (enable_migration_call x) refl
