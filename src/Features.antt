-- ===== src/Features.antt =====
-- Feature flags of an account, one bit each of a u8 (model/src/data/account/features.rs).
use Prim.Native.Nat.{bit_and, bit_or}
use sweat_jar.Base.{ℕ, ◌-◌, ◌^◌, Bool, true, false, not, ◌==◌, if◌then◌else◌}
pub mod Laws

pub data Feature : Type 0 where
  increased_apy increased_score_cap : Feature

unfoldable get_bit : Feature → ℕ
get_bit increased_apy = 0
get_bit increased_score_cap = 1

pub record Features : Type 0 where
  pub bits : ℕ

unfoldable pub new : Features
new = record { bits = 0 }

unfoldable pub is_feature_enabled : Features → Feature → Bool
unfolding get_bit
is_feature_enabled s f = not (bit_and s.bits (2 ^ get_bit f) == 0)

-- `!(1 << bit)` on a u8 is 255 less the bit.
unfoldable pub set_feature_enabled : Features → Feature → Bool → Features
unfolding get_bit
set_feature_enabled s f enabled =
    if enabled
    then record s { bits = bit_or s.bits (2 ^ get_bit f) }
    else record s { bits = bit_and s.bits (255 - 2 ^ get_bit f) }
