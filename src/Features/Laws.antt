-- ===== src/Features/Laws.antt =====
-- Reading a flag after setting one (model/src/data/account/features.rs).
use sweat_jar.Base.{
  ℕ, zero, suc, ◌<◌, ◌≡◌, refl, Bool, if◌then◌else◌, true, false, not, ltb, ◌&&◌, arith, u8_mod,
  xor_bool,
}
use sweat_jar.Features.{
  Feature, increased_apy, increased_score_cap, Features, is_feature_enabled, set_feature_enabled,
}

every_below : (ℕ → Bool) → ℕ → Bool
every_below test zero = true
every_below test (suc k) = every_below test k && test k

every_below_lem :
    (test : ℕ → Bool) (k : ℕ) {x : ℕ} → x < k → every_below test k ≡ true → test x ≡ true
unfolding every_below
every_below_lem test zero lt h = absurd (omega arith)
every_below_lem test (suc k) {x} lt h = ground (arith, every_below_lem test k {x = x})

abbrev pub same : Feature → Feature → Bool
same increased_apy increased_apy = true
same increased_score_cap increased_score_cap = true
same increased_apy increased_score_cap = false
same increased_score_cap increased_apy = false

-- The law at one byte, as a test.
law_at : Feature → Feature → Bool → ℕ → Bool
unfolding is_feature_enabled set_feature_enabled
law_at f g b x =
    let s : Features = record { bits = x } in
    not (
      xor_bool (is_feature_enabled (set_feature_enabled s f b) g)
        (if same f g then b else is_feature_enabled s g))

law_table : (f g : Feature) (b : Bool) → every_below (law_at f g b) 256 ≡ true
unfolding every_below law_at
law_table increased_apy increased_apy true = refl
law_table increased_apy increased_apy false = refl
law_table increased_apy increased_score_cap true = refl
law_table increased_apy increased_score_cap false = refl
law_table increased_score_cap increased_apy true = refl
law_table increased_score_cap increased_apy false = refl
law_table increased_score_cap increased_score_cap true = refl
law_table increased_score_cap increased_score_cap false = refl

not_xor : (a b : Bool) → not (xor_bool a b) ≡ true → a ≡ b
not_xor a b h = ground arith

-- On every byte of flags: after a flag is set to a value, that flag has the value, and the other
-- flag is as it was.
pub is_feature_enabled-set :
    (s : Features) (f g : Feature) (enabled : Bool)
    → s.bits < u8_mod
    → is_feature_enabled (set_feature_enabled s f enabled) g
      ≡ (if same f g then enabled else is_feature_enabled s g)
unfolding law_at
is_feature_enabled-set s f g enabled h =
    not_xor _ _ (every_below_lem (law_at f g enabled) 256 h (law_table f g enabled))

byte_test : Feature → Bool → ℕ → Bool
unfolding set_feature_enabled
byte_test f b x = ltb (set_feature_enabled (record { bits = x }) f b).bits 256

byte_table : (f : Feature) (b : Bool) → every_below (byte_test f b) 256 ≡ true
unfolding every_below byte_test
byte_table increased_apy true = refl
byte_table increased_apy false = refl
byte_table increased_score_cap true = refl
byte_table increased_score_cap false = refl

-- After a flag is set or cleared, the flags are still a byte.
pub set_feature_enabled_lt :
    (s : Features) (f : Feature) (b : Bool)
    → s.bits < u8_mod
    → (set_feature_enabled s f b).bits < u8_mod
unfolding byte_test
set_feature_enabled_lt s f b h =
    let test = every_below_lem (byte_test f b) 256 h (byte_table f b) in ground (arith, test)
