-- ===== src/Base/Outcome.antt =====
-- A call either returns or panics. A panic aborts the receipt and none of its writes are kept,
-- so the new state is part of the value and there is none beside `panic`.
-- The workspace builds with `overflow-checks = true` (.cargo/config.toml): an arithmetic
-- overflow of a machine integer is a panic, and the checked operations below return it.
use Prim.Native.Nat.{ℕ, ◌+◌, ◌-◌, ◌*◌, ◌^◌, ◌≤◌, ◌<◌}
use mathlib.Core.Path.{◌≡◌, refl}
use mathlib.Core.Logic.{◌⊎◌, inl, inr}
use mathlib.Core.Bool.{Bool, true, false}
use mathlib.Core.Option.{Option, none, some}
use native.Mathlib.Omega.{arith}
use sweat_jar.Base.Tests.{ltb, leb, if◌then◌else◌}

-- One constructor for each message that the code panics with.
pub data Panic : Type 0 where
  overflow index_out_of_range account_not_found jar_not_found product_not_found jar_is_locked :
      Panic
  no_timezone timezone_not_set adjust_failed days_offset_failed from_future : Panic
  product_disabled out_of_cap signature_required bad_signature : Panic
  ticket_outdated ticket_too_far nothing_to_restake not_enough_funds : Panic
  fee_exceeds_amount not_enough_gas too_many_jars : Panic
  product_exists not_protected fee_too_high bad_cap_order exponent_out_of_range : Panic
  status_matches not_permitted not_one_yocto wrong_ft_contract wrong_migration_source : Panic
  not_score_based account_not_empty principal_mismatch receivers_empty amount_not_divisible : Panic
  not_private acl_not_initialized : Panic

pub data Result {ℓ} (A : Type ℓ) : Type ℓ where
  ok : A → Result A
  panic : Panic → Result A

infixl 5 ◌>>=◌ ◌>>◌
abbrev pub ◌>>=◌ {ℓ κ} : {A : Type ℓ} {B : Type κ} → Result A → (A → Result B) → Result B
panic why >>= next = panic why
ok x >>= next = next x

abbrev pub ◌>>◌ {κ} : {B : Type κ} → Result (Unit {0}) → Result B → Result B
check >> next = check >>= λ _. next

-- `require!` and `assert!`.
abbrev pub require : Bool → Panic → Result (Unit {0})
require true e = ok tt
require false e = panic e

-- `unwrap_or_else(|| panic!(..))` and `expect`.
abbrev pub or_panic {ℓ} : {A : Type ℓ} → Option A → Panic → Result A
or_panic none e = panic e
or_panic (some a) e = ok a

module _ {ℓ κ} {A : Type ℓ} {B : Type κ} where
  -- What a call that returns has got from its first step.
  pub >>=-eq-ok :
      (step : Result A) (next : A → Result B) {y : B}
      → (step >>= next) ≡ ok y
      → (x : A) × (step ≡ ok x) × (next x ≡ ok y)
  >>=-eq-ok (panic why) next done = cc
  >>=-eq-ok (ok x) next done = (x, refl, done)

pub ok-injective {ℓ} : {A : Type ℓ} {a b : A} → ok a ≡ ok b → a ≡ b
ok-injective {A} {a} {b} h = cc

pub or_panic-eq-ok {ℓ} :
    {A : Type ℓ} (o : Option A) (e : Panic) {a : A} → or_panic o e ≡ ok a → o ≡ some a
or_panic-eq-ok none e h = cc
or_panic-eq-ok (some a) e h = cc

pub require-eq-ok : (b : Bool) (e : Panic) {u : Unit {0}} → require b e ≡ ok u → b ≡ true
require-eq-ok true e h = refl
require-eq-ok false e h = cc

pub Result-cases {ℓ} :
    {A : Type ℓ} (m : Result A) → ((e : Panic) × (m ≡ panic e)) ⊎ ((a : A) × (m ≡ ok a))
Result-cases (ok a) = inr (a, refl)
Result-cases (panic e) = inl (e, refl)

abbrev pub u8_mod : ℕ
u8_mod = 2 ^ 8

abbrev pub u16_mod : ℕ
u16_mod = 2 ^ 16

abbrev pub u32_mod : ℕ
u32_mod = 2 ^ 32

abbrev pub u64_mod : ℕ
u64_mod = 2 ^ 64

abbrev pub u128_mod : ℕ
u128_mod = 2 ^ 128

-- A value that has to fit a machine integer, or the overflow panic.
unfoldable pub fits : ℕ → ℕ → Result ℕ
fits m n = if ltb n m then ok n else panic overflow

unfoldable pub add_u128 : ℕ → ℕ → Result ℕ
unfolding fits
add_u128 a b = fits u128_mod (a + b)

unfoldable pub mul_u128 : ℕ → ℕ → Result ℕ
unfolding fits
mul_u128 a b = fits u128_mod (a * b)

unfoldable pub add_u64 : ℕ → ℕ → Result ℕ
unfolding fits
add_u64 a b = fits u64_mod (a + b)

unfoldable pub add_u32 : ℕ → ℕ → Result ℕ
unfolding fits
add_u32 a b = fits u32_mod (a + b)

-- A subtraction of unsigned integers, which panics below zero at every width.
unfoldable pub sub_checked : ℕ → ℕ → Result ℕ
sub_checked a b = if leb b a then ok (a - b) else panic overflow

pub add_u128-eq-ok : (a b : ℕ) {s : ℕ} → add_u128 a b ≡ ok s → (s ≡ a + b) × (a + b < u128_mod)
unfolding add_u128
add_u128-eq-ok a b h = ground arith

pub add_u64-eq-ok : (a b : ℕ) {s : ℕ} → add_u64 a b ≡ ok s → (s ≡ a + b) × (a + b < u64_mod)
unfolding add_u64
add_u64-eq-ok a b h = ground arith

pub sub_checked-eq-ok : (a b : ℕ) {s : ℕ} → sub_checked a b ≡ ok s → (s + b ≡ a) × (s ≡ a - b)
unfolding sub_checked
sub_checked-eq-ok a b h = ground arith

pub add_u128-of_lt : (a b : ℕ) → a + b < u128_mod → add_u128 a b ≡ ok (a + b)
unfolding add_u128
add_u128-of_lt a b h = ground arith

pub add_u64-of_lt : (a b : ℕ) → a + b < u64_mod → add_u64 a b ≡ ok (a + b)
unfolding add_u64
add_u64-of_lt a b h = ground arith

pub sub_checked-of_le : (a b : ℕ) → b ≤ a → sub_checked a b ≡ ok (a - b)
unfolding sub_checked
sub_checked-of_le a b h = ground arith
