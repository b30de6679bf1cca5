-- ===== src/Jar.antt =====
-- Jars, deposits and the interest cache (model/src/data/jar/v1.rs and common.rs).
use sweat_jar.Base.{
  ℕ, zero, suc, ◌+◌, ◌-◌, Bool, true, false, not, if◌then◌else◌, ◌==◌, ◌&&◌, Option, none, some,
  List, [], ◌∷◌, ◌++◌, Result, ok, panic, ◌>>=◌, ◌>>◌, require, jar_is_locked, add_u128, length,
  take, drop, ltb, leb, overflow,
}
use sweat_jar.Product.{Terms, allows_early_withdrawal, is_liquid}
pub mod Liquid
pub mod Maturity

pub record Deposit : Type 0 where
  pub created_at : ℕ
  pub principal : ℕ

pub record JarCache : Type 0 where
  pub updated_at : ℕ
  pub interest : ℕ

pub record Jar : Type 0 where
  pub deposits : List Deposit
  pub cache : Option JarCache
  pub is_locked : Bool
  pub claim_remainder : ℕ

-- The changes that `apply` makes: an absent field stays as it is.
pub record JarCompanion : Type 0 where
  pub new_deposits : Option (List Deposit)
  pub new_cache : Option (Option JarCache)
  pub new_is_locked : Option Bool
  pub new_claim_remainder : Option ℕ

-- `Jar::default()`
unfoldable pub empty_jar : Jar
empty_jar = record { deposits = []; cache = none; is_locked = false; claim_remainder = 0 }

-- `Iterator::sum` over the principals, from the left.
unfoldable pub sum_from : ℕ → List Deposit → Result ℕ
sum_from acc [] = ok acc
sum_from acc (d ∷ ds) = do acc' ← add_u128 acc d.principal; sum_from acc' ds

unfoldable pub total_principal : Jar → Result ℕ
unfolding sum_from
total_principal jar = sum_from 0 jar.deposits

unfoldable count_if : Bool → Result ℕ → Result ℕ
count_if true rest = rest >>= λ n. ok (suc n)
count_if false rest = ok 0

-- `partition_point` of a slice that the predicate splits: the length of its liquid prefix.
-- (The slices are sorted by age, so every such predicate splits them.)
unfoldable pub partition_point : Terms → ℕ → List Deposit → Result ℕ
unfolding count_if
partition_point terms now [] = ok 0
partition_point terms now (d ∷ ds) = do
  liquid ← is_liquid terms now d.created_at
  count_if liquid (partition_point terms now ds)

unfoldable whole_balance : List Deposit → Result (ℕ × ℕ)
unfolding sum_from
whole_balance ds = do sum ← sum_from 0 ds; ok (sum, length ds)

unfoldable pub mature_balance : Terms → ℕ → List Deposit → Result (ℕ × ℕ)
unfolding sum_from partition_point
mature_balance terms now ds = do
  n ← partition_point terms now ds
  sum ← sum_from 0 (take n ds)
  ok (sum, n)

-- `get_liquid_balance`: the amount that can be withdrawn, and how many deposits hold it.
unfoldable pub get_liquid_balance : Jar → Terms → ℕ → Result (ℕ × ℕ)
unfolding whole_balance mature_balance
get_liquid_balance jar terms now =
    if allows_early_withdrawal terms
    then whole_balance jar.deposits
    else mature_balance terms now jar.deposits

unfoldable pub cached_interest : Option JarCache → ℕ
cached_interest none = 0
cached_interest (some c) = c.interest

unfoldable pub has_no_deposits : List Deposit → Bool
has_no_deposits [] = true
has_no_deposits (_ ∷ _) = false

unfoldable pub should_close : Jar → Bool
unfolding cached_interest has_no_deposits
should_close jar = has_no_deposits jar.deposits && cached_interest jar.cache == 0

unfoldable pub lock : Jar → Jar
lock jar = record jar { is_locked = true }

unfoldable pub unlock : Jar → Jar
unlock jar = record jar { is_locked = false }

unfoldable pub assert_not_locked : Jar → Result (Unit {0})
assert_not_locked jar = require (not jar.is_locked) jar_is_locked

unfoldable pub try_lock : Jar → Result Jar
unfolding assert_not_locked lock
try_lock jar = do assert_not_locked jar; ok (lock jar)

unfoldable pub claim : Jar → ℕ → ℕ → Jar
claim jar remainder now = record jar {
  claim_remainder = remainder;
  cache = some (record { updated_at = now; interest = 0 });
}

unfoldable pub update_cache : Jar → ℕ → ℕ → ℕ → Jar
update_cache jar interest remainder now = record jar {
  cache = some (record { updated_at = now; interest = interest });
  claim_remainder = remainder;
}

-- `clean_up_deposits`. `Vec::drain(..n)` panics where n is past the end.
unfoldable pub clean_up_deposits : Jar → ℕ → Result Jar
clean_up_deposits jar n =
    if n == length jar.deposits
    then ok (record jar { deposits = [] })
    else if ltb (length jar.deposits) n
    then panic overflow
    else ok (record jar { deposits = drop n jar.deposits })

unfoldable pub or_keep {ℓ} : {A : Type ℓ} → Option A → A → A
or_keep none old = old
or_keep (some new) old = new

-- `Jar::apply`
unfoldable pub apply : Jar → JarCompanion → Jar
unfolding or_keep
apply jar c = record {
  deposits = or_keep c.new_deposits jar.deposits;
  cache = or_keep c.new_cache jar.cache;
  is_locked = or_keep c.new_is_locked jar.is_locked;
  claim_remainder = or_keep c.new_claim_remainder jar.claim_remainder;
}

unfoldable pub to_rollback : Jar → JarCompanion
to_rollback jar = record {
  new_deposits = none;
  new_cache = some jar.cache;
  new_is_locked = some false;
  new_claim_remainder = some jar.claim_remainder;
}

-- The arguments of a callback are JSON, in which `Some(None)` is `null`: it is read back as `None`.
unfoldable pub cache_from_json : Option (Option JarCache) → Option (Option JarCache)
cache_from_json none = none
cache_from_json (some none) = none
cache_from_json (some (some cache)) = some (some cache)

-- A companion as the callback reads it.
unfoldable pub from_json : JarCompanion → JarCompanion
unfolding cache_from_json
from_json c = record c { new_cache = cache_from_json c.new_cache }

-- `jar.deposits.push(Deposit::new(time, principal))`
unfoldable pub push_deposit : Jar → ℕ → ℕ → Jar
push_deposit jar time principal = record jar {
  deposits = jar.deposits ++ record { created_at = time; principal = principal } ∷ [];
}
