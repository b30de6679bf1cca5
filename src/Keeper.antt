-- ===== src/Keeper.antt =====
-- A predicate of the contract's state that survives every write which leaves the deposits alone: to
-- a jar's cache, remainder and lock, to a score, to the flags, to a timezone, and of a new account.
use sweat_jar.Base.{
  ℕ, ◌≤◌, ◌<◌, ◌≡◌, ◌⊎◌, refl, inl, inr, true, Option, none, some, ok, String, u8_mod,
}
use sweat_jar.Score.{AccountScore}
use sweat_jar.Features.{Features}
use sweat_jar.Time.{Timezone}
use sweat_jar.Jar.{Jar, JarCache}
use sweat_jar.Account.{Account, get_jar, put_jar}
use sweat_jar.Contract.{Contract, get_account, put_account, get_or_create_account}
pub mod Settling
pub mod Scoring
pub mod Depositing
pub mod Paying
pub mod Restaking
pub mod Both

-- The time of a jar's cache, 0 where it has none.
abbrev pub cache_time : Option JarCache → ℕ
cache_time none = 0
cache_time (some c) = c.updated_at

-- A change of a jar that keeps its deposits, does not unlock it, and stamps no cache in the future.
abbrev pub IsQuiet : ℕ → Jar → Jar → Type 0
IsQuiet now jar jar' =
    (jar'.deposits ≡ jar.deposits)
    × ((jar'.is_locked ≡ jar.is_locked) ⊎ (jar'.is_locked ≡ true))
    × ((jar'.cache ≡ jar.cache) ⊎ (cache_time jar'.cache ≤ now))

pub record Keeper (now : ℕ) : Type 1 where
  pub IsKept : Contract → Type 0
  pub IsKeptAccount : String → Account → Type 0
  pub read :
      (c : Contract) (id : String) {a : Account}
      → IsKept c
      → get_account c id ≡ ok a
      → IsKeptAccount id a
  pub write :
      (c : Contract) (id : String) (a : Account)
      → IsKept c
      → IsKeptAccount id a
      → IsKept (put_account c id a)
  pub create :
      (c : Contract) (id : String) → IsKept c → IsKeptAccount id (get_or_create_account c id now)
  pub change_jar :
      (id : String) (a : Account) (product_id : String) {jar : Jar} (jar' : Jar)
      → IsKeptAccount id a
      → get_jar a product_id ≡ ok jar
      → IsQuiet now jar jar'
      → IsKeptAccount id (put_jar a product_id jar')
  pub change_score :
      (id : String) (a : Account) (s : AccountScore)
      → IsKeptAccount id a
      → (a.score.updated_at ≤ now → s.updated_at ≤ now)
      → IsKeptAccount id (record a { score = s })
  pub change_features :
      (id : String) (a : Account) (f : Features)
      → IsKeptAccount id a
      → (a.features.bits < u8_mod → f.bits < u8_mod)
      → IsKeptAccount id (record a { features = f })
  pub change_timezone :
      (id : String) (a : Account) (tz : Timezone)
      → IsKeptAccount id a
      → IsKeptAccount id (record a { timezone = tz })
  pub change_nonce :
      (id : String) (a : Account) (nonce : ℕ)
      → IsKeptAccount id a
      → IsKeptAccount id (record a { nonce = nonce })
