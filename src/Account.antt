-- ===== src/Account.antt =====
-- Accounts (model/src/data/account/v2.rs and common.rs). `Account` is `AccountV2`.
use sweat_jar.Base.{
  ℕ, suc, ◌+◌, Bool, true, false, not, if◌then◌else◌, ◌==◌, ◌&&◌, Option, none, some, List, [], ◌∷◌,
  Result, ok, panic, ◌>>=◌, or_panic, require, jar_not_found, no_timezone, add_u128, String,
  timezone_not_set,
}
use sweat_jar.Base.Dict.{Dict, lookup, insert}
use sweat_jar.Time.{Timezone, is_valid, invalid}
use sweat_jar.Score.{AccountScore, DailyScore, days_since_last_update, score_default}
use sweat_jar.Features.{Features, new}
use sweat_jar.Jar.{Jar, JarCompanion, empty_jar, push_deposit, total_principal}
use sweat_jar.Jar
pub mod Restore

pub record Account : Type 0 where
  pub nonce : ℕ
  pub jars : Dict Jar
  pub timezone : Timezone
  pub score : AccountScore
  pub features : Features

pub record AccountCompanion : Type 0 where
  pub new_nonce : Option ℕ
  pub new_jars : Option (Dict JarCompanion)
  pub new_timezone : Option Timezone
  pub new_score : Option AccountScore
  pub new_features : Option Features

-- `Account::default()` at the block's time.
unfoldable pub default_account : ℕ → Account
unfolding invalid score_default new
default_account now = record {
  nonce = 0;
  jars = [];
  timezone = invalid;
  score = score_default now;
  features = new;
}

unfoldable is_default_score : DailyScore → Bool
is_default_score d = d.value == 0 && d.booster == 0

unfoldable pub has_no_jars : Dict Jar → Bool
has_no_jars [] = true
has_no_jars (_ ∷ _) = false

-- `Account::is_empty`
unfoldable pub is_empty : Account → Bool
unfolding is_default_score has_no_jars is_valid
is_empty a =
    a.nonce == 0
    && has_no_jars a.jars
    && not (is_valid a.timezone)
    && a.features.bits == 0
    && is_default_score a.score.history0
    && is_default_score a.score.history1

unfoldable pub principal_from : ℕ → Dict Jar → Result ℕ
unfolding total_principal
principal_from acc [] = ok acc
principal_from acc ((_, jar) ∷ jars) = do
  p ← total_principal jar
  acc' ← add_u128 acc p
  principal_from acc' jars

-- `Account::get_total_principal`
unfoldable pub get_total_principal : Account → Result ℕ
unfolding principal_from
get_total_principal a = principal_from 0 a.jars

unfoldable pub get_jar : Account → String → Result Jar
get_jar a product_id = or_panic (lookup product_id a.jars) jar_not_found

-- A write through `get_jar_mut`, to a jar that is there.
unfoldable pub put_jar : Account → String → Jar → Account
put_jar a product_id jar = record a { jars = insert product_id jar a.jars }

unfoldable pub jar_or_default : Option Jar → Jar
unfolding empty_jar
jar_or_default none = empty_jar
jar_or_default (some jar) = jar

-- `Account::deposit`, at the given time.
unfoldable pub deposit : Account → String → ℕ → ℕ → Account
unfolding jar_or_default push_deposit put_jar
deposit a product_id principal time =
    put_jar a product_id (push_deposit (jar_or_default (lookup product_id a.jars)) time principal)

unfoldable pub timezone_or_panic : Account → Option Timezone → Result Account
timezone_or_panic a none = panic no_timezone
timezone_or_panic a (some tz) = ok (record a { timezone = tz })

-- `Account::try_set_timezone`: the first timezone stays.
unfoldable pub try_set_timezone : Account → Option Timezone → Result Account
unfolding is_valid timezone_or_panic
try_set_timezone a tz = if is_valid a.timezone then ok a else timezone_or_panic a tz

unfoldable pub apply_jars : Dict Jar → Dict JarCompanion → Result (Dict Jar)
unfolding Jar.apply
apply_jars jars [] = ok jars
apply_jars jars ((product_id, c) ∷ cs) = do
  jar ← or_panic (lookup product_id jars) jar_not_found
  apply_jars (insert product_id (Jar.apply jar c) jars) cs

unfoldable pub or_keep {ℓ} : {A : Type ℓ} → Option A → A → A
or_keep none old = old
or_keep (some new_value) old = new_value

unfoldable pub apply_companions : Dict Jar → Option (Dict JarCompanion) → Result (Dict Jar)
unfolding apply_jars
apply_companions jars none = ok jars
apply_companions jars (some cs) = apply_jars jars cs

-- `Account::apply`
unfoldable pub apply : Account → AccountCompanion → Result Account
unfolding apply_companions or_keep
apply a c = do
  jars ← apply_companions a.jars c.new_jars
  ok (record {
    nonce = or_keep c.new_nonce a.nonce;
    jars = jars;
    timezone = or_keep c.new_timezone a.timezone;
    score = or_keep c.new_score a.score;
    features = or_keep c.new_features a.features;
  })
