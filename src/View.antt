-- ===== src/View.antt =====
-- What the contract shows of an account (model/src/data/jar/view.rs, model/src/data/account/view.rs,
-- model/src/data/score/mod.rs; contract/src/feature/account/api.rs, the calls that only read).
use sweat_jar.Base.{
  ℕ, suc, ◌+◌, Bool, not, if◌then◌else◌, leb, Option, none, some, List, [], ◌∷◌, ◌++◌, map, length,
  Result, ok, ◌>>=◌, or_panic, add_u128, product_not_found, String,
}
use sweat_jar.Base.Dict.{Dict, lookup, insert}
use sweat_jar.Time.{Timezone, ℤ, is_valid}
use sweat_jar.Score.{AccountScore, DailyScore}
use sweat_jar.Features.{Feature, Features, increased_apy, increased_score_cap, is_feature_enabled}
use sweat_jar.Product.{Product}
use sweat_jar.Jar.{Deposit, Jar, JarCache}
use sweat_jar.Account.{Account}
use sweat_jar.Interest.{get_jar_interest}
use sweat_jar.Contract.{Contract, get_account, get_product}
use sweat_jar.Settle.{get_settled_interest, entry_or_zero}
pub mod Totals
pub mod Ends

-- `DepositView`: a time and an amount.
abbrev DepositView : Type 0
DepositView = ℕ × ℕ

-- `From<Deposit> for DepositView`
unfoldable of_deposit : Deposit → DepositView
of_deposit d = (d.created_at, d.principal)

pub record JarCacheView : Type 0 where
  pub updated_at : ℕ
  pub interest : ℕ

pub record JarView : Type 0 where
  pub deposits : List DepositView
  pub cache : Option JarCacheView
  pub is_pending_withdraw : Bool
  pub claim_remainder : ℕ

unfoldable of_cache : Option JarCache → Option JarCacheView
of_cache none = none
of_cache (some c) = some (record { updated_at = c.updated_at; interest = c.interest })

-- `From<Jar> for JarView`
unfoldable of_jar : Jar → JarView
unfolding of_deposit of_cache
of_jar jar = record {
  deposits = map of_deposit jar.deposits;
  cache = of_cache jar.cache;
  is_pending_withdraw = jar.is_locked;
  claim_remainder = jar.claim_remainder;
}

abbrev JarsView : Type 0
JarsView = Dict (List DepositView)

-- `From<&Account> for JarsView`
unfoldable pub jars_of : Dict Jar → JarsView
unfolding of_deposit
jars_of [] = []
jars_of ((id, jar) ∷ jars) = (id, map of_deposit jar.deposits) ∷ jars_of jars

-- `get_total_deposits_number`. The numbers count deposits in memory, so their sum fits a usize.
unfoldable get_total_deposits_number : JarsView → ℕ
get_total_deposits_number [] = 0
get_total_deposits_number ((_, deposits) ∷ jars) = length deposits + get_total_deposits_number jars

unfoldable pub principal_of : ℕ → List DepositView → Result ℕ
principal_of acc [] = ok acc
principal_of acc (d ∷ ds) = do acc' ← add_u128 acc d.1; principal_of acc' ds

unfoldable total_from : ℕ → JarsView → Result ℕ
unfolding principal_of
total_from acc [] = ok acc
total_from acc ((_, deposits) ∷ jars) = do
  p ← principal_of 0 deposits
  acc' ← add_u128 acc p
  total_from acc' jars

-- `JarsView::get_total_principal`
unfoldable pub view_total_principal : JarsView → Result ℕ
unfolding total_from
view_total_principal v = total_from 0 v

-- `get_total_principal_for_product`
unfoldable get_total_principal_for_product : JarsView → String → Result ℕ
unfolding principal_of
get_total_principal_for_product v id = do
  deposits ← or_panic (lookup id v) product_not_found
  principal_of 0 deposits

-- `get_principal_per_product`
unfoldable get_principal_per_product : JarsView → Result (List ℕ)
unfolding principal_of
get_principal_per_product [] = ok []
get_principal_per_product ((_, deposits) ∷ jars) = do
  p ← principal_of 0 deposits
  ps ← get_principal_per_product jars
  ok (p ∷ ps)

pub record CompatDepositView : Type 0 where
  pub product_id : String
  pub timestamp : ℕ
  pub principal : ℕ

unfoldable deposits_of_product : String → List DepositView → List CompatDepositView
deposits_of_product id [] = []
deposits_of_product id ((timestamp, principal) ∷ ds) =
    record { product_id = id; timestamp = timestamp; principal = principal }
    ∷ deposits_of_product id ds

-- `list_deposits`
unfoldable pub list_deposits : JarsView → List CompatDepositView
unfolding deposits_of_product
list_deposits [] = []
list_deposits ((id, deposits) ∷ jars) = deposits_of_product id deposits ++ list_deposits jars

-- `max_by_key`: the last of the greatest. `min_by_key`: the first of the least.
unfoldable pub latest : CompatDepositView → List CompatDepositView → CompatDepositView
latest best [] = best
latest best (d ∷ ds) = latest (if leb best.timestamp d.timestamp then d else best) ds

unfoldable earliest : CompatDepositView → List CompatDepositView → CompatDepositView
earliest best [] = best
earliest best (d ∷ ds) = earliest (if leb best.timestamp d.timestamp then best else d) ds

unfoldable last_of : List CompatDepositView → Option CompatDepositView
unfolding latest
last_of [] = none
last_of (d ∷ ds) = some (latest d ds)

unfoldable first_of : List CompatDepositView → Option CompatDepositView
unfolding earliest
first_of [] = none
first_of (d ∷ ds) = some (earliest d ds)

-- `get_last_deposit` and `get_first_deposit`
unfoldable pub get_last_deposit : JarsView → Option CompatDepositView
unfolding last_of list_deposits
get_last_deposit v = last_of (list_deposits v)

unfoldable pub get_first_deposit : JarsView → Option CompatDepositView
unfolding first_of list_deposits
get_first_deposit v = first_of (list_deposits v)

pub record DailyScoreView : Type 0 where
  pub value : ℕ
  pub booster : ℕ

-- `From<DailyScore> for DailyScoreView`
unfoldable of_daily : DailyScore → DailyScoreView
of_daily d = record { value = d.value; booster = d.booster }

pub record AccountScoreView : Type 0 where
  pub updated_at : ℕ
  pub history : List DailyScoreView

-- `From<AccountScore> for AccountScoreView`
unfoldable of_score : AccountScore → AccountScoreView
unfolding of_daily
of_score s = record {
  updated_at = s.updated_at;
  history = of_daily s.history0 ∷ of_daily s.history1 ∷ [];
}

pub record AccountView : Type 0 where
  pub nonce : ℕ
  pub jars : Dict JarView
  pub score : AccountScoreView
  pub is_penalty_applied : Bool
  pub features : List (Feature × Bool)
  pub timezone : Timezone

unfoldable view_jars : Dict Jar → Dict JarView
unfolding of_jar
view_jars [] = []
view_jars ((id, jar) ∷ jars) = (id, of_jar jar) ∷ view_jars jars

-- `From<Account> for AccountView`
unfoldable of_account : Account → AccountView
unfolding view_jars of_score
of_account a = record {
  nonce = a.nonce;
  jars = view_jars a.jars;
  score = of_score a.score;
  is_penalty_applied = not (is_feature_enabled a.features increased_apy);
  features =
      (increased_apy, is_feature_enabled a.features increased_apy)
      ∷ (increased_score_cap, is_feature_enabled a.features increased_score_cap)
      ∷ [];
  timezone = a.timezone;
}

-- `get_jars_for_account`
unfoldable get_jars_for_account : Contract → String → JarsView
unfolding jars_of
get_jars_for_account c id = elim (lookup id c.accounts) [ none ↦ [] | some a ↦ jars_of a.jars ]

-- `AccountApi::get_account`
unfoldable view_account : Contract → String → Option AccountView
unfolding of_account
view_account c id = elim (lookup id c.accounts) [ none ↦ none | some a ↦ some (of_account a) ]

-- `AggregatedInterestView`, with its `AggregatedTokenAmountView`.
pub record AggregatedInterestView : Type 0 where
  pub detailed : Dict ℕ
  pub total : ℕ
  pub timestamp : ℕ

unfoldable interest_of_jars :
    Contract
    → Account
    → ℕ
    → Dict (ℕ × ℕ)
    → AggregatedInterestView
    → Dict Jar
    → Result AggregatedInterestView
unfolding entry_or_zero
interest_of_jars c a now settled acc [] = ok acc
interest_of_jars c a now settled acc ((id, jar) ∷ jars) = do
  p ← get_product c id
  i ← get_jar_interest p.terms a jar now
  interest ← add_u128 i.0 (entry_or_zero (lookup id settled)).0
  total ← add_u128 acc.total interest
  interest_of_jars c a now settled
      (record acc { detailed = insert id interest acc.detailed; total = total }) jars

-- `get_total_interest_for_account`
unfoldable get_total_interest_for_account : Contract → String → ℕ → Result AggregatedInterestView
unfolding interest_of_jars get_settled_interest
get_total_interest_for_account c id now = do
  settled ← get_settled_interest c id now
  a ← get_account c id
  interest_of_jars c a now settled (record { detailed = []; total = 0; timestamp = now }) a.jars

-- `get_total_interest`
unfoldable get_total_interest : Contract → String → ℕ → Result AggregatedInterestView
unfolding get_total_interest_for_account
get_total_interest c id now = elim (lookup id c.accounts) [
  | none ↦ ok (record { detailed = []; total = 0; timestamp = 0 })
  | some _ ↦ get_total_interest_for_account c id now
]

-- `get_timezone`: the shift, also where it says that there is no timezone.
unfoldable get_timezone : Contract → String → Option ℤ
get_timezone c id = elim (lookup id c.accounts) [ none ↦ none | some a ↦ some a.timezone.shift ]

-- `get_products` and `get_fee_amount`
unfoldable products_of : Dict Product → List Product
products_of [] = []
products_of ((_, p) ∷ ps) = p ∷ products_of ps

unfoldable get_products : Contract → List Product
unfolding products_of
get_products c = products_of c.products

unfoldable get_fee_amount : Contract → ℕ
get_fee_amount c = c.fee_amount
