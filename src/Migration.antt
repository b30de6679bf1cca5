-- ===== src/Migration.antt =====
-- Accounts of earlier versions (model/src/data/account/v1.rs, v2.rs and versioned.rs,
-- model/src/data/jar/v1.rs) and their migration (contract/src/migration/api.rs).
use sweat_jar.Base.{
  ℕ, ◌≤◌, Bool, true, false, not, leb, ◌==◌, if◌then◌else◌, Option, none, some, List, [], ◌∷◌,
  Result, ok, panic, ◌>>=◌, ◌>>◌, or_panic, require, account_not_found, account_not_empty,
  principal_mismatch, add_u128, String,
}
use sweat_jar.Base.Dict.{Dict, lookup}
use sweat_jar.Score.{AccountScoreLegacy, of_legacy}
use sweat_jar.Features.{new, increased_apy, set_feature_enabled}
use sweat_jar.Jar.{Jar, Deposit}
use sweat_jar.Account.{Account, is_empty, get_total_principal}
use sweat_jar.Contract.{
  Env, Contract, put_account, get_account, assert_migrate_from_previous_version,
}
pub mod Upgrade

-- `sort_by_key` on `created_at`, which is stable: an insertion from the right.
unfoldable insert_deposit : Deposit → List Deposit → List Deposit
insert_deposit d [] = d ∷ []
insert_deposit d (e ∷ es) =
    if leb d.created_at e.created_at then d ∷ e ∷ es else e ∷ insert_deposit d es

unfoldable pub sort_deposits : List Deposit → List Deposit
unfolding insert_deposit
sort_deposits [] = []
sort_deposits (d ∷ ds) = insert_deposit d (sort_deposits ds)

-- `*entry(created_at).or_insert(0) += principal`
unfoldable merge_into : Deposit → List Deposit → Result (List Deposit)
merge_into d [] = ok (d ∷ [])
merge_into d (e ∷ es) =
    let rest = merge_into d es in
    if e.created_at == d.created_at
    then (add_u128 e.principal d.principal >>= λ p. ok (record e { principal = p } ∷ es))
    else (rest >>= λ es'. ok (e ∷ es'))

unfoldable merge_from : List Deposit → List Deposit → Result (List Deposit)
unfolding merge_into
merge_from merged [] = ok merged
merge_from merged (d ∷ ds) = do merged' ← merge_into d merged; merge_from merged' ds

-- `merge_deposits`: one deposit for each time. The map's order is unspecified; the list's order
-- stands for it, and the sorting that follows every merge forgets it.
unfoldable pub merge_deposits : List Deposit → Result (List Deposit)
unfolding merge_from
merge_deposits ds = merge_from [] ds

pub record AccountV1 : Type 0 where
  pub nonce : ℕ
  pub jars : Dict Jar
  pub score : AccountScoreLegacy
  pub is_penalty_applied : Bool

unfoldable sort_jars : Dict Jar → Dict Jar
unfolding sort_deposits
sort_jars [] = []
sort_jars ((id, jar) ∷ jars) =
    (id, record jar { deposits = sort_deposits jar.deposits }) ∷ sort_jars jars

unfoldable merge_jars : Dict Jar → Result (Dict Jar)
unfolding merge_deposits sort_deposits
merge_jars [] = ok []
merge_jars ((id, jar) ∷ jars) = do
  merged ← merge_deposits jar.deposits
  rest ← merge_jars jars
  ok ((id, record jar { deposits = sort_deposits merged }) ∷ rest)

-- `with_sorted_deposits` and `with_merged_deposits`
unfoldable with_sorted_deposits : AccountV1 → AccountV1
unfolding sort_jars
with_sorted_deposits a = record a { jars = sort_jars a.jars }

unfoldable with_merged_deposits : AccountV1 → Result AccountV1
unfolding merge_jars
with_merged_deposits a = do jars ← merge_jars a.jars; ok (record a { jars = jars })

-- `From<AccountV1> for AccountV2`
unfoldable to_v2 : AccountV1 → Account
to_v2 a = record {
  nonce = a.nonce;
  jars = a.jars;
  timezone = a.score.timezone;
  score = of_legacy a.score;
  features = set_feature_enabled new increased_apy (not a.is_penalty_applied);
}

-- What is stored, by its tag.
pub data AccountVersioned : Type 0 where
  v1 v1_sorted v1_sorted_and_merged : AccountV1 → AccountVersioned
  v2 : Account → AccountVersioned

-- `deserialize_reader` of `AccountVersioned`: every version is read as the latest.
unfoldable pub read_account : AccountVersioned → Result Account
unfolding with_merged_deposits to_v2
read_account (v1 a) = do merged ← with_merged_deposits a; ok (to_v2 merged)
read_account (v1_sorted a) = do merged ← with_merged_deposits a; ok (to_v2 merged)
read_account (v1_sorted_and_merged a) = ok (to_v2 a)
read_account (v2 a) = ok a

unfoldable pub empty_or_absent : Option Account → Bool
empty_or_absent none = true
empty_or_absent (some a) = is_empty a

-- `is_new_or_empty_account`
unfoldable pub is_new_or_empty_account : Contract → String → Bool
unfolding empty_or_absent
is_new_or_empty_account c id = empty_or_absent (lookup id c.accounts)

-- `FtMessage::Migrate` (contract/src/feature/ft_receiver.rs). `none` stands for bytes that are no
-- account: they are written, and the read that follows panics.
unfoldable pub migrate_account :
    Contract → String → ℕ → String → Option AccountVersioned → Result Contract
unfolding is_new_or_empty_account read_account
migrate_account c sender amount id stored = do
  assert_migrate_from_previous_version c sender
  require (is_new_or_empty_account c id) account_not_empty
  versioned ← or_panic stored account_not_found
  a ← read_account versioned
  principal ← get_total_principal a
  require (principal == amount) principal_mismatch
  ok (put_account c id a)
