-- ===== src/Ledger.antt =====
-- The principal that the contract holds for its accounts, all deposits of all jars together
-- (`get_total_principal` of model/src/data/account/common.rs, over all accounts).
use sweat_jar.Base.{
  ℕ, ◌+◌, ◌≡◌, refl, sym, ap, ◌∙◌, Bool-cases, inl, inr, Option, none, some, Option-cases, ok,
  or_panic-eq-ok, account_not_found, jar_not_found, String, str_eq, eq_iff, arith, if◌then◌else◌,
}
use sweat_jar.Base.Dict.{lookup, lookup-insert}
use sweat_jar.Base.Sums.{sum_of, value_of, sum_of-insert}
use sweat_jar.Jar.{Jar}
use sweat_jar.Jar.Liquid.{principal_sum}
use sweat_jar.Account.{Account, get_jar, put_jar, default_account}
use sweat_jar.Contract.{
  Contract, get_account, put_account, get_or_create_account, account_or_default,
}
use sweat_jar.Keeper.{IsQuiet, Keeper}
pub mod Stakes
pub mod Receipts
pub mod Partitions
pub mod Mature
pub mod Restakes
pub mod Calls
pub mod Pages
pub mod Payouts
pub mod Due
pub mod Callbacks

unfoldable jar_principal : Jar → ℕ
jar_principal jar = principal_sum jar.deposits

unfoldable pub account_principal : Account → ℕ
unfolding jar_principal
account_principal a = sum_of jar_principal a.jars

unfoldable pub principal : Contract → ℕ
unfolding account_principal
principal c = sum_of account_principal c.accounts

-- What an account has a share of, 0 for an account that is not there.
unfoldable pub share : Contract → String → ℕ
unfolding account_principal
share c id = value_of account_principal (lookup id c.accounts)

put_account-principal :
    (c : Contract) (id : String) (a : Account)
    → principal (put_account c id a) + share c id ≡ principal c + account_principal a
unfolding principal share put_account
put_account-principal c id a = sum_of-insert account_principal id a c.accounts

put_jar-principal :
    (a : Account) (id : String) (jar : Jar)
    → account_principal (put_jar a id jar) + value_of jar_principal (lookup id a.jars)
      ≡ account_principal a + jar_principal jar
unfolding account_principal put_jar
put_jar-principal a id jar = sum_of-insert jar_principal id jar a.jars

pub get_account-share :
    (c : Contract) (id : String) {a : Account}
    → get_account c id ≡ ok a
    → share c id ≡ account_principal a
unfolding get_account share value_of
get_account-share c id {a} e = rw (or_panic-eq-ok (lookup id c.accounts) account_not_found e) refl

get_jar-principal :
    (a : Account) (id : String) {jar : Jar}
    → get_jar a id ≡ ok jar
    → value_of jar_principal (lookup id a.jars) ≡ jar_principal jar
unfolding get_jar value_of
get_jar-principal a id e = rw (or_panic-eq-ok (lookup id a.jars) jar_not_found e) refl

pub create-share :
    (c : Contract) (id : String) (now : ℕ)
    → share c id ≡ account_principal (get_or_create_account c id now)
unfolding share value_of get_or_create_account account_or_default default_account account_principal
    sum_of
create-share c id now = elim (Option-cases (lookup id c.accounts)) [
  | inl absent ↦ rw absent refl
  | inr (a, found) ↦ rw found refl
]

put_account-share :
    (c : Contract) (k : String) (a : Account) (id : String)
    → share (put_account c k a) id ≡ (if str_eq k id then account_principal a else share c id)
unfolding share put_account value_of
put_account-share c k a id = elim (Bool-cases (str_eq k id)) [
  | inl same ↦ rw (lookup-insert k id a c.accounts, same) refl
  | inr other ↦ rw (lookup-insert k id a c.accounts, other) refl
]

-- What is no jar does not count.
pub other_field : (a b : Account) → b.jars ≡ a.jars → account_principal b ≡ account_principal a
unfolding account_principal
other_field a b same = ap (sum_of jar_principal) same

-- The given total, split among the accounts as given.
abbrev IsSplit : ℕ → (String → ℕ) → Contract → Type 0
IsSplit total shares c = (principal c ≡ total) × ((id : String) → share c id ≡ shares id)

module _ (total : ℕ) (shares : String → ℕ) where
  pub elsewhere-IsSplit :
      (c1 c2 : Contract)
      → c2.accounts ≡ c1.accounts
      → IsSplit total shares c1
      → IsSplit total shares c2
  unfolding principal share
  elsewhere-IsSplit c1 c2 same (sum, split) = (
    ap (sum_of account_principal) same ∙ sum,
    λ id. ap (λ m. value_of account_principal (lookup id m)) same ∙ split id,
  )

  pub write-IsSplit :
      (c : Contract) (k : String) (a : Account)
      → IsSplit total shares c
      → account_principal a ≡ shares k
      → IsSplit total shares (put_account c k a)
  write-IsSplit c k a (sum, split) ha = (
    omega (arith, put_account-principal c k a, split k),
    λ id. put_account-share c k a id ∙ elim (Bool-cases (str_eq k id)) [
      | inl same ↦ let z : k ≡ id = (eq_iff k id).0 same in rw same (ha ∙ ap shares z)
      | inr other ↦ rw other (split id)
    ],
  )

  pub change_jar-share :
      (now : ℕ) (id : String) (a : Account) (j : String) {jar : Jar} (jar' : Jar)
      → account_principal a ≡ shares id
      → get_jar a j ≡ ok jar
      → IsQuiet now jar jar'
      → account_principal (put_jar a j jar') ≡ shares id
  change_jar-share now id a j {jar} jar' h e (deposits, _, _) =
      let same : jar_principal jar' ≡ jar_principal jar =
        unfold jar_principal in ap principal_sum deposits in
      omega (arith, put_jar-principal a j jar', get_jar-principal a j e, same)

  -- No write that leaves the deposits alone changes what an account has.
  abbrev pub ledger : (now : ℕ) → Keeper now
  ledger now = record {
    IsKept = IsSplit total shares;
    IsKeptAccount = λ id a. account_principal a ≡ shares id;
    read = λ c id h e. sym (get_account-share c id e) ∙ h.1 id;
    write = write-IsSplit;
    create = λ c id h. sym (create-share c id now) ∙ h.1 id;
    change_jar = change_jar-share now;
    change_score = λ k a s h le. other_field a _ refl ∙ h;
    change_features = λ k a f h lt. other_field a _ refl ∙ h;
    change_timezone = λ k a tz h. other_field a _ refl ∙ h;
    change_nonce = λ k a n h. other_field a _ refl ∙ h;
  }

-- A state is split as it is.
own-IsSplit : (c : Contract) → IsSplit (principal c) (share c) c
own-IsSplit c = (refl, λ _. refl)
