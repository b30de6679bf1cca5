-- ===== src/Invariant/Depositing.antt =====
-- A deposit keeps an account sound (model/src/data/account/common.rs, `deposit`).
use sweat_jar.Base.{ℕ, All-append, Option-cases, inl, inr, arith, String}
use sweat_jar.Base.Dict.{lookup, All-lookup}
use sweat_jar.Jar.{Jar, push_deposit}
use sweat_jar.Jar.Maturity.{append-IsSorted}
use sweat_jar.Account.{Account, jar_or_default}
use sweat_jar.Account
use sweat_jar.Invariant.{IsJar, IsAccount, empty_jar-IsJar, put_jar-IsAccount}

module _ (now : ℕ) where
  push_deposit-IsJar :
      (jar : Jar) (principal : ℕ) → IsJar now jar → IsJar now (push_deposit jar now principal)
  unfolding push_deposit
  push_deposit-IsJar jar principal ((sorted, past), cache) = (
    (
      append-IsSorted jar.deposits _ sorted past,
      All-append _ jar.deposits _ past (omega arith, tt),
    ),
    cache,
  )

  jar_or_default-IsJar :
      (a : Account) (id : String) → IsAccount now a → IsJar now (jar_or_default (lookup id a.jars))
  unfolding jar_or_default
  jar_or_default-IsJar a id h = elim (Option-cases (lookup id a.jars)) [
    | inl absent ↦ rw absent (empty_jar-IsJar now)
    | inr (jar, found) ↦ rw found (All-lookup (IsJar now) id a.jars h.1 found)
  ]

  -- `Account::deposit`
  pub deposit-IsAccount :
      (a : Account) (id : String) (principal : ℕ)
      → IsAccount now a
      → IsAccount now (Account.deposit a id principal now)
  unfolding Account.deposit
  deposit-IsAccount a id principal h = put_jar-IsAccount now a id _ h (
      push_deposit-IsJar (jar_or_default (lookup id a.jars)) principal
        (jar_or_default-IsJar a id h))
