-- ===== src/Invariant/Oracle.antt =====
-- The maintainer's unlocking of jars keeps the contract sound (contract/src/feature/account/api.rs).
use sweat_jar.Base.{ℕ, List, [], ◌∷◌, Option-cases, inl, inr, String, All}
use sweat_jar.Base.Dict.{Dict, lookup, IsMap, insert-IsMap, All-insert, All-lookup}
use sweat_jar.Base.Ensures.{Ensures, returns, after, given}
use sweat_jar.Jar.{Jar}
use sweat_jar.Jar
use sweat_jar.Contract.{Env, Contract, maintainer, assert_role}
use sweat_jar.Oracle.{unlock_listed, unlock_jars_for_account}
use sweat_jar.Invariant.{IsJar, IsContract, get_account-IsAccount, put_account-IsContract}

module _ (now : ℕ) where
  unlock_listed-IsAccount :
      (ids : List String) (jars : Dict Jar)
      → IsMap jars × All (λ e. IsJar now e.1) jars
      → IsMap (unlock_listed jars ids) × All (λ e. IsJar now e.1) (unlock_listed jars ids)
  unfolding unlock_listed Jar.unlock
  unlock_listed-IsAccount [] jars h = h
  unlock_listed-IsAccount (id ∷ ids) jars h = elim (Option-cases (lookup id jars)) [
    | inl absent ↦ rw absent (unlock_listed-IsAccount ids jars h)
    | inr (jar, found) ↦
        let hj : IsJar now (Jar.unlock jar) = All-lookup (IsJar now) id jars h.1 found in
        rw found (
          unlock_listed-IsAccount ids _
            (insert-IsMap id _ jars h.0, All-insert (IsJar now) id _ jars hj h.1))
  ]

  pub unlock_jars_for_account-IsContract :
      (env : Env) (c : Contract) (id : String) (ids : List String)
      → IsContract now c
      → Ensures (IsContract now) (unlock_jars_for_account env c id ids)
  unfolding unlock_jars_for_account
  unlock_jars_for_account-IsContract env c id ids h = after (assert_role env maintainer) _ λ _ _.
      given _ (get_account-IsAccount now c id h) λ a ha.
        let jars = unlock_listed-IsAccount ids a.jars (ha.0, ha.1) in
        returns _ (put_account-IsContract now c id _ h (jars.0, jars.1, ha.2, ha.3))
