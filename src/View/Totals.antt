-- ===== src/View/Totals.antt =====
-- The sums that the views report (model/src/data/jar/view.rs; contract/src/feature/account/api.rs,
-- `get_total_interest`).
use sweat_jar.Base.{ℕ, ◌≡◌, refl, List, [], ◌∷◌, map, add_u128, Result-cases, inl, inr}
use sweat_jar.Base.Dict.{Dict}
use sweat_jar.Jar.{Deposit, Jar, sum_from, total_principal}
use sweat_jar.Account.{Account, principal_from, get_total_principal}
use sweat_jar.View.{of_deposit, jars_of, principal_of, total_from, view_total_principal}

principal_of_lem :
    (ds : List Deposit) (acc : ℕ) → principal_of acc (map of_deposit ds) ≡ sum_from acc ds
unfolding principal_of sum_from of_deposit
principal_of_lem [] acc = refl
principal_of_lem (d ∷ ds) acc = elim (Result-cases (add_u128 acc d.principal)) [
  | inl (why, e) ↦ rw e refl
  | inr (sum, e) ↦ rw e (principal_of_lem ds sum)
]

total_from_lem :
    (jars : Dict Jar) (acc : ℕ) → total_from acc (jars_of jars) ≡ principal_from acc jars
unfolding total_from principal_from jars_of total_principal
total_from_lem [] acc = refl
total_from_lem ((id, jar) ∷ jars) acc =
    rw (principal_of_lem jar.deposits 0) (elim (Result-cases (sum_from 0 jar.deposits)) [
      | inl (why, e) ↦ rw e refl
      | inr (p, e) ↦ rw e (elim (Result-cases (add_u128 acc p)) [
        | inl (why, e') ↦ rw e' refl
        | inr (acc', e') ↦ rw e' (total_from_lem jars acc')
      ])
    ])

-- The total principal of an account's view is the account's own total: both overflow, or
-- both give the same sum.
pub view_total_principal-jars_of :
    (a : Account) → view_total_principal (jars_of a.jars) ≡ get_total_principal a
unfolding view_total_principal get_total_principal
view_total_principal-jars_of a = total_from_lem a.jars 0
