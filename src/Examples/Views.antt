-- ===== src/Examples/Views.antt =====
-- The views of an account, and the theorems about them at the examples.
use sweat_jar.Base.{◌*◌, ◌≤◌, ◌≡◌, refl}
use sweat_jar.Time.{ms_in_day}
use sweat_jar.Account.{get_total_principal}
use sweat_jar.View.{
  jars_of, list_deposits, get_first_deposit, get_last_deposit, view_total_principal,
}
use sweat_jar.View.Totals.{view_total_principal-jars_of}
use sweat_jar.View.Ends.{IsEnd, first_and_last-IsEnd}
use sweat_jar.Examples.Data.{alice}

view_total_principal-jars_of_example :
    view_total_principal (jars_of alice.jars) ≡ get_total_principal alice
view_total_principal-jars_of_example = view_total_principal-jars_of alice

first_and_last-IsEnd_example :
    IsEnd
      (λ t u. u ≤ t)
      (list_deposits (jars_of alice.jars))
      (record { product_id = "year"; timestamp = 1 * ms_in_day; principal = 200000 })
    × IsEnd
        (λ t u. t ≤ u)
        (list_deposits (jars_of alice.jars))
        (record { product_id = "year"; timestamp = 20 * ms_in_day; principal = 300000 })
unfolding get_first_deposit get_last_deposit jars_of
first_and_last-IsEnd_example = first_and_last-IsEnd (jars_of alice.jars) refl refl
