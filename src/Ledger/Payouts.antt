-- ===== src/Ledger/Payouts.antt =====
-- What a successful withdrawal takes from an account (contract/src/feature/withdraw/api.rs).
use sweat_jar.Base.{
  ℕ, ◌+◌, ◌≡◌, ◌≢◌, refl, sym, ap, ◌∙◌, Bool-cases, inl, inr, List, [], ◌∷◌, ok, arith, String,
  str_eq, eq_iff, All, add_u128, or_panic-eq-ok, jar_not_found, take,
}
use sweat_jar.Base.Dict.{lookup, IsMap, lookup-insert_ne, lookup-remove, insert-IsMap, remove-IsMap}
use sweat_jar.Base.Ensures.{Ensures, returns, after, given, weaken}
use sweat_jar.Jar.{Deposit, Jar, should_close}
use sweat_jar.Jar.Liquid.{principal_sum}
use sweat_jar.Account.{Account, get_jar, put_jar}
use sweat_jar.Withdraw.{WithdrawalRequest, close_or_keep, clean_up, clean_up_requested}
use sweat_jar.Book.{jar_page}
use sweat_jar.Held.Slots.{request_slots}
use sweat_jar.Ledger.{account_principal, jar_principal, put_jar-principal, get_jar-principal}
use sweat_jar.Ledger.Partitions.{covered, IsDistinct, IsListed, clean_up_deposits-principal}
use sweat_jar.Ledger.Pages.{should_close-no_deposits, closed-principal}

-- The deposits under one product have gone, the first of them, and those of the others are as they were.
abbrev IsCut : String → ℕ → Account → Account → Type 0
IsCut id n a b =
    IsMap b.jars
    × (account_principal b + principal_sum (take n (jar_page (lookup id a.jars)))
        ≡ account_principal a)
    × ((j : String) → j ≢ id → lookup j b.jars ≡ lookup j a.jars)

close_or_keep-IsCut :
    (a : Account) (id : String) {jar : Jar} (jar' : Jar) (n : ℕ)
    → IsMap a.jars
    → get_jar a id ≡ ok jar
    → jar_principal jar' + principal_sum (take n jar.deposits) ≡ jar_principal jar
    → IsCut id n a (close_or_keep a id jar')
unfolding close_or_keep jar_page get_jar put_jar jar_principal principal_sum
close_or_keep-IsCut a id {jar} jar' n unique e cut =
    let found = or_panic-eq-ok (lookup id a.jars) jar_not_found e in
    let page : principal_sum (take n (jar_page (lookup id a.jars)))
        ≡ principal_sum (take n jar.deposits) =
      ap (λ o. principal_sum (take n (jar_page o))) found in
    elim (Bool-cases (should_close jar')) [
      | inl closes ↦
          let empty : jar_principal jar' ≡ 0 =
            ap principal_sum (should_close-no_deposits jar' closes) in
          rw closes (
            remove-IsMap id a.jars unique,
            omega (arith, closed-principal a id unique, get_jar-principal a id e, empty, page, cut),
            λ j other. lookup-remove id j a.jars ∙ elim (Bool-cases (str_eq id j)) [
              | inl is ↦ absurd (other (sym ((eq_iff id j).0 is)))
              | inr unlike ↦ rw unlike refl
            ],
          )
      | inr stays ↦ rw stays (
        insert-IsMap id jar' a.jars unique,
        omega (arith, put_jar-principal a id jar', get_jar-principal a id e, page, cut),
        λ j other. lookup-insert_ne id j jar' a.jars (λ same. other (sym same)),
      )
    ]

pub clean_up-IsCut :
    (r : WithdrawalRequest) (a : Account)
    → IsMap a.jars
    → Ensures (IsCut r.product_id r.partition_index a) (clean_up a r)
unfolding clean_up
clean_up-IsCut r a unique = after (get_jar a r.product_id) _ λ jar e.
    given _ (clean_up_deposits-principal jar r.partition_index)
      λ jar' cut. returns _ (close_or_keep-IsCut a r.product_id jar' r.partition_index unique e cut)

cut-IsListed :
    (pages : String → List Deposit) (ps : List (String × ℕ)) (a b : Account) (id : String)
    → ((j : String) → j ≢ id → lookup j b.jars ≡ lookup j a.jars)
    → All (λ e. e.0 ≢ id) ps
    → IsListed pages ps a
    → IsListed pages ps b
cut-IsListed pages [] a b id kept others h = tt
cut-IsListed pages (e ∷ ps) a b id kept (other, others) (page, h) =
    (ap jar_page (kept e.0 other) ∙ page, cut-IsListed pages ps a b id kept others h)

pub clean_up_requested-principal :
    (pages : String → List Deposit) (rs : List WithdrawalRequest) (a : Account) (fees : ℕ)
    → IsMap a.jars
    → IsDistinct (request_slots rs)
    → IsListed pages (request_slots rs) a
    → Ensures
        (λ r. account_principal r.0 + covered pages (request_slots rs) ≡ account_principal a)
        (clean_up_requested a fees rs)
unfolding clean_up_requested covered
clean_up_requested-principal pages [] a fees unique distinct h = returns _ (omega arith)
clean_up_requested-principal pages (r ∷ rs) a fees unique (others, distinct) (page, h) =
    after (add_u128 fees r.withdrawal.fee) _ λ fees' _.
      given _ (clean_up-IsCut r a unique) λ b (unique', cut, kept).
        let taken : principal_sum (take r.partition_index (jar_page (lookup r.product_id a.jars)))
            ≡ principal_sum (take r.partition_index (pages r.product_id)) =
          ap (λ ds. principal_sum (take r.partition_index ds)) page in
        weaken (λ x sum. omega (arith, sum, cut, taken))
          (clean_up_requested-principal pages rs b fees' unique' distinct
            (cut-IsListed pages (request_slots rs) a b r.product_id kept others h))
