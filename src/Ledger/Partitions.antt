-- ===== src/Ledger/Partitions.antt =====
-- The deposits that a restake takes (contract/src/feature/restake/api/api.rs, the partitions of a
-- request).
use sweat_jar.Base.{
  ℕ, ◌+◌, ◌≤◌, ◌≡◌, ◌≢◌, refl, sym, ap, ◌∙◌, ◌==◌, ltb, Bool-cases, inl, inr, List, [], ◌∷◌, ok,
  arith, String, All, take, drop, length, take-append-drop, or_panic-eq-ok, jar_not_found, add_u32,
  take-length,
}
use sweat_jar.Base.Dict.{lookup, lookup-insert_ne}
use sweat_jar.Base.Ensures.{Ensures, returns, panics, on_if, after, given, weaken}
use sweat_jar.Jar.{Deposit, Jar, clean_up_deposits}
use sweat_jar.Jar.Liquid.{principal_sum, principal_sum-append}
use sweat_jar.Account.{Account, get_jar, put_jar}
use sweat_jar.Account
use sweat_jar.Contract.{Contract, get_account}
use sweat_jar.Restake.{Request, clean_up_partitions, clean_up_and_deposit}
use sweat_jar.Book.{jar_page}
use sweat_jar.Ledger.{
  principal, account_principal, jar_principal, put_account-principal, put_jar-principal,
  get_account-share, get_jar-principal, other_field,
}
use sweat_jar.Ledger.Stakes.{deposit-account_principal}

-- The principal of the deposits that the partitions point at, on the pages of an account.
unfoldable pub covered : (String → List Deposit) → List (String × ℕ) → ℕ
covered pages [] = 0
covered pages ((id, n) ∷ rest) = principal_sum (take n (pages id)) + covered pages rest

-- No product is listed twice.
abbrev pub IsDistinct : List (String × ℕ) → Type 0
IsDistinct [] = Unit
IsDistinct ((id, _) ∷ rest) = All (λ e. e.0 ≢ id) rest × IsDistinct rest

-- The pages hold as many deposits as are pointed at.
abbrev pub IsBounded : (String → List Deposit) → List (String × ℕ) → Type 0
IsBounded pages = All (λ e. e.1 ≤ length (pages e.0))

-- The listed jars of the account are as on the pages.
abbrev pub IsListed : (String → List Deposit) → List (String × ℕ) → Account → Type 0
IsListed pages ps a = All (λ e. jar_page (lookup e.0 a.jars) ≡ pages e.0) ps

pub IsListed-all :
    (pages : String → List Deposit) (ps : List (String × ℕ)) (a : Account)
    → ((id : String) → jar_page (lookup id a.jars) ≡ pages id)
    → IsListed pages ps a
IsListed-all pages [] a same = tt
IsListed-all pages (e ∷ ps) a same = (same e.0, IsListed-all pages ps a same)

split_principal :
    (ds : List Deposit) (n : ℕ)
    → principal_sum (take n ds) + principal_sum (drop n ds) ≡ principal_sum ds
split_principal ds n =
    sym (principal_sum-append (take n ds) (drop n ds)) ∙ ap principal_sum (take-append-drop n ds)

pub clean_up_deposits-principal :
    (jar : Jar) (n : ℕ)
    → Ensures
        (λ jar'. jar_principal jar' + principal_sum (take n jar.deposits) ≡ jar_principal jar)
        (clean_up_deposits jar n)
unfolding clean_up_deposits jar_principal principal_sum
clean_up_deposits-principal jar n = elim (Bool-cases (n == length jar.deposits)) [
  | inl whole ↦
      let z : n ≡ length jar.deposits = ground arith in
      rw whole (returns _ (rw (z, take-length) (omega arith)))
  | inr part ↦ rw part (
      on_if (ltb (length jar.deposits) n) _ _ (panics _)
        (returns _ (omega (arith, split_principal jar.deposits n))))
]

put_jar-IsListed :
    (pages : String → List Deposit) (ps : List (String × ℕ)) (a : Account) (id : String) (jar : Jar)
    → All (λ e. e.0 ≢ id) ps
    → IsListed pages ps a
    → IsListed pages ps (put_jar a id jar)
unfolding put_jar
put_jar-IsListed pages [] a id jar others h = tt
put_jar-IsListed pages (e ∷ ps) a id jar (other, others) (page, h) = (
  ap jar_page (lookup-insert_ne id e.0 jar a.jars (λ same. other (sym same))) ∙ page,
  put_jar-IsListed pages ps a id jar others h,
)

clean_up_partitions-principal :
    (pages : String → List Deposit) (ps : List (String × ℕ)) (a : Account)
    → IsDistinct ps
    → IsListed pages ps a
    → Ensures
        (λ b. account_principal b + covered pages ps ≡ account_principal a)
        (clean_up_partitions a ps)
unfolding clean_up_partitions covered get_jar jar_page
clean_up_partitions-principal pages [] a distinct h = returns a (omega arith)
clean_up_partitions-principal pages ((id, n) ∷ ps) a (others, distinct) (page, h) =
    after (get_jar a id) _ λ jar hj. given _ (clean_up_deposits-principal jar n) λ jar' cut.
      let deposits : jar.deposits ≡ pages id =
        ap jar_page (sym (or_panic-eq-ok (lookup id a.jars) jar_not_found hj)) ∙ page in
      let cut' : jar_principal jar' + principal_sum (take n (pages id)) ≡ jar_principal jar =
        ap (λ ds. jar_principal jar' + principal_sum (take n ds)) (sym deposits) ∙ cut in
      weaken
        (λ b sum. omega (arith, sum, put_jar-principal a id jar', get_jar-principal a id hj, cut'))
        (clean_up_partitions-principal pages ps (put_jar a id jar') distinct
          (put_jar-IsListed pages ps a id jar' others h))

-- `clean_up_and_deposit`: the covered deposits go, and the new deposit comes.
pub clean_up_and_deposit-principal :
    (pages : String → List Deposit) (c : Contract) (r : Request) (now : ℕ)
    → IsDistinct r.partitions
    → ((a : Account) → get_account c r.account_id ≡ ok a → IsListed pages r.partitions a)
    → Ensures
        (λ c'. principal c' + covered pages r.partitions ≡ principal c + r.deposit.amount)
        (clean_up_and_deposit c r now)
unfolding clean_up_and_deposit
clean_up_and_deposit-principal pages c r now distinct listed =
    after (get_account c r.account_id) _ λ a ha.
      given _ (clean_up_partitions-principal pages r.partitions a distinct (listed a ha)) λ a' cut.
        let b = Account.deposit a' r.deposit.product_id r.deposit.amount now in
        after (add_u32 b.nonce 1) _ λ nonce _.
          let b' = record b { nonce = nonce } in
          returns _ (
            omega (
              arith,
              put_account-principal c r.account_id b',
              get_account-share c r.account_id ha,
              other_field b b' refl,
              deposit-account_principal a' r.deposit.product_id r.deposit.amount now,
              cut,
            ))
