-- ===== src/Jar/Liquid.antt =====
-- The liquid balance of a jar and the clean-up by its index (model/src/data/jar/common.rs).
use sweat_jar.Base.{
  ◌⊎◌, ℕ, suc, ◌+◌, ◌≤◌, ◌≡◌, refl, ap, ◌∙◌, true, false, Bool, Bool-cases, inl, inr, List, [], ◌∷◌,
  ◌++◌, Result, ok, >>=-eq-ok, arith, All, length, take, drop, take-append-drop, drop-length,
  take-length, drop-append_of_le, length-append, add_u128-eq-ok, add_u128,
}
use sweat_jar.Product.{Terms, is_liquid, allows_early_withdrawal}
use sweat_jar.Jar.{
  Jar, Deposit, sum_from, count_if, partition_point, get_liquid_balance, clean_up_deposits,
}

-- The principal that a list of deposits holds.
unfoldable pub principal_sum : List Deposit → ℕ
principal_sum [] = 0
principal_sum (d ∷ ds) = d.principal + principal_sum ds

pub principal_sum-append :
    (xs ys : List Deposit) → principal_sum (xs ++ ys) ≡ principal_sum xs + principal_sum ys
unfolding principal_sum
principal_sum-append [] ys = omega arith
principal_sum-append (x ∷ xs) ys = omega (arith, principal_sum-append xs ys)

pub sum_from-eq :
    (acc : ℕ) (ds : List Deposit) {s : ℕ} → sum_from acc ds ≡ ok s → s ≡ acc + principal_sum ds
unfolding sum_from principal_sum
sum_from-eq acc [] h = ground arith
sum_from-eq acc (d ∷ ds) h =
    let (acc', ha, h') = >>=-eq-ok (add_u128 acc d.principal) _ h in
    omega (arith, add_u128-eq-ok acc d.principal ha, sum_from-eq acc' ds h')

count_if-eq-ok :
    (b : Bool) (rest : Result ℕ) {n : ℕ}
    → count_if b rest ≡ ok n
    → ((b ≡ false) × (n ≡ 0)) ⊎ ((m : ℕ) × (b ≡ true) × (rest ≡ ok m) × (n ≡ suc m))
unfolding count_if
count_if-eq-ok true rest h = let (m, hm, h') = >>=-eq-ok rest _ h in inr (m, refl, hm, ground arith)
count_if-eq-ok false rest h = inl (refl, ground arith)

-- The split that a successful `partition_point` makes at its first deposit.
partition_step :
    (terms : Terms) (now : ℕ) (d : Deposit) (ds : List Deposit) {n : ℕ}
    → partition_point terms now (d ∷ ds) ≡ ok n
    → ((is_liquid terms now d.created_at ≡ ok false) × (n ≡ 0))
      ⊎ ((m : ℕ) × (is_liquid terms now d.created_at ≡ ok true)
          × (partition_point terms now ds ≡ ok m)
          × (n ≡ suc m))
unfolding partition_point
partition_step terms now d ds h =
    let (b, hb, h') = >>=-eq-ok (is_liquid terms now d.created_at) _ h in
    elim (count_if-eq-ok b (partition_point terms now ds) h') [
      | inl (e, z) ↦ inl (cc, z)
      | inr (m, e, hm, z) ↦ inr (m, cc, hm, z)
    ]

partition_point-le :
    (terms : Terms) (now : ℕ) (ds : List Deposit) {n : ℕ}
    → partition_point terms now ds ≡ ok n
    → n ≤ length ds
partition_point-le terms now [] h = unfold partition_point in ground arith
partition_point-le terms now (d ∷ ds) h = elim (partition_step terms now d ds h) [
  | inl (_, z) ↦ omega arith
  | inr (m, _, hm, z) ↦ omega (arith, partition_point-le terms now ds hm)
]

-- Every deposit before the index is liquid; the next one, if there is one, is not.
partition_point-liquid :
    (terms : Terms) (now : ℕ) (ds : List Deposit) {n : ℕ}
    → partition_point terms now ds ≡ ok n
    → All (λ d. is_liquid terms now d.created_at ≡ ok true) (take n ds)
partition_point-liquid terms now [] {n} h =
    let e : n ≡ 0 = unfold partition_point in ground arith in rw e tt
partition_point-liquid terms now (d ∷ ds) h = elim (partition_step terms now d ds h) [
  | inl (_, z) ↦ rw z tt
  | inr (m, l, hm, z) ↦ rw z (l, partition_point-liquid terms now ds hm)
]

balance_of_index :
    (ds : List Deposit) (n sum : ℕ)
    → sum_from 0 (take n ds) ≡ ok sum
    → sum ≡ principal_sum (take n ds)
balance_of_index ds n sum h = omega (arith, sum_from-eq 0 (take n ds) h)

-- The liquid balance is the principal of the deposits before the index.
pub get_liquid_balance_lem :
    (jar : Jar) (terms : Terms) (now : ℕ) {b : ℕ × ℕ}
    → get_liquid_balance jar terms now ≡ ok b
    → (b.0 ≡ principal_sum (take b.1 jar.deposits)) × (b.1 ≤ length jar.deposits)
unfolding get_liquid_balance
get_liquid_balance_lem jar terms now {b} h = elim (Bool-cases (allows_early_withdrawal terms)) [
  | inl early ↦
      let (sum, hs, h') = >>=-eq-ok (sum_from 0 jar.deposits) _ (rw early at h) in
      let e : b ≡ (sum, length jar.deposits) = cc in
      rw (e, take-length) (omega (arith, sum_from-eq 0 jar.deposits hs), omega arith)
  | inr locked ↦
      let (n, hn, h1) = >>=-eq-ok (partition_point terms now jar.deposits) _ (rw locked at h) in
      let (sum, hs, h2) = >>=-eq-ok (sum_from 0 (take n jar.deposits)) _ h1 in
      let e : b ≡ (sum, n) = cc in
      rw e (balance_of_index jar.deposits n sum hs, partition_point-le terms now jar.deposits hn)
]

clean_up_deposits_lem :
    (jar : Jar) (n : ℕ)
    → n ≤ length jar.deposits
    → clean_up_deposits jar n ≡ ok (record jar { deposits = drop n jar.deposits })
unfolding clean_up_deposits
clean_up_deposits_lem jar n le = ground (arith, drop-length jar.deposits)

-- Once a liquid balance is computed, cleaning up by its index succeeds, also after later deposits
-- were pushed to the jar; it leaves exactly the deposits behind the index and the later ones, and
-- the balance and what is left make up the principal.
pub clean_up_liquid :
    (jar : Jar) (terms : Terms) (now : ℕ) (later : List Deposit) {b : ℕ × ℕ}
    → get_liquid_balance jar terms now ≡ ok b
    → let left = drop b.1 jar.deposits ++ later in
      (clean_up_deposits (record jar { deposits = jar.deposits ++ later }) b.1
        ≡ ok (record jar { deposits = left }))
      × (b.0 + principal_sum left ≡ principal_sum (jar.deposits ++ later))
clean_up_liquid jar terms now later {b} h =
    let (sum, le) = get_liquid_balance_lem jar terms now h in
    let whole = take-append-drop b.1 jar.deposits in
    let enough : b.1 ≤ length (jar.deposits ++ later) =
      omega (arith, length-append jar.deposits later) in
    (
      clean_up_deposits_lem (record jar { deposits = jar.deposits ++ later }) b.1 enough
          ∙ ap (λ ds. ok (record jar { deposits = ds }))
              (drop-append_of_le b.1 jar.deposits later le),
      omega (
        arith,
        sum,
        principal_sum-append (drop b.1 jar.deposits) later,
        principal_sum-append jar.deposits later,
        principal_sum-append (take b.1 jar.deposits) (drop b.1 jar.deposits),
        ap principal_sum whole,
      ),
    )
