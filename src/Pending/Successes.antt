-- ===== src/Pending/Successes.antt =====
-- The callback of a successful transfer (contract/src/feature, the `#[private]` functions).
use sweat_jar.Base.{
  ℕ, ◌+◌, ◌≤◌, ◌<◌, ◌≡◌, ◌≢◌, refl, sym, ap, ◌∙◌, false, Bool-cases, inl, inr, some, List, [], ◌∷◌,
  ok, String, str_eq, eq_iff, arith, All, All-map, length, length-append, ltb, ◌==◌, some-injective,
  add_u128-of_lt, u128_mod, drop, or_panic, or_panic-eq-ok, jar_not_found, ◌-◌, sub_checked-of_le,
}
use sweat_jar.Base.Dict.{Dict, lookup, insert, lookup-insert, lookup-insert_ne, lookup-remove}
use sweat_jar.Base.Ensures.{Ensures, returns, after}
use sweat_jar.Jar.{Deposit, Jar, JarCompanion, clean_up_deposits, should_close}
use sweat_jar.Jar
use sweat_jar.Account.{Account, get_jar, put_jar}
use sweat_jar.Contract.{Contract}
use sweat_jar.Withdraw.{
  WithdrawalRequest, BulkWithdrawView, new_view, close_or_keep, clean_up, clean_up_requested,
  view_requests,
}
use sweat_jar.Withdraw.Bulk.{amounts, fees}
use sweat_jar.Restake.{clean_up_partitions, unlock_partitions}
use sweat_jar.Claim.{unlock_claimed, release_jar}
use sweat_jar.Held.Slots.{request_slots, claim_slots}
use sweat_jar.Ledger.Partitions.{IsDistinct}
use sweat_jar.Pending.{IsCounted}

-- The jar is there, with as many deposits as are counted on.
abbrev pub HasFront : Dict Jar → String × ℕ → Type 0
HasFront jars s = (jar : Jar) × (lookup s.0 jars ≡ some jar) × (s.1 ≤ length jar.deposits)

pub counted_fronts :
    (c : Contract) (id : String) {a : Account} (ps : List (String × ℕ)) (total : ℕ)
    → lookup id c.accounts ≡ some a
    → IsCounted c id ps total
    → All (HasFront a.jars) ps
counted_fronts c id [] total found h = tt
counted_fronts c id {a} ((p, n) ∷ ps) total found
      (front, rest, (a', found', (jar, listed, (_, (back, e)))), len, sum, h) =
    (
      (
        jar,
        ap (λ b. lookup p b.jars) (some-injective a a' (sym found ∙ found')) ∙ listed,
        omega (arith, len, ap length e, length-append front back),
      ),
      counted_fronts c id ps rest found h,
    )

-- A change of one jar leaves the others.
other_fronts :
    (p : String) (jars jars' : Dict Jar) (ps : List (String × ℕ))
    → ((k : String) → p ≢ k → lookup k jars' ≡ lookup k jars)
    → All (λ e. e.0 ≢ p) ps
    → All (HasFront jars) ps
    → All (HasFront jars') ps
other_fronts p jars jars' [] same others h = tt
other_fronts p jars jars' (s ∷ ps) same (other, others) ((jar, e, le), h) =
    ((jar, same s.0 (λ z. other (sym z)) ∙ e, le), other_fronts p jars jars' ps same others h)

closed_others :
    (a : Account) (p : String) (jar : Jar) (k : String)
    → p ≢ k
    → lookup k (close_or_keep a p jar).jars ≡ lookup k a.jars
unfolding close_or_keep put_jar
closed_others a p jar k other = elim (Bool-cases (should_close jar)) [
  | inl closes ↦ rw closes (ground (arith, lookup-remove p k a.jars, eq_iff p k))
  | inr stays ↦ rw stays (lookup-insert_ne p k jar a.jars other)
]

pub clean_up_deposits-returns :
    (jar : Jar) (n : ℕ)
    → n ≤ length jar.deposits
    → (jar' : Jar) × (clean_up_deposits jar n ≡ ok jar')
unfolding clean_up_deposits
clean_up_deposits-returns jar n le = elim (Bool-cases (n == length jar.deposits)) [
  | inl all ↦ (record jar { deposits = [] }, rw all refl)
  | inr some_left ↦
      let within : ltb (length jar.deposits) n ≡ false = ground arith in
      (record jar { deposits = drop n jar.deposits }, rw (some_left, within) refl)
]

pub clean_up_partitions-returns :
    (ps : List (String × ℕ)) (a : Account)
    → IsDistinct ps
    → All (HasFront a.jars) ps
    → (a' : Account) × (clean_up_partitions a ps ≡ ok a') × (a'.nonce ≡ a.nonce)
unfolding clean_up_partitions get_jar put_jar
clean_up_partitions-returns [] a distinct h = (a, refl, refl)
clean_up_partitions-returns ((p, n) ∷ ps) a (others, distinct) ((jar, e, le), h) =
    let (jar', done) = clean_up_deposits-returns jar n le in
    let fronts : All (HasFront (insert p jar' a.jars)) ps =
      other_fronts p a.jars _ ps (λ k other. lookup-insert_ne p k jar' a.jars other) others h in
    rw (e, done) (clean_up_partitions-returns ps (put_jar a p jar') distinct fronts)

pub clean_up_requested-returns :
    (rs : List WithdrawalRequest) (a : Account) (collected : ℕ)
    → IsDistinct (request_slots rs)
    → All (HasFront a.jars) (request_slots rs)
    → collected + fees rs < u128_mod
    → (r : Account × ℕ) × (clean_up_requested a collected rs ≡ ok r)
unfolding clean_up_requested clean_up get_jar
clean_up_requested-returns [] a collected distinct h fits = (_, refl)
clean_up_requested-returns (r ∷ rs) a collected (others, distinct) ((jar, e, le), h) fits =
    let (jar', done) = clean_up_deposits-returns jar r.partition_index le in
    let a' = close_or_keep a r.product_id jar' in
    let fronts : All (HasFront a'.jars) (request_slots rs) =
      other_fronts r.product_id a.jars _ (request_slots rs) (closed_others a r.product_id jar')
        others h in
    let added = add_u128-of_lt collected r.withdrawal.fee (omega arith) in
    rw (added, e, done)
      (clean_up_requested-returns rs a' (collected + r.withdrawal.fee) distinct fronts
        (omega arith))

pub view_requests-returns :
    (rs : List WithdrawalRequest) (acc : BulkWithdrawView)
    → All (λ r. r.withdrawal.fee ≤ r.withdrawal.amount) rs
    → acc.total_amount + amounts rs < u128_mod
    → (v : BulkWithdrawView) × (view_requests acc rs ≡ ok v)
unfolding view_requests new_view
view_requests-returns [] acc covered small = (acc, refl)
view_requests-returns (r ∷ rs) acc (le, covered) small =
    let w = r.withdrawal in
    let net = sub_checked-of_le w.amount w.fee le in
    let added = add_u128-of_lt acc.total_amount (w.amount - w.fee) (omega arith) in
    rw (net, added) (view_requests-returns rs _ covered (omega arith))

pub unlock_claimed-returns :
    (jars : Dict JarCompanion) (a : Account)
    → IsDistinct (claim_slots jars)
    → All (HasFront a.jars) (claim_slots jars)
    → (a' : Account) × (unlock_claimed a jars ≡ ok a')
unfolding unlock_claimed release_jar close_or_keep get_jar
unlock_claimed-returns [] a distinct h = (a, refl)
unlock_claimed-returns ((p, change) ∷ jars) a (others, distinct) ((jar, e, le), h) =
    let jar' = Jar.unlock jar in
    let a' = close_or_keep a p jar' in
    let fronts : All (HasFront a'.jars) (claim_slots jars) =
      other_fronts p a.jars _ (claim_slots jars) (closed_others a p jar') others h in
    rw e (unlock_claimed-returns jars a' distinct fronts)

-- Unlocking leaves the deposits.
unlocked_fronts :
    (p : String) (jar : Jar) (jars : Dict Jar) (s : String × ℕ)
    → lookup p jars ≡ some jar
    → HasFront jars s
    → HasFront (insert p (Jar.unlock jar) jars) s
unfolding Jar.unlock
unlocked_fronts p jar jars s e (jar0, e0, le) = elim (Bool-cases (str_eq p s.0)) [
  | inl same ↦
      let z : p ≡ s.0 = (eq_iff p s.0).0 same in
      let y : jar ≡ jar0 = some-injective jar jar0 (sym e ∙ ap (λ k. lookup k jars) z ∙ e0) in
      (
        Jar.unlock jar,
        rw (lookup-insert p s.0 (Jar.unlock jar) jars, same) refl,
        omega (arith, ap (λ j. length j.deposits) y),
      )
  | inr other ↦ (jar0, rw (lookup-insert p s.0 (Jar.unlock jar) jars, other) e0, le)
]

pub unlock_partitions-fronts :
    (ps qs : List (String × ℕ)) (a : Account)
    → All (HasFront a.jars) qs
    → Ensures (λ a'. All (HasFront a'.jars) qs × (a'.nonce ≡ a.nonce)) (unlock_partitions a ps)
unfolding unlock_partitions get_jar put_jar
unlock_partitions-fronts [] qs a h = returns a (h, refl)
unlock_partitions-fronts ((p, n) ∷ ps) qs a h =
    after (or_panic (lookup p a.jars) jar_not_found) _ λ jar hj.
      let e = or_panic-eq-ok (lookup p a.jars) jar_not_found hj in
      unlock_partitions-fronts ps qs (put_jar a p (Jar.unlock jar))
        (All-map (λ s. unlocked_fronts p jar a.jars s e) qs h)
