-- ===== src/Pending/Locks.antt =====
-- The jars that a call locks for its callback (contract/src/feature/withdraw, restake).
use sweat_jar.Base.{
  ℕ, ◌≤◌, ◌≡◌, refl, sym, ap, ◌∙◌, true, Bool-cases, inl, inr, some, List, [], ◌∷◌, arith, String,
  All, str_eq, length, take, drop, take-append-drop, zero, suc,
}
use sweat_jar.Base.Dict.{lookup, lookup-insert, lookup-insert_self}
use sweat_jar.Base.Ensures.{Ensures, returns, after, weaken}
use sweat_jar.Jar.{Deposit, Jar}
use sweat_jar.Jar
use sweat_jar.Jar.Liquid.{principal_sum}
use sweat_jar.Account.{Account, get_jar, put_jar}
use sweat_jar.Contract.{Contract}
use sweat_jar.Withdraw.{WithdrawalRequest, lock_requested}
use sweat_jar.Restake.{lock_partitions}
use sweat_jar.Book.{jar_page}
use sweat_jar.Held.Slots.{request_slots}
use sweat_jar.Ledger.Partitions.{covered, IsBounded, IsListed}
use sweat_jar.Ledger.Pages.{IsSame, put_jar-IsSame, IsSame-trans}
use sweat_jar.Pending.{IsCounted}

-- The listed jars are there, and locked.
abbrev pub IsReady : List (String × ℕ) → Account → Type 0
IsReady ps a = All (λ e. (jar : Jar) × (lookup e.0 a.jars ≡ some jar) × (jar.is_locked ≡ true)) ps

put_locked-IsReady :
    (ps : List (String × ℕ)) (a : Account) (j : String) (jar' : Jar)
    → jar'.is_locked ≡ true
    → IsReady ps a
    → IsReady ps (put_jar a j jar')
unfolding put_jar
put_locked-IsReady [] a j jar' locked h = tt
put_locked-IsReady (e ∷ ps) a j jar' locked ((jar, found, is), h) = (
  elim (Bool-cases (str_eq j e.0)) [
    | inl same ↦ (jar', rw (lookup-insert j e.0 jar' a.jars, same) refl, locked)
    | inr other ↦ (jar, rw (lookup-insert j e.0 jar' a.jars, other) found, is)
  ],
  put_locked-IsReady ps a j jar' locked h,
)

put_locked-lookup :
    (a : Account) (j : String) (jar' : Jar)
    → jar'.is_locked ≡ true
    → (jar : Jar) × (lookup j (put_jar a j jar').jars ≡ some jar) × (jar.is_locked ≡ true)
unfolding put_jar
put_locked-lookup a j jar' locked = (jar', lookup-insert_self j jar' a.jars, locked)

pub lock_partitions-IsReady :
    (ps qs : List (String × ℕ)) (a : Account)
    → IsReady qs a
    → Ensures (λ b. IsSame a b × IsReady ps b × IsReady qs b) (lock_partitions a ps)
unfolding lock_partitions Jar.lock
lock_partitions-IsReady [] qs a h = returns a ((λ _. refl, refl, λ u. u), tt, h)
lock_partitions-IsReady ((id, n) ∷ ps) qs a h = after (get_jar a id) _ λ jar e.
    let a' = put_jar a id (Jar.lock jar) in
    weaken
      (λ b (same, ready, (one, rest)).
        (IsSame-trans a a' b (put_jar-IsSame a id (Jar.lock jar) e refl) same, (one, ready), rest))
      (lock_partitions-IsReady ps ((id, n) ∷ qs) a' (
        put_locked-lookup a id (Jar.lock jar) refl,
        put_locked-IsReady qs a id (Jar.lock jar) refl h,
      ))

pub lock_requested-IsReady :
    (rs : List WithdrawalRequest) (qs : List (String × ℕ)) (a : Account)
    → IsReady qs a
    → Ensures (λ b. IsSame a b × IsReady (request_slots rs) b × IsReady qs b) (lock_requested a rs)
unfolding lock_requested Jar.lock
lock_requested-IsReady [] qs a h = returns a ((λ _. refl, refl, λ u. u), tt, h)
lock_requested-IsReady (r ∷ rs) qs a h = after (get_jar a r.product_id) _ λ jar e.
    let id = r.product_id in
    let a' = put_jar a id (Jar.lock jar) in
    weaken
      (λ b (same, ready, (one, rest)).
        (IsSame-trans a a' b (put_jar-IsSame a id (Jar.lock jar) e refl) same, (one, ready), rest))
      (lock_requested-IsReady rs ((id, r.partition_index) ∷ qs) a' (
        put_locked-lookup a id (Jar.lock jar) refl,
        put_locked-IsReady qs a id (Jar.lock jar) refl h,
      ))

pub length-take : (n : ℕ) (ds : List Deposit) → n ≤ length ds → length (take n ds) ≡ n
length-take zero ds h = refl
length-take (suc n) [] h = omega arith
length-take (suc n) (d ∷ ds) h = ap suc (length-take n ds (omega arith))

-- Jars that are locked with the counted deposits at their front.
pub ready-IsCounted :
    (pages : String → List Deposit) (c : Contract) (id : String) (b : Account)
    (ps : List (String × ℕ)) (total : ℕ)
    → lookup id c.accounts ≡ some b
    → IsListed pages ps b
    → IsBounded pages ps
    → covered pages ps ≡ total
    → IsReady ps b
    → IsCounted c id ps total
unfolding covered jar_page
ready-IsCounted pages c id b [] total found listed bounds sum ready = sym sum
ready-IsCounted pages c id b ((p, n) ∷ ps) total found (page, listed) (bound, bounds) sum
      ((jar, has, locked), ready) =
    let deposits : jar.deposits ≡ pages p = ap jar_page (sym has) ∙ page in
    let front = take n jar.deposits in
    (
      front,
      covered pages ps,
      (
        b,
        found,
        (jar, has, (locked, (drop n jar.deposits, sym (take-append-drop n jar.deposits)))),
      ),
      length-take n jar.deposits (omega (arith, ap length deposits)),
      omega (arith, sum, ap (λ ds. principal_sum (take n ds)) deposits),
      ready-IsCounted pages c id b ps (covered pages ps) found listed bounds refl ready,
    )
