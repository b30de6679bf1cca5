-- ===== src/Pending/Failures.antt =====
-- The callback of a failed transfer (contract/src/feature, the `#[private]` functions).
use sweat_jar.Base.{
  ℕ, ◌≡◌, ◌≢◌, refl, sym, ap, ◌∙◌, false, Bool-cases, inl, inr, Option, none, some, List, [], ◌∷◌,
  ◌++◌, Result, ok, panic, ◌>>=◌, String, str_eq, All, All-map, All-pick, some-injective, add_u128,
  subst,
}
use sweat_jar.Base.Dict.{Dict, lookup, insert, lookup-insert, lookup-insert_self}
use sweat_jar.Base.Ensures.{Ensures, returns, after, weaken, outcome}
use sweat_jar.Jar.{Jar, JarCompanion}
use sweat_jar.Jar
use sweat_jar.Account.{Account, AccountCompanion, get_jar, put_jar, apply_jars, apply_companions}
use sweat_jar.Account
use sweat_jar.Contract.{Contract, get_account, put_account}
use sweat_jar.Claim.{after_claim}
use sweat_jar.Withdraw.{WithdrawalRequest, unlock_requested, after_bulk_withdraw}
use sweat_jar.Withdraw.Conservation.{after_withdraw-failure}
use sweat_jar.Restake.{unlock_partitions, withdrawn_amount, after_transfer_remainder}
use sweat_jar.Fees.{after_fee_withdrawn}
use sweat_jar.World.{
  World, Callback, resolve, after_claim_due, after_withdraw_due, after_bulk_withdraw_due,
  after_transfer_remainder_due, after_fee_withdrawn_due,
}
use sweat_jar.World.Reach.{IsWorld}
use sweat_jar.Held.Slots.{slots_of, owner_of, claim_slots, rollback_slots, request_slots}
use sweat_jar.Pending.{IsCounted, IsPending, IsCounted-IsHeld}
use sweat_jar.Pending.Steps.{IsBacked, FairSteps, FairSteps-IsBacked}

abbrev pub HasJar : Dict Jar → String × ℕ → Type 0
HasJar jars s = (jar : Jar) × (lookup s.0 jars ≡ some jar)

-- The jar is there, and not locked.
abbrev IsFree : Dict Jar → String × ℕ → Type 0
IsFree jars s = (jar : Jar) × (lookup s.0 jars ≡ some jar) × (jar.is_locked ≡ false)

insert-HasJar :
    (jars : Dict Jar) (j : String) (jar' : Jar) (s : String × ℕ)
    → HasJar jars s
    → HasJar (insert j jar' jars) s
insert-HasJar jars j jar' s (jar, e) = elim (Bool-cases (str_eq j s.0)) [
  | inl same ↦ (jar', rw (lookup-insert j s.0 jar' jars, same) refl)
  | inr other ↦ (jar, rw (lookup-insert j s.0 jar' jars, other) e)
]

insert-IsFree :
    (jars : Dict Jar) (j : String) (jar' : Jar) (s : String × ℕ)
    → jar'.is_locked ≡ false
    → IsFree jars s
    → IsFree (insert j jar' jars) s
insert-IsFree jars j jar' s free (jar, e, h) = elim (Bool-cases (str_eq j s.0)) [
  | inl same ↦ (jar', rw (lookup-insert j s.0 jar' jars, same) refl, free)
  | inr other ↦ (jar, rw (lookup-insert j s.0 jar' jars, other) e, h)
]

-- The account of a callback that counts on jars.
pub counted_account :
    (c : Contract) (id : String) (ps : List (String × ℕ)) (total : ℕ)
    → ps ≢ []
    → IsCounted c id ps total
    → (a : Account) × (get_account c id ≡ ok a) × All (HasJar a.jars) ps
unfolding get_account
counted_account c id [] total some_jar h = absurd (some_jar refl)
counted_account c id (p ∷ ps) total some_jar h =
    let held = IsCounted-IsHeld c id (p ∷ ps) total h in
    let (a, found, _) = held.0.1 in
    (
      a,
      rw found refl,
      All-map
          (λ s (front, (a', found', (jar, listed, _))).
            (jar, ap (λ b. lookup s.0 b.jars) (some-injective a a' (sym found ∙ found')) ∙ listed))
          (p ∷ ps) held,
    )

unlock_partitions-frees :
    (ps : List (String × ℕ)) (a : Account)
    → Ensures
        (λ a'. ((s : String × ℕ) → IsFree a.jars s → IsFree a'.jars s) × All (IsFree a'.jars) ps)
        (unlock_partitions a ps)
unfolding unlock_partitions put_jar Jar.unlock
unlock_partitions-frees [] a = returns a ((λ s h. h), tt)
unlock_partitions-frees ((p, n) ∷ ps) a = after (get_jar a p) _ λ jar _.
    let jar' = Jar.unlock jar in
    weaken
      (λ a' (keeps, free). (
        (λ s h. keeps s (insert-IsFree a.jars p jar' s refl h)),
        (keeps (p, n) (jar', lookup-insert_self p jar' a.jars, refl), free),
      ))
      (unlock_partitions-frees ps (put_jar a p jar'))

pub unlock_partitions-returns :
    (ps : List (String × ℕ)) (a : Account)
    → All (HasJar a.jars) ps
    → (a' : Account) × (unlock_partitions a ps ≡ ok a')
unfolding unlock_partitions get_jar put_jar
unlock_partitions-returns [] a h = (a, refl)
unlock_partitions-returns ((p, n) ∷ ps) a ((jar, e), h) =
    let jar' = Jar.unlock jar in
    let listed = All-map (λ s. insert-HasJar a.jars p jar' s) ps h in
    rw e (unlock_partitions-returns ps (put_jar a p jar') listed)

bind_same :
    {A B : Type 0} (m : Result A) (f g : A → Result B)
    → ((a : A) → f a ≡ g a)
    → (m >>= f) ≡ (m >>= g)
bind_same (ok a) f g h = h a
bind_same (panic why) f g h = refl

-- Both unlock the same jars.
pub unlock_requested-lem :
    (rs : List WithdrawalRequest) (a : Account)
    → unlock_requested a rs ≡ unlock_partitions a (request_slots rs)
unfolding unlock_requested unlock_partitions
unlock_requested-lem [] a = refl
unlock_requested-lem (r ∷ rs) a =
    bind_same (get_jar a r.product_id) _ _ λ jar. unlock_requested-lem rs _

apply_jars-returns :
    (cs : Dict JarCompanion) (jars : Dict Jar)
    → All (HasJar jars) (claim_slots cs)
    → (jars' : Dict Jar) × (apply_jars jars cs ≡ ok jars')
unfolding apply_jars
apply_jars-returns [] jars h = (jars, refl)
apply_jars-returns ((p, change) ∷ cs) jars ((jar, e), h) =
    let jar' = Jar.apply jar change in
    let listed = All-map (λ s. insert-HasJar jars p jar' s) (claim_slots cs) h in
    rw e (apply_jars-returns cs (insert p jar' jars) listed)

apply_companions-returns :
    (o : Option (Dict JarCompanion)) (jars : Dict Jar)
    → All (HasJar jars) (rollback_slots o)
    → (jars' : Dict Jar) × (apply_companions jars o ≡ ok jars')
unfolding apply_companions
apply_companions-returns none jars listed = (jars, refl)
apply_companions-returns (some cs) jars listed = apply_jars-returns cs jars listed

map_returns :
    {A B : Type 0} (m : Result A) (f : A → B) {a : A}
    → m ≡ ok a
    → (b : B) × ((m >>= λ x. ok (f x)) ≡ ok b)
map_returns m f {a} e = (f a, rw e refl)

apply-returns :
    (a : Account) (r : AccountCompanion)
    → All (HasJar a.jars) (rollback_slots r.new_jars)
    → (a' : Account) × (Account.apply a r ≡ ok a')
unfolding Account.apply
apply-returns a r listed =
    let (jars, done) = apply_companions-returns r.new_jars a.jars listed in map_returns _ _ done

pub cons_not_nil : (s : String × ℕ) (ps : List (String × ℕ)) → s ∷ ps ≢ []
cons_not_nil s ps e = cc

-- What the callback of a failed transfer asks for: a jar to give back, an amount of a restake that can be
-- computed (it is when the restake starts), collected fees that are a u128 with those that come back.
abbrev pub IsUndoable : Contract → Callback → Type 0
IsUndoable c (after_withdraw_due call) = Unit
IsUndoable c (after_transfer_remainder_due r) =
    (r.partitions ≢ []) × ((n : ℕ) × (withdrawn_amount r.withdrawal ≡ ok n))
IsUndoable c (after_fee_withdrawn_due amount) = (n : ℕ) × (add_u128 c.fee_amount amount ≡ ok n)
IsUndoable c due = slots_of due ≢ []

-- The jars of a withdrawal or a restake are free again.
abbrev pub IsReleased : Contract → Callback → Type 0
IsReleased c (after_claim_due call) = Unit
IsReleased c (after_fee_withdrawn_due amount) = Unit
IsReleased c due =
    (a : Account) × (get_account c (owner_of due) ≡ ok a) × All (IsFree a.jars) (slots_of due)

stored :
    (c : Contract) (id : String) (a : Account) (ps : List (String × ℕ))
    → All (IsFree a.jars) ps
    → (b : Account) × (get_account (put_account c id a) id ≡ ok b) × All (IsFree b.jars) ps
unfolding get_account put_account
stored c id a ps h = (a, rw (lookup-insert_self id a c.accounts) refl, h)

-- All of the callback's jars are unlocked.
unlocked_account :
    (c : Contract) (id : String) (ps : List (String × ℕ)) (total : ℕ)
    → ps ≢ []
    → IsCounted c id ps total
    → (a : Account) × (get_account c id ≡ ok a)
      × ((a' : Account) × (unlock_partitions a ps ≡ ok a') × All (IsFree a'.jars) ps)
unlocked_account c id ps total some_jar h =
    let (a, found, listed) = counted_account c id ps total some_jar h in
    let (a', done) = unlock_partitions-returns ps a listed in
    (a, found, (a', done, (outcome _ (unlock_partitions-frees ps a) done).1))

abbrev IsUndone : Contract → ℕ → Callback → Type 0
IsUndone c now due = (c' : Contract) × (resolve c now due false ≡ ok c') × IsReleased c' due

IsPending-IsUndone :
    (c : Contract) (now : ℕ) (due : Callback)
    → IsUndoable c due
    → IsPending c due
    → IsUndone c now due
unfolding resolve after_claim after_bulk_withdraw after_transfer_remainder after_fee_withdrawn
    get_jar put_jar Jar.unlock
IsPending-IsUndone c now (after_claim_due call) some_jar (_, counted) =
    let r = call.account_rollback in
    let (a, found, listed) =
      counted_account c call.account_id (rollback_slots r.new_jars) _ some_jar counted in
    let (a', done) = apply-returns a r listed in
    (put_account c call.account_id a', rw (found, done) refl, tt)
IsPending-IsUndone c now (after_withdraw_due call) _ (_, counted) =
    let p = call.request.product_id in
    let (a, found, ((jar, listed), _)) =
      counted_account c call.account_id _ _ (cons_not_nil _ []) counted in
    let a' = put_jar a p (Jar.unlock jar) in
    (
      put_account c call.account_id a',
      rw (after_withdraw-failure c call {jar = jar} found (rw listed refl)) refl,
      stored c call.account_id a' (slots_of (after_withdraw_due call))
          ((Jar.unlock jar, lookup-insert_self p (Jar.unlock jar) a.jars, refl), tt),
    )
IsPending-IsUndone c now (after_bulk_withdraw_due call) some_jar (_, counted) =
    let (a, found, (a', done, free)) =
      unlocked_account c call.account_id (request_slots call.requests) _ some_jar counted in
    (
      put_account c call.account_id a',
      rw (found, unlock_requested-lem call.requests a, done) refl,
      stored c call.account_id a' _ free,
    )
IsPending-IsUndone c now (after_transfer_remainder_due r) (some_jar, (n, e)) (_, counted) =
    let (a, found, (a', done, free)) =
      unlocked_account c r.account_id r.partitions _ some_jar counted in
    (put_account c r.account_id a', rw (e, found, done) refl, stored c r.account_id a' _ free)
IsPending-IsUndone c now (after_fee_withdrawn_due amount) (n, e) _ =
    (record c { fee_amount = n }, rw e refl, tt)

-- The callback of a failed transfer returns. Through any calls (the maintainer's unlocking of jars excepted,
-- and the list of products of a `withdraw_all`, a `HashSet` in the source, naming none twice), callbacks and
-- waiting, from a sound state whose pending callbacks are backed and whose products are listed under their
-- own ids: if the transfer of a pending callback then fails, its callback returns, and the jars of a
-- withdrawal or a restake are unlocked by it. This is provided that the callback names a jar, that the net
-- amount of a restake can be computed, and that collected fees which come back make up a u128 with the
-- others.
pub FairSteps-undone :
    {w w' : World} (front back : List Callback) (due : Callback)
    → FairSteps w w'
    → IsWorld w
    → IsBacked w
    → w'.pending ≡ front ++ due ∷ back
    → IsUndoable w'.contract due
    → (c' : Contract) × (resolve w'.contract w'.now due false ≡ ok c') × IsReleased c' due
FairSteps-undone {w} {w'} front back due steps sound backed is undoable =
    let h = subst (All (IsPending w'.contract)) is (FairSteps-IsBacked steps sound backed).0 in
    IsPending-IsUndone w'.contract w'.now due undoable
      (All-pick (IsPending w'.contract) front due back h).0
