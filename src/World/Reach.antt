-- ===== src/World/Reach.antt =====
-- What holds in every state that the contract reaches from its initial one.
use sweat_jar.Base.{
  All-pick, ℕ, ◌+◌, sym, subst, ◌≤◌, ◌<◌, ◌≡◌, some, ok, All, All-map, All-append, String, take,
  drop,
}
use sweat_jar.Base.Dict.{lookup, All-lookup}
use sweat_jar.Base.Ensures.{outcome}
use sweat_jar.Account.{Account}
use sweat_jar.Jar.{Jar, partition_point}
use sweat_jar.Jar.Maturity.{partition_point-exact}
use sweat_jar.Product.{Terms, get_lockup_term}
use sweat_jar.Contract.{get_account}
use sweat_jar.Invariant.{IsJar, IsContract, IsContract-later, get_account-IsAccount}
use sweat_jar.Invariant.Rollback.{IsRollback-later}
use sweat_jar.World.{
  World, Callback, Step, called, resolved, lost, passed, Steps, still, more, after_claim_due,
  after_withdraw_due, after_bulk_withdraw_due, after_transfer_remainder_due,
  after_fee_withdrawn_due,
}
use sweat_jar.World.Sound.{IsCallback, IsHandled, handle-IsHandled, resolve-IsContract}

abbrev pub IsWorld : World → Type 0
IsWorld w = IsContract w.now w.contract × All (IsCallback w.now) w.pending

IsCallback-later :
    (now later : ℕ) (due : Callback) → now ≤ later → IsCallback now due → IsCallback later due
IsCallback-later now later (after_claim_due call) le h =
    IsRollback-later now later call.account_rollback le h
IsCallback-later now later (after_withdraw_due _) le h = tt
IsCallback-later now later (after_bulk_withdraw_due _) le h = tt
IsCallback-later now later (after_transfer_remainder_due _) le h = tt
IsCallback-later now later (after_fee_withdrawn_due _) le h = tt

Step-IsWorld : {w w' : World} → Step w w' → IsWorld w → IsWorld w'
Step-IsWorld (called w env call c due time trusted done) (h, pending) =
    let h' = subst (λ t. IsContract t w.contract) (sym time) h in
    let handled = handle-IsHandled env w.contract call h' trusted done in
    let (sound, new) = subst (λ t. IsHandled t (c, due)) time handled in
    (sound, All-append (IsCallback w.now) due w.pending new pending)
Step-IsWorld (resolved c c' now front back due success done) (h, pending) =
    let (hd, rest) = All-pick (IsCallback now) front due back pending in
    (outcome _ (resolve-IsContract c now due success h hd) done, rest)
Step-IsWorld (lost c now front back due success why failed) (h, pending) =
    let (_, rest) = All-pick (IsCallback now) front due back pending in (h, rest)
Step-IsWorld (passed w later le) (h, pending) = (
  IsContract-later w.now later w.contract le h,
  All-map (λ due hd. IsCallback-later w.now later due le hd) w.pending pending,
)

-- Whatever calls, callbacks (with either outcome of their transfer, in any order) and waiting lead
-- from a sound state they lead to a sound one: every account has one jar for a product, every jar
-- holds its deposits in the order of their times, no deposit, cache or score is from the future,
-- the flags are a byte, and every pending claim can be rolled back to such a state.
pub Steps-IsWorld : {w w' : World} → Steps w w' → IsWorld w → IsWorld w'
Steps-IsWorld (still w) h = h
Steps-IsWorld (more steps step) h = Step-IsWorld step (Steps-IsWorld steps h)

-- In every state reached from a sound one, for a jar of any account and terms with a lockup,
-- `get_liquid_balance` finds its index, which parts the deposits that have outlived the lockup
-- from those that have not.
pub partition_point-reachable :
    {w w' : World} (id product_id : String) (a : Account) (jar : Jar) (terms : Terms) (lockup : ℕ)
    → Steps w w'
    → IsWorld w
    → get_account w'.contract id ≡ ok a
    → lookup product_id a.jars ≡ some jar
    → get_lockup_term terms ≡ some lockup
    → (n : ℕ) × (partition_point terms w'.now jar.deposits ≡ ok n)
      × All (λ d. d.created_at + lockup < w'.now) (take n jar.deposits)
      × All (λ d. w'.now ≤ d.created_at + lockup) (drop n jar.deposits)
partition_point-reachable {w} {w'} id product_id a jar terms lockup steps h found listed hl =
    let (sound, _) = Steps-IsWorld steps h in
    let ha = outcome _ (get_account-IsAccount w'.now w'.contract id sound) found in
    let hj = All-lookup (IsJar w'.now) product_id a.jars ha.1 listed in
    partition_point-exact terms w'.now lockup jar.deposits hl hj.0.0 hj.0.1
