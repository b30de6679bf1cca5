-- ===== src/Pending/Steps.antt =====
-- Runs of the contract in which no jar is unlocked by the maintainer's hand.
use sweat_jar.Base.{
  ℕ, ◌+◌, ◌≡◌, refl, sym, subst, Bool, if◌then◌else◌, Option, none, some, List, [], ◌∷◌, ◌++◌, ok,
  arith, All, All-map, All-All, All-pick,
}
use sweat_jar.Base.Dict.{Dict}
use sweat_jar.Base.Ensures.{outcome}
use sweat_jar.Jar.{JarCompanion}
use sweat_jar.Contract.{Env, Contract}
use sweat_jar.World.{
  World, Call, Callback, handle, resolve, Step, called, resolved, lost, passed, Steps, still, more,
  after_claim_due, after_withdraw_due, after_bulk_withdraw_due, after_transfer_remainder_due,
  after_fee_withdrawn_due,
}
use sweat_jar.World.Sound.{IsCallback}
use sweat_jar.World.Reach.{IsWorld, Steps-IsWorld}
use sweat_jar.Invariant.{IsContract}
use sweat_jar.Invariant.Rollback.{IsJarChange, jars_written}
use sweat_jar.Held.Slots.{slots_of, owner_of}
use sweat_jar.Held.Calls.{handle-IsHeld}
use sweat_jar.Held.Callbacks.{resolve-IsHeld}
use sweat_jar.Ledger.{principal}
use sweat_jar.Ledger.Calls.{received, handle-principal}
use sweat_jar.Ledger.Pages.{IsTame}
use sweat_jar.Ledger.Callbacks.{resolve-principal}
use sweat_jar.Ledger.Due.{IsTameCallback, counted_of, paid_out}
use sweat_jar.Pending.{
  IsPending, IsCounted-carry, IsCounted-covered, IsCounted-IsHeld, IsApart, IsApart-sym, IsSpread,
  IsSpread-pick, IsNewCallback, IsApart-Misses,
}
use sweat_jar.Catalog.Own.{IsOwn}
use sweat_jar.Pending.Owned.{handle-IsOwn, resolve-IsOwn}
use sweat_jar.Pending.Calls.{IsFair, IsNew, handle-IsNew}

-- Every pending callback finds its jars locked with the deposits that it counts on, no two count on one jar,
-- and every product is listed under its own id.
abbrev pub IsBacked : World → Type 0
IsBacked w = All (IsPending w.contract) w.pending × IsSpread w.pending × IsOwn w.contract

abbrev IsFairStep : {w w' : World} → Step w w' → Type 0
IsFairStep (called w env call c due _ _ _) = IsFair call
IsFairStep (resolved c c' now front back due success _) = Unit
IsFairStep (lost c now front back due success why _) = Unit
IsFairStep (passed w later _) = Unit

pub data FairSteps : World → World → Type 0 where
  at_rest : (w : World) → FairSteps w w
  further :
      {w w' w'' : World} → FairSteps w w' → (step : Step w' w'') → IsFairStep step → FairSteps w w''

FairSteps-Steps : {w w' : World} → FairSteps w w' → Steps w w'
FairSteps-Steps (at_rest w) = still w
FairSteps-Steps (further steps step _) = more (FairSteps-Steps steps) step

call-IsPending :
    (env : Env) (c : Contract) (call : Call) {c' : Contract} {due : List Callback} (d : Callback)
    → IsContract env.now c
    → IsFair call
    → handle env c call ≡ ok (c', due)
    → IsPending c d
    → IsPending c' d
call-IsPending env c call {c'} d sound fair done (distinct, counted) = (
  distinct,
  IsCounted-carry c c' (owner_of d) (slots_of d) (counted_of d)
      (All-All _ (slots_of d) (λ e front held.
        handle-IsHeld env c call (owner_of d) e.0 front sound (fair.0 (owner_of d)) held done))
      counted,
)

-- A callback that counts on none of the jars of another one leaves them as they are counted on.
resolve-IsPending :
    (c c' : Contract) (now : ℕ) (due : Callback) (success : Bool)
    → resolve c now due success ≡ ok c'
    → (ds : List Callback) → All (IsApart due) ds
    → All (IsPending c) ds
    → All (IsPending c') ds
resolve-IsPending c c' now due success done [] apart h = tt
resolve-IsPending c c' now due success done (d ∷ ds) (apart, aparts) ((distinct, counted), h) = (
  (
    distinct,
    IsCounted-carry c c' (owner_of d) (slots_of d) (counted_of d)
        (All-map
          (λ s misses front held.
            outcome _ (resolve-IsHeld (owner_of d) s.0 front c now due success misses held) done)
          (slots_of d) (IsApart-Misses d due (IsApart-sym due d apart)))
        counted,
  ),
  resolve-IsPending c c' now due success done ds aparts h,
)

-- A new callback counts on no jar that a pending one counts on.
new-IsApart :
    (c c' : Contract) (due : Callback)
    → IsNewCallback c c' due
    → (ds : List Callback) → All (IsPending c) ds
    → All (IsApart due) ds
new-IsApart c c' due new [] h = tt
new-IsApart c c' due new (d ∷ ds) ((_, counted), h) = (
  IsApart-sym d due (λ same.
      All-map (λ s (front, held). new.1 (owner_of d) s.0 front held (sym same)) (slots_of d)
        (IsCounted-IsHeld c (owner_of d) (slots_of d) (counted_of d) counted)),
  new-IsApart c c' due new ds h,
)

called-IsBacked :
    (c c' : Contract) (due ds : List Callback)
    → IsNew c (c', due)
    → All (IsPending c) ds
    → All (IsPending c') ds
    → IsSpread ds
    → All (IsPending c') (due ++ ds) × IsSpread (due ++ ds)
called-IsBacked c c' [] ds new before after_call spread = (after_call, spread)
called-IsBacked c c' (d ∷ []) ds new before after_call spread =
    ((new.0, after_call), (new-IsApart c c' d new ds before, spread))
called-IsBacked c c' (_ ∷ _ ∷ _) ds new before after_call spread = absurd new

Step-IsBacked :
    {w w' : World} (step : Step w w') → IsFairStep step → IsWorld w → IsBacked w → IsBacked w'
Step-IsBacked (called w env call c due time _ done) fair (sound, _) (h, spread, own) =
    let sound' = subst (λ t. IsContract t w.contract) (sym time) sound in
    let (pending, spread') =
      called-IsBacked w.contract c due w.pending
        (outcome _ (handle-IsNew env w.contract sound' own call fair) done) h
        (All-map (λ d hd. call-IsPending env w.contract call d sound' fair done hd) w.pending h)
        spread in
    (pending, spread', outcome _ (handle-IsOwn env w.contract call own) done)
Step-IsBacked (resolved c c' now front back due success done) fair _ (h, spread, own) =
    let (_, rest) = All-pick (IsPending c) front due back h in
    let (apart, spread') = IsSpread-pick front due back spread in
    (
      resolve-IsPending c c' now due success done (front ++ back) apart rest,
      spread',
      outcome _ (resolve-IsOwn c now own due success) done,
    )
Step-IsBacked (lost c now front back due success why _) fair _ (h, spread, own) =
    ((All-pick (IsPending c) front due back h).1, (IsSpread-pick front due back spread).1, own)
Step-IsBacked (passed w later _) fair _ h = h

-- Pending callbacks keep what they count on. Through any calls (the maintainer's unlocking of jars excepted,
-- and the list of products of a `withdraw_all`, a `HashSet` in the source, naming none twice), callbacks and
-- waiting, from a sound state whose pending callbacks are backed and whose products are listed under their
-- own ids: each callback that is pending at the end finds its jars locked, with the deposits it was given
-- amounts for at their front, no two of them count on one jar, and the products are listed under their own
-- ids.
pub FairSteps-IsBacked : {w w' : World} → FairSteps w w' → IsWorld w → IsBacked w → IsBacked w'
FairSteps-IsBacked (at_rest w) sound h = h
FairSteps-IsBacked (further steps step fair) sound h =
    Step-IsBacked step fair (Steps-IsWorld (FairSteps-Steps steps) sound)
      (FairSteps-IsBacked steps sound h)

-- What a step brings to the contract, and what it takes out of the deposits.
unfoldable received_by : {w w' : World} → Step w w' → ℕ
received_by (called w env call c due _ _ _) = received call
received_by (resolved c c' now front back due success _) = 0
received_by (lost c now front back due success why _) = 0
received_by (passed w later _) = 0

unfoldable paid_by : {w w' : World} → Step w w' → ℕ
paid_by (called w env call c due _ _ _) = 0
paid_by (resolved c c' now front back due success _) = if success then paid_out due else 0
paid_by (lost c now front back due success why _) = 0
paid_by (passed w later _) = 0

unfoldable pub received_in : {w w' : World} → FairSteps w w' → ℕ
unfolding received_by
received_in (at_rest w) = 0
received_in (further steps step _) = received_in steps + received_by step

unfoldable pub paid_in : {w w' : World} → FairSteps w w' → ℕ
unfolding paid_by
paid_in (at_rest w) = 0
paid_in (further steps step _) = paid_in steps + paid_by step

IsTame-changes :
    (now : ℕ) (o : Option (Dict JarCompanion))
    → All (λ e. IsJarChange now e.1) (jars_written o)
    → IsTame o
IsTame-changes now none h = tt
IsTame-changes now (some changes) h = All-map (λ e change. change.0) changes h

tame_callback : (now : ℕ) (due : Callback) → IsCallback now due → IsTameCallback due
tame_callback now (after_claim_due call) h = IsTame-changes now call.account_rollback.new_jars h.0
tame_callback now (after_withdraw_due _) h = tt
tame_callback now (after_bulk_withdraw_due _) h = tt
tame_callback now (after_transfer_remainder_due _) h = tt
tame_callback now (after_fee_withdrawn_due _) h = tt

Step-principal :
    {w w' : World} (step : Step w w')
    → IsWorld w
    → IsBacked w
    → principal w'.contract + paid_by step ≡ principal w.contract + received_by step
unfolding received_by paid_by
Step-principal (called w env call c due time _ done) (sound, _) h =
    let sound' = subst (λ t. IsContract t w.contract) (sym time) sound in
    omega (arith, handle-principal env w.contract call sound' done)
Step-principal (resolved c c' now front back due success done) (sound, callbacks) (h, _, _) =
    let (distinct, counted) = (All-pick (IsPending c) front due back h).0 in
    let tame = tame_callback now due (All-pick (IsCallback now) front due back callbacks).0 in
    let covers = IsCounted-covered c (owner_of due) (slots_of due) (counted_of due) counted in
    omega (arith, resolve-principal now c due success sound (distinct, covers, tame) done)
Step-principal (lost c now front back due success why _) sound h = refl
Step-principal (passed w later _) sound h = refl

-- Principal is neither made nor lost. Through any calls (the maintainer's unlocking of jars excepted, and
-- the list of products of a `withdraw_all`, a `HashSet` in the source, naming none twice), callbacks (with
-- either outcome of their transfer, in any order) and waiting, from a sound state whose pending callbacks
-- are backed and whose products are listed under their own ids: the principal of all deposits at the end,
-- with all that successful withdrawals and restakes paid out of it (their fees included), is the principal
-- at the start with all that was received by transfer.
pub FairSteps-principal :
    {w w' : World} (steps : FairSteps w w')
    → IsWorld w
    → IsBacked w
    → principal w'.contract + paid_in steps ≡ principal w.contract + received_in steps
unfolding received_in paid_in
FairSteps-principal (at_rest w) sound h = refl
FairSteps-principal (further steps step fair) sound h = omega (
  arith,
  FairSteps-principal steps sound h,
  Step-principal step (Steps-IsWorld (FairSteps-Steps steps) sound)
      (FairSteps-IsBacked steps sound h),
)
