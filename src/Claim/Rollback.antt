-- ===== src/Claim/Rollback.antt =====
-- A claim and its failed transfer (contract/src/feature/claim/api.rs).
use sweat_jar.Base.{
  some, All, ℕ, ◌≡◌, refl, sym, ap, ◌∙◌, Bool, true, false, ltb, leb, if◌then◌else◌, Option, [],
  Result, ok, >>=-eq-ok, ok-injective, arith, String, length, require, too_many_jars,
}
use sweat_jar.Base.Dict.{Dict, IsMap, lookup, contains, IsMap-entries, All-lookup}
use sweat_jar.Jar.{Jar, JarCompanion}
use sweat_jar.Account.{
  Account, AccountCompanion, get_jar, put_jar, apply_jars, apply_companions, or_keep,
}
use sweat_jar.Account
use sweat_jar.Contract.{
  Env, Contract, PromiseOrValue, value, promise, Transfer, get_account, put_account, assert_gas,
}
use sweat_jar.Oracle.Flags.{get_account-put_account}
use sweat_jar.Settle.{settle_interest}
use sweat_jar.Claim.{
  Scan, AfterClaim, ClaimedAmountView, scan_jars, claim_jars, claim_rollback, claim_interest,
  claim_account, claim_total, after_claim, new_view, get_total, emptied, max_jars_per_claim,
}
use sweat_jar.Account.Restore.{HasCache, Agree, IsRestored, apply_jars-restores}
use sweat_jar.Claim.Collect.{IsScanOf, scan_jars-IsScanOf, claim_jars-frame}

-- The parts of a claim that ends in a transfer.
abbrev IsClaim :
    Env → Contract → Account → AfterClaim → Contract → Transfer → Scan → Account → Type 0
IsClaim env c a call c1 t s b =
    (claim_jars a env.now s.interest_per_jar ≡ ok b)
    × (c1 ≡ put_account c env.predecessor b)
    × (t ≡ record { receiver_id = env.predecessor; amount = get_total s.accumulator })
    × (call ≡ record {
      account_id = env.predecessor;
      claimed_amount = s.accumulator;
      account_rollback = claim_rollback b s.rollback_jars;
    })

promise-parts :
    {A C : Type 0} {c c1 : Contract} {t t1 : Transfer} {x x1 : C}
    → ◌≡◌ {A = Result (Contract × PromiseOrValue A C)}
        (ok (c, promise t x))
        (ok (c1, promise t1 x1))
    → (c1 ≡ c) × (t1 ≡ t) × (x1 ≡ x)
promise-parts h = (cc, cc, cc)

claim_interest-parts :
    (env : Env) (c : Contract) (call : AfterClaim) (n : ℕ) {c1 : Contract} {t : Transfer}
    {call1 : AfterClaim}
    → claim_interest env c call n ≡ ok (c1, promise t call1)
    → (c1 ≡ c)
      × (t ≡ record { receiver_id = call.account_id; amount = get_total call.claimed_amount })
      × (call1 ≡ call)
unfolding claim_interest
claim_interest-parts env c call n h =
    let (_, _, h1) = >>=-eq-ok (assert_gas env _) _ h in promise-parts h1

finish-parts :
    (env : Env) (c : Contract) (call : AfterClaim) (n : ℕ) (b : Bool) {c1 : Contract} {t : Transfer}
    {call1 : AfterClaim}
    → (if b then claim_interest env c call n else ok (c, value call.claimed_amount))
      ≡ ok (c1, promise t call1)
    → (c1 ≡ c)
      × (t ≡ record { receiver_id = call.account_id; amount = get_total call.claimed_amount })
      × (call1 ≡ call)
finish-parts env c call n true h = claim_interest-parts env c call n h
finish-parts env c call n false h = cc

claim_account-parts :
    (env : Env) (c : Contract) (details : Option Bool) (a : Account) {c1 : Contract} {t : Transfer}
    {call : AfterClaim}
    → IsMap a.jars
    → claim_account env c details a ≡ ok (c1, promise t call)
    → (s : Scan) × (b : Account) × IsScanOf a.jars s × IsClaim env c a call c1 t s b
unfolding claim_account contains lookup
claim_account-parts env c details a map h =
    let start : Scan = record {
      rollback_jars = [];
      interest_per_jar = [];
      accumulator = new_view details;
    } in
    let (s, hs, h1) = >>=-eq-ok (scan_jars c a env.now start a.jars) _ h in
    let (_, _, h2) =
      >>=-eq-ok (require (leb (length s.interest_per_jar) max_jars_per_claim) too_many_jars) _ h1 in
    let (b, hb, h3) = >>=-eq-ok (claim_jars a env.now s.interest_per_jar) _ h2 in
    let call' : AfterClaim = record {
      account_id = env.predecessor;
      claimed_amount = s.accumulator;
      account_rollback = claim_rollback b s.rollback_jars;
    } in
    let (e1, e2, e3) = finish-parts env _ call' _ (ltb 0 (get_total s.accumulator)) h3 in
    (
      s,
      b,
      scan_jars-IsScanOf c a env.now a.jars start (IsMap-entries a.jars map) (tt, λ k. refl) hs,
      (hb, e1, e2, e3),
    )

claim_total-settled :
    (env : Env) (c : Contract) (details : Option Bool) {c' : Contract} {a : Account}
    → settle_interest c env.predecessor env.now ≡ ok c'
    → get_account c' env.predecessor ≡ ok a
    → claim_total env c details ≡ claim_account env c' details a
unfolding claim_total
claim_total-settled env c details hs ha = rw (hs, ha) refl

-- Interest was computed for every jar before.
abbrev HasCaches : Dict Jar → Type 0
HasCaches jars = (k : String) (jar : Jar) → lookup k jars ≡ some jar → HasCache jar

-- The account that a failed claim leaves, from the one that the claim left.
rolled_back :
    (jars : Dict Jar) (s : Scan) (b : Account)
    → Agree jars b.jars
    → IsScanOf jars s
    → HasCaches jars
    → (out : Dict Jar) × (Account.apply b (claim_rollback b s.rollback_jars)
        ≡ ok (record b { jars = out }))
      × IsRestored jars b.jars s.rollback_jars out
unfolding Account.apply apply_companions claim_rollback or_keep
rolled_back jars s b agree h cached =
    let (out, e, restored) = apply_jars-restores jars s.rollback_jars b.jars agree h.0 cached in
    (out, rw e refl, restored)

-- The same account as a map of jars: every field but the jars, and every jar under its key.
abbrev pub SameAccount : Account → Account → Type 0
SameAccount a b =
    (b.nonce ≡ a.nonce)
    × (b.timezone ≡ a.timezone)
    × (b.score ≡ a.score)
    × (b.features ≡ a.features)
    × ((k : String) → lookup k b.jars ≡ lookup k a.jars)

failed :
    (c : Contract) (id : String) (b out : Account) (s : Scan)
    → Account.apply b (claim_rollback b s.rollback_jars) ≡ ok out
    → after_claim
        (put_account c id b)
        (record {
          account_id = id;
          claimed_amount = s.accumulator;
          account_rollback = claim_rollback b s.rollback_jars;
        })
        false
      ≡ ok (put_account (put_account c id b) id out, emptied s.accumulator)
unfolding after_claim
failed c id b out s e = rw (get_account-put_account c id b, e) refl

restored_jar :
    (jars m out : Dict Jar) (s : Scan)
    → IsScanOf jars s
    → IsRestored jars m s.rollback_jars out
    → ((k : String)
        → lookup k m ≡ (if contains k s.interest_per_jar then lookup k m else lookup k jars))
    → (k : String) → lookup k out ≡ lookup k jars
restored_jar jars m out s scan restored frame k = ground (arith, restored k, frame k, scan.1 k)

IsClaim-rollback :
    (env : Env) (c : Contract) (a : Account) (call : AfterClaim) {c1 : Contract} {t : Transfer}
    (s : Scan) (b : Account)
    → IsScanOf a.jars s
    → HasCaches a.jars
    → IsClaim env c a call c1 t s b
    → (t ≡ record { receiver_id = env.predecessor; amount = get_total call.claimed_amount })
      × ((b : Account) × (after_claim c1 call false
            ≡ ok (put_account c1 env.predecessor b, emptied call.claimed_amount))
          × SameAccount a b)
IsClaim-rollback env c a call {c1} {t} s b scan cached (hb, e1, e2, e3) =
    let (agree, frame, same) =
      claim_jars-frame env.now a.jars s.interest_per_jar a (λ k. refl) hb in
    let (out, e, restored) = rolled_back a.jars s b agree scan cached in
    rw (e1, e2, e3)
      (
        refl,
        (
          record b { jars = out },
          failed c env.predecessor b (record b { jars = out }) s e,
          (
            ap (λ x. x.nonce) same,
            ap (λ x. x.timezone) same,
            ap (λ x. x.score) same,
            ap (λ x. x.features) same,
            restored_jar a.jars b.jars out s scan restored frame,
          ),
        ),
      )

-- Where a claim, from an account `a` that is settled and whose jars have different keys and a cache each
-- (the JSON of the callback's arguments does not carry that a jar had none), ends in a transfer: the transfer is of the claimed total, to the caller; and where it fails and no other call comes
-- between, the callback returns, reports that nothing was claimed, and leaves the account as the claim found it:
-- every jar, its cache, remainder and lock, is back.
pub claim_total-rollback :
    (env : Env) (c : Contract) (details : Option Bool) {c' c1 : Contract} {a : Account}
    {t : Transfer} {call : AfterClaim}
    → settle_interest c env.predecessor env.now ≡ ok c'
    → get_account c' env.predecessor ≡ ok a
    → IsMap a.jars
    → All (λ e. HasCache e.1) a.jars
    → claim_total env c details ≡ ok (c1, promise t call)
    → (t ≡ record { receiver_id = env.predecessor; amount = get_total call.claimed_amount })
      × ((b : Account) × (after_claim c1 call false
            ≡ ok (put_account c1 env.predecessor b, emptied call.claimed_amount))
          × SameAccount a b)
claim_total-rollback env c details {a = a} hs ha map cached h =
    let (s, b, scan, parts) =
      claim_account-parts env _ details a map (sym (claim_total-settled env c details hs ha) ∙ h) in
    let caches : HasCaches a.jars = λ k jar e. All-lookup HasCache k a.jars cached e in
    IsClaim-rollback env _ a _ s b scan caches parts

-- The callback of a failed claim sets the score to the one that the claim read: where it returns on
-- an account that has changed since (to `now_account`), the score it leaves is the claim's, not that account's.
pub after_claim-score :
    (c : Contract) (call : AfterClaim) (at_claim now_account : Account) (jars : Dict JarCompanion)
    {out : Contract} {view : ClaimedAmountView}
    → call.account_rollback ≡ claim_rollback at_claim jars
    → get_account c call.account_id ≡ ok now_account
    → after_claim c call false ≡ ok (out, view)
    → (b : Account) × (get_account out call.account_id ≡ ok b)
      × (b.score ≡ at_claim.score)
      × (b.timezone ≡ at_claim.timezone)
      × (b.nonce ≡ now_account.nonce)
unfolding after_claim Account.apply claim_rollback or_keep
after_claim-score c call at_claim now_account jars {out} {view} he ha h =
    let (a, ha', h1) = >>=-eq-ok (get_account c call.account_id) _ h in
    let (b, hb, h2) = >>=-eq-ok (Account.apply a call.account_rollback) _ h1 in
    let same : a ≡ now_account = ok-injective (sym ha' ∙ ha) in
    let (j, hj, h3) = >>=-eq-ok (apply_companions a.jars call.account_rollback.new_jars) _ hb in
    let e = ok-injective h3 in
    let o : out ≡ put_account c call.account_id b = sym (ap (λ r. r.0) (ok-injective h2)) in
    (
      b,
      rw o (get_account-put_account c call.account_id b),
      sym (ap (λ x. x.score) e) ∙ ap (λ r. or_keep r.new_score a.score) he,
      sym (ap (λ x. x.timezone) e) ∙ ap (λ r. or_keep r.new_timezone a.timezone) he,
      sym (ap (λ x. x.nonce) e) ∙ ap (λ r. or_keep r.new_nonce a.nonce) he ∙ ap (λ x. x.nonce) same,
    )
