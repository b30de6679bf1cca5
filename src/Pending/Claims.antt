-- ===== src/Pending/Claims.antt =====
-- What a claim leaves pending (contract/src/feature/claim/api.rs, `claim_total`).
use sweat_jar.Base.{
  ℕ, ◌*◌, ◌+◌, ◌≡◌, ◌≢◌, refl, sym, ap, ◌∙◌, ◌⊎◌, true, false, Bool, Bool-cases, inl, inr, ◌==◌,
  ltb, leb, Option, none, some, List, [], ◌∷◌, ok, String, arith, All, All-map, str_eq, eq_iff,
  length, require, too_many_jars,
}
use sweat_jar.Base.Dict.{
  Dict, IsMap, lookup, contains, insert-IsMap, IsMap-entries, lookup-insert, lookup-insert_self,
}
use sweat_jar.Base.Ensures.{Ensures, returns, on_if, after, given, outcome}
use sweat_jar.Jar.{Deposit, Jar, JarCompanion, to_rollback, from_json}
use sweat_jar.Jar
use sweat_jar.Jar.Liquid.{principal_sum}
use sweat_jar.Account.{Account, get_jar, put_jar}
use sweat_jar.Account.Restore.{IsRollbackOf}
use sweat_jar.Interest.{get_jar_interest}
use sweat_jar.Contract.{Env, Contract, get_account, put_account, get_product, assert_gas}
use sweat_jar.Settle.{settle_interest}
use sweat_jar.Claim.{
  Scan, scan_amount, scan_jar, scan_jars, claim_jars, claim_rollback, claim_interest, claim_account,
  claim_total, add_claimed, new_view, get_total, max_jars_per_claim, gas_for_ft_transfer,
  gas_for_after_claim,
}
use sweat_jar.Claim.Collect.{IsScanOf, scan_jars-IsScanOf}
use sweat_jar.Keeper.Settling.{settle_interest-IsKept}
use sweat_jar.Invariant.{IsContract, sound, get_account-IsAccount}
use sweat_jar.World.{after_claim_due}
use sweat_jar.Held.{IsHeld, holder}
use sweat_jar.Held.Slots.{Avoids, claim_slots}
use sweat_jar.Held.Restakes.{held_locked}
use sweat_jar.Ledger.Partitions.{IsDistinct}
use sweat_jar.Ledger.Due.{counted_of}
use sweat_jar.Pending.{IsCounted, IsNewPromise, IsNewCallback}

-- A jar that is there and locked.
abbrev IsLocked : String → Account → Type 0
IsLocked k a = (jar : Jar) × (lookup k a.jars ≡ some jar) × (jar.is_locked ≡ true)

put_jar-IsLocked :
    (k : String) (a : Account) (j : String) (jar' : Jar)
    → jar'.is_locked ≡ true
    → (str_eq j k ≡ true) ⊎ IsLocked k a
    → IsLocked k (put_jar a j jar')
unfolding put_jar
put_jar-IsLocked k a j jar' locked h = elim (Bool-cases (str_eq j k)) [
  | inl same ↦ (jar', rw (lookup-insert j k jar' a.jars, same) refl, locked)
  | inr other ↦ elim h [
    | inl same ↦ absurd (let e : true ≡ false = sym same ∙ other in cc)
    | inr (jar, found, is) ↦ (jar, rw (lookup-insert j k jar' a.jars, other) found, is)
  ]
]

-- Every jar that is claimed from is locked.
claim_jars-IsLocked :
    (claimed : Dict (ℕ × ℕ)) (k : String) (now : ℕ) (a : Account)
    → (contains k claimed ≡ true) ⊎ IsLocked k a
    → Ensures (IsLocked k) (claim_jars a now claimed)
unfolding claim_jars contains lookup Jar.lock
claim_jars-IsLocked [] k now a (inl e) = cc
claim_jars-IsLocked [] k now a (inr h) = returns a h
claim_jars-IsLocked ((j, (_, remainder)) ∷ rest) k now a h = after (get_jar a j) _ λ jar _.
    let jar' = Jar.lock (Jar.claim jar remainder now) in
    claim_jars-IsLocked rest k now (put_jar a j jar') (elim (Bool-cases (str_eq j k)) [
      | inl same ↦ inr (put_jar-IsLocked k a j jar' refl (inl same))
      | inr other ↦ elim h [
        | inl found ↦ inl (rw (contains, other) at found)
        | inr locked ↦ inr (put_jar-IsLocked k a j jar' refl (inr locked))
      ]
    ])

scan_jar-IsMap :
    (c : Contract) (a : Account) (now : ℕ) (s : Scan) (id : String) (jar : Jar)
    → IsMap s.rollback_jars
    → Ensures (λ s'. IsMap s'.rollback_jars) (scan_jar c a now s id jar)
unfolding scan_jar scan_amount
scan_jar-IsMap c a now s id jar unique = on_if jar.is_locked _ _ (returns s unique) (
    after (get_product c id) _ λ p _. after (get_jar_interest p.terms a jar now) _ λ i _.
      on_if (i.0 == 0) _ _ (returns s unique) (
        after (add_claimed s.accumulator id i.0) _ λ accumulator _.
          returns _ (insert-IsMap id (from_json (to_rollback jar)) s.rollback_jars unique)))

scan_jars-IsMap :
    (jars : Dict Jar) (c : Contract) (a : Account) (now : ℕ) (s : Scan)
    → IsMap s.rollback_jars
    → Ensures (λ s'. IsMap s'.rollback_jars) (scan_jars c a now s jars)
unfolding scan_jars
scan_jars-IsMap [] c a now s unique = returns s unique
scan_jars-IsMap ((id, jar) ∷ jars) c a now s unique =
    given _ (scan_jar-IsMap c a now s id jar unique)
      λ s' unique'. scan_jars-IsMap jars c a now s' unique'

absent-Avoids :
    (k : String) (m : Dict JarCompanion) → lookup k m ≡ none → All (λ e. e.0 ≢ k) (claim_slots m)
unfolding lookup
absent-Avoids k [] h = tt
absent-Avoids k ((j, v) ∷ m) h = elim (Bool-cases (str_eq j k)) [
  | inl same ↦ absurd (let e = rw same at h in cc)
  | inr other ↦ ((λ z. absurd (let y = (eq_iff j k).1 z in cc)), absent-Avoids k m (rw other at h))
]

IsMap-IsDistinct : (m : Dict JarCompanion) → IsMap m → IsDistinct (claim_slots m)
IsMap-IsDistinct [] h = tt
IsMap-IsDistinct ((k, v) ∷ m) (absent, h) = (absent-Avoids k m absent, IsMap-IsDistinct m h)

-- Of a claimed jar no deposit is counted on: it only has to stay.
locked-IsCounted :
    (c : Contract) (id : String) (b : Account) (m : Dict JarCompanion)
    → lookup id c.accounts ≡ some b
    → All (λ e. IsLocked e.0 b) m
    → IsCounted c id (claim_slots m) 0
locked-IsCounted c id b [] found h = refl
locked-IsCounted c id b ((k, _) ∷ m) found ((jar, has, locked), h) = (
  [],
  0,
  (b, found, (jar, has, (locked, (jar.deposits, refl)))),
  refl,
  unfold principal_sum in omega arith,
  locked-IsCounted c id b m found h,
)

found-contains :
    (k : String) (m : Dict JarCompanion) {v : JarCompanion}
    → lookup k m ≡ some v
    → contains k m ≡ true
unfolding contains
found-contains k m e = simp (contains, e)

entries-contains : (m : Dict JarCompanion) → IsMap m → All (λ e. contains e.0 m ≡ true) m
entries-contains m unique =
    All-map (λ e found. found-contains e.0 m found) m (IsMap-entries m unique)

module _ (env : Env) (c c1 : Contract)
    (carried : (id p : String) (front : List Deposit) → IsHeld id p front c → IsHeld id p front c1)
    {a : Account} (ha : get_account c1 env.predecessor ≡ ok a) (unique : IsMap a.jars) where
  scanned-Avoids :
      (id p : String) (front : List Deposit) (m : Dict JarCompanion)
      → IsHeld id p front c
      → All (IsRollbackOf a.jars) m
      → env.predecessor ≡ id
      → Avoids p (claim_slots m)
  scanned-Avoids id p front [] held h same = tt
  scanned-Avoids id p front ((k, _) ∷ m) held ((jar, found, unlocked, _), h) same = (
    λ is.
        let locked =
          held_locked id p front c1 env.predecessor (carried id p front held) ha same
            (ap (λ key. lookup key a.jars) (sym is) ∙ found) in
        absurd (let e : true ≡ false = sym locked ∙ unlocked in cc),
    scanned-Avoids id p front m held h same,
  )

  claimed-IsNew :
      (s : Scan) (b : Account)
      → IsScanOf a.jars s
      → IsMap s.rollback_jars
      → claim_jars a env.now s.interest_per_jar ≡ ok b
      → IsNewCallback c (put_account c1 env.predecessor b) (
          after_claim_due (record {
            account_id = env.predecessor;
            claimed_amount = s.accumulator;
            account_rollback = claim_rollback b s.rollback_jars;
          }))
  unfolding claim_rollback counted_of put_account
  claimed-IsNew s b (rollbacks, same_keys) map hb = (
    (
      IsMap-IsDistinct s.rollback_jars map,
      locked-IsCounted (put_account c1 env.predecessor b) env.predecessor b s.rollback_jars
          (lookup-insert_self env.predecessor b c1.accounts)
          (All-map
            (λ e has.
              outcome _
                (claim_jars-IsLocked s.interest_per_jar e.0 env.now a
                  (inl (sym (same_keys e.0) ∙ has)))
                hb)
            s.rollback_jars (entries-contains s.rollback_jars map)),
    ),
    λ id p front held same. scanned-Avoids id p front s.rollback_jars held rollbacks same,
  )

  claim_account-IsNew :
      (details : Option Bool)
      → Ensures (IsNewPromise after_claim_due c) (claim_account env c1 details a)
  unfolding claim_account claim_interest contains lookup
  claim_account-IsNew details =
      let start : Scan = record {
        rollback_jars = [];
        interest_per_jar = [];
        accumulator = new_view details;
      } in
      after (scan_jars c1 a env.now start a.jars) _ λ s hs.
        after (require (leb (length s.interest_per_jar) max_jars_per_claim) too_many_jars) _ λ _ _.
          after (claim_jars a env.now s.interest_per_jar) _ λ b hb.
            on_if (ltb 0 (get_total s.accumulator)) _ _
              (after
                (assert_gas env
                  (gas_for_ft_transfer * 2 + gas_for_after_claim (length s.interest_per_jar)))
                _
                λ _ _. returns _ (
                  claimed-IsNew s b
                    (scan_jars-IsScanOf c1 a env.now a.jars start (IsMap-entries a.jars unique)
                      (tt, λ k. refl) hs)
                    (outcome _ (scan_jars-IsMap a.jars c1 a env.now start tt) hs) hb))
              (returns _ tt)

pub claim_total-IsNew :
    (env : Env) (c : Contract) (details : Option Bool)
    → IsContract env.now c
    → Ensures (IsNewPromise after_claim_due c) (claim_total env c details)
unfolding claim_total
claim_total-IsNew env c details hc = after (settle_interest c env.predecessor env.now) _ λ c1 hs.
    after (get_account c1 env.predecessor) _ λ a ha.
      let sound1 = outcome _ (settle_interest-IsKept (sound env.now) c env.predecessor hc) hs in
      claim_account-IsNew env c c1
        (λ id p front held.
          outcome _ (settle_interest-IsKept (holder env.now id p front) c env.predecessor held) hs)
        ha (outcome _ (get_account-IsAccount env.now c1 env.predecessor sound1) ha).0 details
