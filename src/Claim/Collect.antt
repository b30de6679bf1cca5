-- ===== src/Claim/Collect.antt =====
-- What `claim_total` collects and writes (contract/src/feature/claim/api.rs).
use sweat_jar.Base.{
  ℕ, ◌≡◌, refl, sym, ap, subst, ◌∙◌, true, false, if◌then◌else◌, ◌==◌, Bool-cases, some, [], ◌∷◌,
  inl, inr, ok, ◌>>=◌, >>=-eq-ok, ok-injective, or_panic-eq-ok, All, arith, String, str_eq, eq_iff,
  jar_not_found,
}
use sweat_jar.Base.Dict.{Dict, lookup, insert, contains, lookup-insert}
use sweat_jar.Jar.{Jar, JarCompanion, Deposit, to_rollback, from_json}
use sweat_jar.Jar
use sweat_jar.Account.{Account, get_jar, put_jar}
use sweat_jar.Interest.{get_jar_interest}
use sweat_jar.Contract.{Contract, get_product}
use sweat_jar.Claim.{Scan, scan_amount, scan_jar, scan_jars, claim_jars, add_claimed}
use sweat_jar.Account.Restore.{Agree, IsRollbackOf, Agree-insert}

contains-insert {ℓ} :
    {V : Type ℓ} (k id : String) (v : V) (m : Dict V)
    → contains k (insert id v m) ≡ (if str_eq id k then true else contains k m)
unfolding contains
contains-insert k id v m = elim (Bool-cases (str_eq id k)) [
  | inl same ↦ simp (contains, lookup-insert, same)
  | inr other ↦ simp (contains, lookup-insert, other)
]

-- What the scan has collected: rollbacks of jars of the account, under the keys of the interest.
abbrev pub IsScanOf : Dict Jar → Scan → Type 0
IsScanOf jars s =
    All (IsRollbackOf jars) s.rollback_jars
    × ((k : String) → contains k s.rollback_jars ≡ contains k s.interest_per_jar)

All-insert_entry {κ} :
    {V : Type 0} (P : String × V → Type κ) (k : String) (v : V) (m : Dict V)
    → P (k, v)
    → All P m
    → All P (insert k v m)
unfolding insert
All-insert_entry P k v [] h hs = (h, tt)
All-insert_entry P k v ((j, w) ∷ m) h hs = elim (Bool-cases (str_eq j k)) [
  | inl same ↦ rw same (h, hs.1)
  | inr other ↦ rw other (hs.0, All-insert_entry P k v m h hs.1)
]

scan_amount-IsScanOf :
    (jars : Dict Jar) (s : Scan) (id : String) (jar : Jar) (i : ℕ × ℕ) {out : Scan}
    → lookup id jars ≡ some jar
    → jar.is_locked ≡ false
    → IsScanOf jars s
    → scan_amount s id jar i ≡ ok out
    → IsScanOf jars out
unfolding scan_amount
scan_amount-IsScanOf jars s id jar i hj unlocked h e = elim (Bool-cases (i.0 == 0)) [
  | inl none_due ↦ subst (IsScanOf jars) (ok-injective (rw none_due at e)) h
  | inr due ↦
      let (acc, _, e1) = >>=-eq-ok (add_claimed s.accumulator id i.0) _ (rw due at e) in
      subst (IsScanOf jars) (ok-injective e1) (
        All-insert_entry (IsRollbackOf jars) id (from_json (to_rollback jar)) s.rollback_jars
            (jar, hj, unlocked, refl) h.0,
        λ k.
            contains-insert k id (from_json (to_rollback jar)) s.rollback_jars
            ∙ ap (λ b. if str_eq id k then true else b) (h.1 k)
            ∙ sym (contains-insert k id i s.interest_per_jar),
      )
]

scan_jar-unlocked :
    (c : Contract) (a : Account) (now : ℕ) (s : Scan) (id : String) (jar : Jar)
    → jar.is_locked ≡ false
    → scan_jar c a now s id jar
      ≡ (get_product c id >>= λ p. get_jar_interest p.terms a jar now >>= scan_amount s id jar)
unfolding scan_jar
scan_jar-unlocked c a now s id jar h = rw h refl

scan_jar-locked :
    (c : Contract) (a : Account) (now : ℕ) (s : Scan) (id : String) (jar : Jar)
    → jar.is_locked ≡ true
    → scan_jar c a now s id jar ≡ ok s
unfolding scan_jar
scan_jar-locked c a now s id jar h = rw h refl

pub scan_jars-IsScanOf :
    (c : Contract) (a : Account) (now : ℕ) (jars : Dict Jar) (s : Scan) {out : Scan}
    → All (λ e. lookup e.0 a.jars ≡ some e.1) jars
    → IsScanOf a.jars s
    → scan_jars c a now s jars ≡ ok out
    → IsScanOf a.jars out
unfolding scan_jars
scan_jars-IsScanOf c a now [] s hs h e = subst (IsScanOf a.jars) (ok-injective e) h
scan_jars-IsScanOf c a now ((id, jar) ∷ jars) s hs h e =
    let (s', e1, e2) = >>=-eq-ok (scan_jar c a now s id jar) _ e in
    let h' : IsScanOf a.jars s' = elim (Bool-cases jar.is_locked) [
      | inl locked ↦
          subst (IsScanOf a.jars)
            (ok-injective (sym (scan_jar-locked c a now s id jar locked) ∙ e1)) h
      | inr unlocked ↦
          let (p, _, e3) =
            >>=-eq-ok (get_product c id) _
              (sym (scan_jar-unlocked c a now s id jar unlocked) ∙ e1) in
          let (i, _, e4) = >>=-eq-ok (get_jar_interest p.terms a jar now) _ e3 in
          scan_amount-IsScanOf a.jars s id jar i hs.0 unlocked h e4
    ] in
    scan_jars-IsScanOf c a now jars s' hs.1 h' e2

-- The jars are locked and their interest is taken: the deposits stay, and so do the other jars.
pub claim_jars-frame :
    (now : ℕ) (jars : Dict Jar) (interest : Dict (ℕ × ℕ)) (a : Account) {b : Account}
    → Agree jars a.jars
    → claim_jars a now interest ≡ ok b
    → Agree jars b.jars
      × ((k : String)
          → lookup k b.jars ≡ (if contains k interest then lookup k b.jars else lookup k a.jars))
      × (b ≡ record a { jars = b.jars })
unfolding claim_jars put_jar get_jar Jar.lock Jar.claim contains lookup
claim_jars-frame now jars [] a {b} agree h =
    let e = ok-injective h in
    (
      subst (λ x. Agree jars x.jars) e agree,
      λ k. ap (λ x. lookup k x.jars) (sym e),
      subst (λ x. x ≡ record a { jars = x.jars }) e refl,
    )
claim_jars-frame now jars ((id, (n, remainder)) ∷ rest) a {b} agree h =
    let (jar, hj, h1) = >>=-eq-ok (get_jar a id) _ h in
    let e = or_panic-eq-ok _ jar_not_found hj in
    let jar' = Jar.lock (Jar.claim jar remainder now) in
    let (g1, g2, g3) =
      claim_jars-frame now jars rest (put_jar a id jar')
        (Agree-insert jars a.jars id jar jar' agree e refl) h1 in
    (g1, λ k. ground (arith, eq_iff id k, lookup-insert id k jar' a.jars, g2 k), g3)
