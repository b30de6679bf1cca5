-- ===== src/Account/Restore.antt =====
-- The rollback entries of jars, and `apply` of them (model/src/data/account/common.rs).
use sweat_jar.Base.{
  ◌≡◌, refl, sym, ap, ◌∙◌, Bool, true, false, if◌then◌else◌, Bool-cases, Option, none, some, List,
  [], ◌∷◌, inl, inr, ok, All, arith, String, str_eq, eq_iff,
}
use sweat_jar.Base.Dict.{Dict, lookup, insert, contains, lookup-insert}
use sweat_jar.Jar.{Jar, JarCache, JarCompanion, Deposit, to_rollback, from_json, cache_from_json}
use sweat_jar.Jar
use sweat_jar.Account.{apply_jars}

unfoldable pub deposits_of : Option Jar → Option (List Deposit)
deposits_of none = none
deposits_of (some jar) = some jar.deposits

-- The two dictionaries have the same jars, with the same deposits.
abbrev pub Agree : Dict Jar → Dict Jar → Type 0
Agree m m' = (k : String) → deposits_of (lookup k m') ≡ deposits_of (lookup k m)

-- A rollback entry is made from the unlocked jar of its key.
abbrev pub IsRollbackOf : Dict Jar → String × JarCompanion → Type 0
IsRollbackOf jars e =
    (jar : Jar) × (lookup e.0 jars ≡ some jar)
    × (jar.is_locked ≡ false)
    × (e.1 ≡ from_json (to_rollback jar))

-- The jar's interest was computed before.
abbrev pub HasCache : Jar → Type 0
HasCache jar = (cache : JarCache) × (jar.cache ≡ some cache)

rollback_jar :
    (jar changed : Jar)
    → jar.is_locked ≡ false
    → changed.deposits ≡ jar.deposits
    → HasCache jar
    → Jar.apply changed (from_json (to_rollback jar)) ≡ jar
unfolding Jar.apply Jar.or_keep to_rollback from_json cache_from_json
rollback_jar jar changed h e (cache, z) =
    let same : (ds : List Deposit) (b : Bool) (o : Option JarCache)
        → ds ≡ jar.deposits
        → b ≡ jar.is_locked
        → o ≡ jar.cache
        → record jar { deposits = ds; is_locked = b; cache = o } ≡ jar =
      λ ds b o p q r. rw (p, q, r) refl in
    same changed.deposits false _ e (sym h) (rw z refl)

-- The entry of a jar that is there: its deposits stay.
pub Agree-insert :
    (jars m : Dict Jar) (id : String) (jar jar' : Jar)
    → Agree jars m
    → lookup id m ≡ some jar
    → jar'.deposits ≡ jar.deposits
    → Agree jars (insert id jar' m)
unfolding deposits_of
Agree-insert jars m id jar jar' agree h e k = elim (Bool-cases (str_eq id k)) [
  | inl same ↦
      let z : id ≡ k = (eq_iff id k).0 same in
      let a : deposits_of (lookup id m) ≡ deposits_of (lookup id jars) = agree id in
      rw (lookup-insert id k jar' m, same, ← z) (ap some e ∙ rw h at a)
  | inr other ↦ rw (lookup-insert id k jar' m, other) (agree k)
]

-- The jar under a key after the rollback entries are applied to `m`.
abbrev pub IsRestored : Dict Jar → Dict Jar → Dict JarCompanion → Dict Jar → Type 0
IsRestored jars m cs out =
    (k : String) → lookup k out ≡ (if contains k cs then lookup k jars else lookup k m)

deposits_of-eq-some :
    (o : Option Jar) {ds : List Deposit}
    → deposits_of o ≡ some ds
    → (jar : Jar) × (o ≡ some jar) × (jar.deposits ≡ ds)
unfolding deposits_of
deposits_of-eq-some none h = cc
deposits_of-eq-some (some jar) h = (jar, refl, cc)

contains-cons :
    (k id : String) (c : JarCompanion) (cs : Dict JarCompanion)
    → contains k ((id, c) ∷ cs) ≡ (if str_eq id k then true else contains k cs)
unfolding contains lookup
contains-cons k id c cs = elim (Bool-cases (str_eq id k)) [
  | inl same ↦ simp (contains, lookup, same)
  | inr other ↦ simp (contains, lookup, other)
]

IsRestored-cons :
    (jars m out : Dict Jar) (id : String) (c : JarCompanion) (cs : Dict JarCompanion) (jar : Jar)
    → lookup id jars ≡ some jar
    → IsRestored jars (insert id jar m) cs out
    → IsRestored jars m ((id, c) ∷ cs) out
IsRestored-cons jars m out id c cs jar hj ih k =
    ground (arith, eq_iff id k, contains-cons k id c cs, lookup-insert id k jar m, ih k)

pub apply_jars-restores :
    (jars : Dict Jar) (cs : Dict JarCompanion) (m : Dict Jar)
    → Agree jars m
    → All (IsRollbackOf jars) cs
    → ((k : String) (jar : Jar) → lookup k jars ≡ some jar → HasCache jar)
    → (out : Dict Jar) × (apply_jars m cs ≡ ok out) × IsRestored jars m cs out
unfolding apply_jars contains lookup deposits_of
apply_jars-restores jars [] m agree h cached = (m, refl, λ k. refl)
apply_jars-restores jars ((id, c) ∷ cs) m agree ((jar, hj, unlocked, e), hs) cached =
    let (changed, hm, same) = deposits_of-eq-some (lookup id m) (agree id ∙ ap deposits_of hj) in
    let m' = insert id jar m in
    let r : Jar.apply changed c ≡ jar =
      rw e (rollback_jar jar changed unlocked same (cached id jar hj)) in
    let (out, ho, restored) =
      apply_jars-restores jars cs m' (Agree-insert jars m id changed jar agree hm (sym same)) hs
        cached in
    (out, rw (hm, r) ho, IsRestored-cons jars m out id c cs jar hj restored)
