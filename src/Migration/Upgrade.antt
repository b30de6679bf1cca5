-- ===== src/Migration/Upgrade.antt =====
-- Sorting and merging of deposits (model/src/data/jar/v1.rs).
use sweat_jar.Base.{
  ℕ, ◌+◌, ◌≤◌, ◌≡◌, ◌≢◌, ◌⊎◌, refl, sym, ap, ◌∙◌, subst, leb, ◌==◌, List, [], ◌∷◌, ok, >>=-eq-ok,
  ok-injective, Bool-cases, inl, inr, All, All-map, arith, add_u128, add_u128-eq-ok, leb→le,
}
use sweat_jar.Jar.{Deposit}
use sweat_jar.Jar.Liquid.{principal_sum}
use sweat_jar.Jar.Maturity.{IsSorted}
use sweat_jar.Migration.{insert_deposit, sort_deposits, merge_into, merge_from, merge_deposits}

-- A deposit is no earlier than `t`.
abbrev IsFrom : ℕ → Deposit → Type 0
IsFrom t d = t ≤ d.created_at

insert_deposit-sum :
    (d : Deposit) (ds : List Deposit)
    → principal_sum (insert_deposit d ds) ≡ d.principal + principal_sum ds
unfolding insert_deposit principal_sum
insert_deposit-sum d [] = refl
insert_deposit-sum d (e ∷ es) = ground (arith, insert_deposit-sum d es)

sort_deposits-sum : (ds : List Deposit) → principal_sum (sort_deposits ds) ≡ principal_sum ds
unfolding sort_deposits principal_sum
sort_deposits-sum [] = refl
sort_deposits-sum (d ∷ ds) =
    omega (arith, insert_deposit-sum d (sort_deposits ds), sort_deposits-sum ds)

insert_deposit-All :
    (t : ℕ) (d : Deposit) (ds : List Deposit)
    → t ≤ d.created_at
    → All (IsFrom t) ds
    → All (IsFrom t) (insert_deposit d ds)
unfolding insert_deposit
insert_deposit-All t d [] h hs = (h, tt)
insert_deposit-All t d (e ∷ es) h hs = elim (Bool-cases (leb d.created_at e.created_at)) [
  | inl le ↦ rw le (h, hs)
  | inr gt ↦ rw gt (hs.0, insert_deposit-All t d es h hs.1)
]

insert_deposit-IsSorted :
    (d : Deposit) (ds : List Deposit) → IsSorted ds → IsSorted (insert_deposit d ds)
unfolding insert_deposit
insert_deposit-IsSorted d [] h = (tt, tt)
insert_deposit-IsSorted d (e ∷ es) h = elim (Bool-cases (leb d.created_at e.created_at)) [
  | inl le ↦
      let first : d.created_at ≤ e.created_at = leb→le _ _ le in
      let rest =
        All-map {Q = IsFrom d.created_at} (λ x (p : e.created_at ≤ x.created_at). omega arith) es
          h.0 in
      rw le ((first, rest), h)
  | inr gt ↦
      let later : e.created_at ≤ d.created_at = ground arith in
      rw gt (insert_deposit-All e.created_at d es later h.0, insert_deposit-IsSorted d es h.1)
]

-- Sorting puts the deposits in the order of their times and keeps the principal.
pub sort_deposits-IsSorted :
    (ds : List Deposit)
    → IsSorted (sort_deposits ds) × (principal_sum (sort_deposits ds) ≡ principal_sum ds)
unfolding sort_deposits
sort_deposits-IsSorted ds = (sorted ds, sort_deposits-sum ds)
  where
    sorted : (ds : List Deposit) → IsSorted (sort_deposits ds)
    sorted [] = tt
    sorted (d ∷ ds) = insert_deposit-IsSorted d (sort_deposits ds) (sorted ds)

merge_into-cons-eq-ok :
    (d e : Deposit) (es : List Deposit) {out : List Deposit}
    → merge_into d (e ∷ es) ≡ ok out
    → ((e.created_at ≡ d.created_at)
        × (out ≡ record e { principal = e.principal + d.principal } ∷ es))
      ⊎ ((rest : List Deposit) × (e.created_at ≢ d.created_at)
          × (merge_into d es ≡ ok rest)
          × (out ≡ e ∷ rest))
unfolding merge_into
merge_into-cons-eq-ok d e es {out} h = elim (Bool-cases (e.created_at == d.created_at)) [
  | inl same ↦
      let h1 = rw same at h in
      let (p, hp, h2) = >>=-eq-ok (add_u128 e.principal d.principal) _ h1 in
      let (q, _) = add_u128-eq-ok _ _ hp in
      inl (ground arith, sym (ok-injective h2) ∙ ap (λ n. record e { principal = n } ∷ es) q)
  | inr other ↦
      let h1 = rw other at h in
      let (rest, hr, h2) = >>=-eq-ok (merge_into d es) _ h1 in
      inr (rest, ground arith, hr, sym (ok-injective h2))
]

-- No deposit is made at `t`.
abbrev IsNotAt : ℕ → Deposit → Type 0
IsNotAt t d = t ≢ d.created_at

-- No two deposits have one time.
abbrev pub IsDistinct : List Deposit → Type 0
IsDistinct [] = Unit
IsDistinct (d ∷ ds) = All (IsNotAt d.created_at) ds × IsDistinct ds

merge_into-All :
    (t : ℕ) (d : Deposit) (ds : List Deposit) {out : List Deposit}
    → merge_into d ds ≡ ok out
    → t ≢ d.created_at
    → All (IsNotAt t) ds
    → All (IsNotAt t) out
merge_into-All t d [] h n hs = unfold merge_into in subst (All (IsNotAt t)) (ok-injective h) (n, tt)
merge_into-All t d (e ∷ es) h n hs = elim (merge_into-cons-eq-ok d e es h) [
  | inl (_, o) ↦ rw o hs
  | inr (rest, _, hr, o) ↦ rw o (hs.0, merge_into-All t d es hr n hs.1)
]

merge_into-lem :
    (d : Deposit) (ds : List Deposit) {out : List Deposit}
    → merge_into d ds ≡ ok out
    → IsDistinct ds
    → IsDistinct out × (principal_sum out ≡ d.principal + principal_sum ds)
unfolding principal_sum
merge_into-lem d [] h hs =
    unfold merge_into in
    subst (λ o. IsDistinct o × (principal_sum o ≡ d.principal + 0)) (ok-injective h)
      ((tt, tt), refl)
merge_into-lem d (e ∷ es) h hs = elim (merge_into-cons-eq-ok d e es h) [
  | inl (_, o) ↦ rw o (hs, omega arith)
  | inr (rest, n, hr, o) ↦
      let (distinct, sum) = merge_into-lem d es hr hs.1 in
      rw o ((merge_into-All e.created_at d es hr n hs.0, distinct), omega (arith, sum))
]

merge_from-lem :
    (ds merged : List Deposit) {out : List Deposit}
    → merge_from merged ds ≡ ok out
    → IsDistinct merged
    → IsDistinct out × (principal_sum out ≡ principal_sum merged + principal_sum ds)
unfolding merge_from principal_sum
merge_from-lem [] merged h hs =
    subst (λ o. IsDistinct o × (principal_sum o ≡ principal_sum merged + 0)) (ok-injective h)
      (hs, omega arith)
merge_from-lem (d ∷ ds) merged h hs =
    let (merged', hm, h1) = >>=-eq-ok (merge_into d merged) _ h in
    let (distinct, sum) = merge_into-lem d merged hm hs in
    let (distinct', sum') = merge_from-lem ds merged' h1 distinct in
    (distinct', omega (arith, sum, sum'))

-- Where merging returns, no two of the deposits have one time, and the principal is kept.
pub merge_deposits-lem :
    (ds : List Deposit) {out : List Deposit}
    → merge_deposits ds ≡ ok out
    → IsDistinct out × (principal_sum out ≡ principal_sum ds)
unfolding merge_deposits principal_sum
merge_deposits-lem ds h =
    let (distinct, sum) = merge_from-lem ds [] h tt in (distinct, omega (arith, sum))
