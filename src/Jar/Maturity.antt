-- ===== src/Jar/Maturity.antt =====
-- The index of `get_liquid_balance` under terms with a lockup (model/src/data/jar/common.rs).
use sweat_jar.Base.{
  ℕ, zero, suc, ◌++◌, All-append, ◌+◌, ◌-◌, ◌≤◌, ◌<◌, ◌≡◌, refl, Bool-cases, inl, inr, ltb, List,
  [], ◌∷◌, some, ok, arith, All, All-map, take, drop, sub_checked-of_le,
}
use sweat_jar.Product.{
  Terms, fixed, flexible, score_based, tiered_score_based, is_liquid, is_past, get_lockup_term,
}
use sweat_jar.Jar.{Deposit, partition_point, count_if}

-- The older deposits come first.
abbrev pub IsSorted : List Deposit → Type 0
IsSorted [] = Unit
IsSorted (d ∷ ds) = All (λ e. d.created_at ≤ e.created_at) ds × IsSorted ds

-- A deposit that is no older than the others comes last; without the oldest the rest is in order.
pub append-IsSorted :
    (ds : List Deposit) (d : Deposit)
    → IsSorted ds
    → All (λ e. e.created_at ≤ d.created_at) ds
    → IsSorted (ds ++ d ∷ [])
append-IsSorted [] d s le = (tt, tt)
append-IsSorted (e ∷ ds) d s le = (All-append _ ds _ s.0 (le.0, tt), append-IsSorted ds d s.1 le.1)

pub drop-IsSorted : (n : ℕ) (ds : List Deposit) → IsSorted ds → IsSorted (drop n ds)
drop-IsSorted zero ds h = h
drop-IsSorted (suc n) [] h = tt
drop-IsSorted (suc n) (d ∷ ds) h = drop-IsSorted n ds h.1

past_lem : (c now lockup : ℕ) → c ≤ now → is_past c now lockup ≡ ok (ltb lockup (now - c))
unfolding is_past
past_lem c now lockup le = rw (sub_checked-of_le now c le)

liquid_lem :
    (terms : Terms) (now c lockup : ℕ)
    → get_lockup_term terms ≡ some lockup
    → c ≤ now
    → is_liquid terms now c ≡ ok (ltb lockup (now - c))
unfolding is_liquid get_lockup_term
liquid_lem (fixed l _) now c lockup h le = ground (arith, past_lem c now l le)
liquid_lem (flexible _) now c lockup h le = cc
liquid_lem (score_based _ l) now c lockup h le = ground (arith, past_lem c now l le)
liquid_lem (tiered_score_based _ l) now c lockup h le = ground (arith, past_lem c now l le)

-- In a jar sorted by age, with no deposit from the future, under terms with a lockup: the index is
-- found, each deposit before it has outlived the lockup, and none from it on has.
pub partition_point-exact :
    (terms : Terms) (now lockup : ℕ) (ds : List Deposit)
    → get_lockup_term terms ≡ some lockup
    → IsSorted ds
    → All (λ d. d.created_at ≤ now) ds
    → (n : ℕ) × (partition_point terms now ds ≡ ok n)
      × All (λ d. d.created_at + lockup < now) (take n ds)
      × All (λ d. now ≤ d.created_at + lockup) (drop n ds)
unfolding partition_point count_if
partition_point-exact terms now lockup [] h s le = (0, refl, tt, tt)
partition_point-exact terms now lockup (d ∷ ds) h s le =
    let liquid = liquid_lem terms now d.created_at lockup h le.0 in
    elim (Bool-cases (ltb lockup (now - d.created_at))) [
      | inl mature ↦
          let (n, e, old, young) = partition_point-exact terms now lockup ds h s.1 le.1 in
          (suc n, rw (liquid, mature, e), (ground arith, old), young)
      | inr fresh ↦
          (0, rw (liquid, fresh), tt, (ground arith, All-map (λ e le'. ground arith) ds s.0))
    ]
