-- ===== src/View/Ends.antt =====
-- The first and the last deposit of an account's view (model/src/data/jar/view.rs).
use sweat_jar.Base.{
  ℕ, ◌≤◌, ◌≡◌, ◌⊎◌, refl, sym, ap, subst, leb, leb→le, if◌then◌else◌, Bool-cases, inl, inr, List,
  [], ◌∷◌, some, some-injective, All, arith,
}
use sweat_jar.View.{
  JarsView, CompatDepositView, list_deposits, latest, earliest, last_of, first_of, get_last_deposit,
  get_first_deposit,
}

abbrev IsListed : CompatDepositView → List CompatDepositView → Type 0
IsListed x [] = ⊥
IsListed x (d ∷ ds) = (x ≡ d) ⊎ IsListed x ds

skip :
    (x b d : CompatDepositView) (ds : List CompatDepositView)
    → IsListed x (b ∷ ds)
    → IsListed x (b ∷ d ∷ ds)
skip x b d ds (inl e) = inl e
skip x b d ds (inr listed) = inr (inr listed)

-- A deposit of the list to whose time the time of every deposit of the list stands as `R` says.
abbrev pub IsEnd : (ℕ → ℕ → Type 0) → List CompatDepositView → CompatDepositView → Type 0
IsEnd R ds x = IsListed x ds × All (λ d. R d.timestamp x.timestamp) ds

latest-IsEnd :
    (ds : List CompatDepositView) (best : CompatDepositView)
    → IsEnd (λ t u. t ≤ u) (best ∷ ds) (latest best ds)
unfolding latest
latest-IsEnd [] best = (inl refl, (omega arith, tt))
latest-IsEnd (d ∷ ds) best = elim (Bool-cases (leb best.timestamp d.timestamp)) [
  | inl le ↦
      let (listed, (top, rest)) = latest-IsEnd ds d in
      let first = leb→le _ _ le in
      let e = ap (λ b. latest (if b then d else best) ds) le in
      subst (IsEnd (λ t u. t ≤ u) (best ∷ d ∷ ds)) (sym e) (inr listed, (omega arith, (top, rest)))
  | inr gt ↦
      let (listed, (top, rest)) = latest-IsEnd ds best in
      let past : d.timestamp ≤ best.timestamp = ground arith in
      let e = ap (λ b. latest (if b then d else best) ds) gt in
      subst (IsEnd (λ t u. t ≤ u) (best ∷ d ∷ ds)) (sym e)
        (skip (latest best ds) best d ds listed, (top, (omega arith, rest)))
]

earliest-IsEnd :
    (ds : List CompatDepositView) (best : CompatDepositView)
    → IsEnd (λ t u. u ≤ t) (best ∷ ds) (earliest best ds)
unfolding earliest
earliest-IsEnd [] best = (inl refl, (omega arith, tt))
earliest-IsEnd (d ∷ ds) best = elim (Bool-cases (leb best.timestamp d.timestamp)) [
  | inl le ↦
      let (listed, (top, rest)) = earliest-IsEnd ds best in
      let later = leb→le _ _ le in
      let e = ap (λ b. earliest (if b then best else d) ds) le in
      subst (IsEnd (λ t u. u ≤ t) (best ∷ d ∷ ds)) (sym e)
        (skip (earliest best ds) best d ds listed, (top, (omega arith, rest)))
  | inr gt ↦
      let (listed, (top, rest)) = earliest-IsEnd ds d in
      let past : d.timestamp ≤ best.timestamp = ground arith in
      let e = ap (λ b. earliest (if b then best else d) ds) gt in
      subst (IsEnd (λ t u. u ≤ t) (best ∷ d ∷ ds)) (sym e) (inr listed, (omega arith, (top, rest)))
]

last_of-IsEnd :
    (ds : List CompatDepositView) {x : CompatDepositView}
    → last_of ds ≡ some x
    → IsEnd (λ t u. t ≤ u) ds x
unfolding last_of
last_of-IsEnd [] h = cc
last_of-IsEnd (d ∷ ds) h =
    subst (IsEnd (λ t u. t ≤ u) (d ∷ ds)) (some-injective _ _ h) (latest-IsEnd ds d)

first_of-IsEnd :
    (ds : List CompatDepositView) {x : CompatDepositView}
    → first_of ds ≡ some x
    → IsEnd (λ t u. u ≤ t) ds x
unfolding first_of
first_of-IsEnd [] h = cc
first_of-IsEnd (d ∷ ds) h =
    subst (IsEnd (λ t u. u ≤ t) (d ∷ ds)) (some-injective _ _ h) (earliest-IsEnd ds d)

-- What `get_first_deposit` and `get_last_deposit` return are deposits of the view, and no deposit
-- of the view is earlier than the first or later than the last.
pub first_and_last-IsEnd :
    (v : JarsView) {first last : CompatDepositView}
    → get_first_deposit v ≡ some first
    → get_last_deposit v ≡ some last
    → IsEnd (λ t u. u ≤ t) (list_deposits v) first × IsEnd (λ t u. t ≤ u) (list_deposits v) last
unfolding get_first_deposit get_last_deposit
first_and_last-IsEnd v hf hl = (first_of-IsEnd _ hf, last_of-IsEnd _ hl)
