-- ===== src/Interest/Accrual.antt =====
-- Interest through the cache of a jar and without it (model/src/interest.rs).
use sweat_jar.Base.{
  ℕ, ◌+◌, ◌*◌, ◌≤◌, ◌<◌, ◌≡◌, refl, false, ◌∙◌, ap, List, [], ◌∷◌, Option, none, some, ok, arith,
  All, u128_mod, add_u64, sub_checked,
}
use mathlib.Core.Path.{subst}
use native.Mathlib.Nat.{mul-le-mul_right}
use sweat_jar.Decimal.{UDecimal, sat_mul_u128}
use sweat_jar.Time.{ms_in_year}
use sweat_jar.Product.{Terms, fixed, flexible, score_based, tiered_score_based, is_score_based}
use sweat_jar.Jar.{Jar, Deposit, update_cache, cached_interest}
use sweat_jar.Account.{Account}
use sweat_jar.Interest.{
  get_apy, get_interest_calculation_term, since_date, interest_from, cached_at, get_jar_interest,
}
use sweat_jar.Interest.Units.{yearly, earned, accrued, interest_from_tail, get_jar_interest_parts}

abbrev IsCachedBy : Option ℕ → ℕ → Type 0
IsCachedBy none t = Unit
IsCachedBy (some at) t = at ≤ t

-- No product of a term and a yearly interest saturates at 2 ^ 128.
abbrev IsSmall : UDecimal → ℕ → List Deposit → Type 0
IsSmall apy now = All (λ d. now * yearly apy d.principal < u128_mod)

term_split :
    (terms : Terms) (a : Account) (t1 t2 : ℕ) (cached : Option ℕ) (d : Deposit) {x y z : ℕ}
    → is_score_based terms ≡ false
    → t1 ≤ t2
    → IsCachedBy cached t1
    → get_interest_calculation_term terms a t1 cached d ≡ ok x
    → get_interest_calculation_term terms a t2 (some t1) d ≡ ok y
    → get_interest_calculation_term terms a t2 cached d ≡ ok z
    → (x + y ≡ z) × (z ≤ t2)
unfolding get_interest_calculation_term is_score_based since_date add_u64 sub_checked
term_split (fixed lockup apy) a t1 t2 none d s le c hx hy hz = ground arith
term_split (fixed lockup apy) a t1 t2 (some at) d s le c hx hy hz = ground arith
term_split (flexible apy) a t1 t2 none d s le c hx hy hz = ground arith
term_split (flexible apy) a t1 t2 (some at) d s le c hx hy hz = ground arith
term_split (score_based _ _) a t1 t2 cached d s le c hx hy hz = cc
term_split (tiered_score_based _ _) a t1 t2 cached d s le c hx hy hz = cc

-- Below saturation a product is exact, and so is a smaller one.
sat_mul-add :
    (x y t n : ℕ)
    → x + y ≤ t
    → t * n < u128_mod
    → sat_mul_u128 x n + sat_mul_u128 y n ≡ sat_mul_u128 (x + y) n
unfolding sat_mul_u128
sat_mul-add x y t n le small = omega (arith, mul-le-mul_right n le)

earned-add :
    (apy : UDecimal) (p x y z t : ℕ)
    → x + y ≡ z
    → z ≤ t
    → t * yearly apy p < u128_mod
    → earned apy p x + earned apy p y ≡ earned apy p z
unfolding earned
earned-add apy p x y z t e le small =
    sat_mul-add x y t (yearly apy p) (omega arith) small ∙ ap (λ n. sat_mul_u128 n (yearly apy p)) e

accrued_split :
    (terms : Terms) (a : Account) (t1 t2 : ℕ) (cached : Option ℕ) (apy : UDecimal) (u v w : ℕ × ℕ)
    (ds : List Deposit) {o1 o2 o3 : ℕ × ℕ}
    → is_score_based terms ≡ false
    → t1 ≤ t2
    → IsCachedBy cached t1
    → IsSmall apy t2 ds
    → interest_from terms a t1 cached apy u ds ≡ ok o1
    → interest_from terms a t2 (some t1) apy v ds ≡ ok o2
    → interest_from terms a t2 cached apy w ds ≡ ok o3
    → accrued terms a t1 cached apy ds + accrued terms a t2 (some t1) apy ds
      ≡ accrued terms a t2 cached apy ds
unfolding accrued
accrued_split terms a t1 t2 cached apy u v w [] s le c small h1 h2 h3 = refl
accrued_split terms a t1 t2 cached apy u v w (d ∷ ds) s le c small h1 h2 h3 =
    let (x, hx, (u', k1)) = interest_from_tail terms a t1 cached apy u d ds h1 in
    let (y, hy, (v', k2)) = interest_from_tail terms a t2 (some t1) apy v d ds h2 in
    let (z, hz, (w', k3)) = interest_from_tail terms a t2 cached apy w d ds h3 in
    let ih = accrued_split terms a t1 t2 cached apy u' v' w' ds s le c small.1 k1 k2 k3 in
    let (e, b) = term_split terms a t1 t2 cached d s le c hx hy hz in
    rw (hx, hy, hz) (omega (arith, ih, earned-add apy d.principal x y z t2 e b small.0))

get_apy_constant :
    (terms : Terms) (a : Account) (t1 t2 : ℕ)
    → is_score_based terms ≡ false
    → get_apy terms a t1 ≡ get_apy terms a t2
unfolding get_apy is_score_based
get_apy_constant (fixed _ _) a t1 t2 s = refl
get_apy_constant (flexible _) a t1 t2 s = refl
get_apy_constant (score_based _ _) a t1 t2 s = cc
get_apy_constant (tiered_score_based _ _) a t1 t2 s = cc

-- Tokens and a remainder below the unit are determined by their sum of units.
units_unique :
    (a b : ℕ × ℕ)
    → a.0 * ms_in_year + a.1 ≡ b.0 * ms_in_year + b.1
    → a.1 < ms_in_year
    → b.1 < ms_in_year
    → a ≡ b
units_unique a b e ha hb = ground arith

-- For terms that are not score based: if a jar's interest is cached at `t1`, the interest then
-- computed at a later `t2` is, tokens and remainder, what it would have been at `t2` without that
-- caching. The jar's own cache is not from after `t1`, and no product of time and yearly interest
-- saturates.
pub get_jar_interest-update_cache :
    (terms : Terms) (a : Account) (jar : Jar) (t1 t2 : ℕ) (apy : UDecimal) {o1 o2 o3 : ℕ × ℕ}
    → is_score_based terms ≡ false
    → t1 ≤ t2
    → IsCachedBy (cached_at jar.cache) t1
    → get_apy terms a t2 ≡ ok apy
    → IsSmall apy t2 jar.deposits
    → get_jar_interest terms a jar t1 ≡ ok o1
    → get_jar_interest terms a jar t2 ≡ ok o3
    → get_jar_interest terms a (update_cache jar o1.0 o1.1 t1) t2 ≡ ok o2
    → o2 ≡ o3
unfolding update_cache cached_at cached_interest
get_jar_interest-update_cache terms a jar t1 t2 apy {o1} {o2} {o3} s le c ha small h1 h3 h2 =
    let (p1, a1, (s1, f1, e1, b1)) = get_jar_interest_parts terms a jar t1 h1 in
    let (p3, a3, (s3, f3, e3, b3)) = get_jar_interest_parts terms a jar t2 h3 in
    let (p2, a2, (s2, f2, e2, b2)) =
      get_jar_interest_parts terms a (update_cache jar o1.0 o1.1 t1) t2 h2 in
    let q1 : p1 ≡ apy = cc (a1, ha, get_apy_constant terms a t1 t2 s) in
    let q3 : p3 ≡ apy = cc (a3, ha) in
    let q2 : p2 ≡ apy = cc (a2, ha) in
    let split =
      accrued_split terms a t1 t2 (cached_at jar.cache) apy (0, 0) (0, 0) (0, 0) jar.deposits s le c
        small
        (subst (λ p. interest_from terms a t1 (cached_at jar.cache) p (0, 0) jar.deposits ≡ ok s1)
          q1 f1)
        (subst (λ p. interest_from terms a t2 (some t1) p (0, 0) jar.deposits ≡ ok s2) q2 f2)
        (subst (λ p. interest_from terms a t2 (cached_at jar.cache) p (0, 0) jar.deposits ≡ ok s3)
          q3 f3) in
    units_unique o2 o3
      (omega (
        arith,
        e1,
        e2,
        e3,
        split,
        ap (λ p. accrued terms a t1 (cached_at jar.cache) p jar.deposits) q1,
        ap (λ p. accrued terms a t2 (some t1) p jar.deposits) q2,
        ap (λ p. accrued terms a t2 (cached_at jar.cache) p jar.deposits) q3,
      ))
      b2 b3
