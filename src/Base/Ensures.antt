-- ===== src/Base/Ensures.antt =====
-- Postconditions of calls: what holds of the value if the call returns, by the shape of its code.
use mathlib.Core.Path.{◌≡◌, refl, subst}
use mathlib.Core.Bool.{Bool, true, false}
use mathlib.Core.Option.{Option, none, some}
use sweat_jar.Base.Tests.{if◌then◌else◌}
use sweat_jar.Base.Outcome.{Panic, Result, ok, panic, ◌>>=◌, or_panic, ok-injective}

-- A call that panics has no value, so it ensures every postcondition.
pub data Ensures {ℓ} {A : Type 0} (Q : A → Type ℓ) : Result A → Type ℓ where
  returns : (a : A) → Q a → Ensures Q (ok a)
  panics : (why : Panic) → Ensures Q (panic why)

module _ {ℓ} {A : Type 0} {Q : A → Type ℓ} where
  -- The value of a call that returned.
  pub outcome : (m : Result A) {a : A} → Ensures Q m → m ≡ ok a → Q a
  outcome _ (returns x h) e = subst Q (ok-injective e) h
  outcome _ (panics why) e = cc

  pub always : (m : Result A) → ((a : A) → m ≡ ok a → Q a) → Ensures Q m
  always (ok a) h = returns a (h a refl)
  always (panic why) h = panics why

  pub on_if :
      (b : Bool) (x y : Result A) → Ensures Q x → Ensures Q y → Ensures Q (if b then x else y)
  on_if true x y hx hy = hx
  on_if false x y hx hy = hy

  pub on_if_eq :
      (b : Bool) (x y : Result A)
      → (b ≡ true → Ensures Q x)
      → (b ≡ false → Ensures Q y)
      → Ensures Q (if b then x else y)
  on_if_eq true x y hx hy = hx refl
  on_if_eq false x y hx hy = hy refl

  pub on_some :
      (o : Option A) (why : Panic) → ((a : A) → o ≡ some a → Q a) → Ensures Q (or_panic o why)
  on_some none why h = panics why
  on_some (some a) why h = returns a (h a refl)

pub weaken {ℓ κ} :
    {A : Type 0} {P : A → Type κ} {Q : A → Type ℓ} {m : Result A}
    → ((a : A) → P a → Q a)
    → Ensures P m
    → Ensures Q m
weaken k (returns a h) = returns a (k a h)
weaken k (panics why) = panics why

-- A postcondition that holds under an assumption, which the code does not test.
pub under {ℓ κ} :
    {A : Type 0} {P : Type κ} {Q : A → Type ℓ} (m : Result A)
    → (P → Ensures Q m)
    → Ensures (λ a. P → Q a) m
under (ok a) h = returns a (λ p. outcome _ (h p) refl)
under (panic why) h = panics why

module _ {ℓ} {A B : Type 0} {Q : B → Type ℓ} where
  -- A step of which only the equation matters.
  pub after :
      (m : Result A) (f : A → Result B)
      → ((a : A) → m ≡ ok a → Ensures Q (f a))
      → Ensures Q (m >>= f)
  after (ok a) f h = h a refl
  after (panic why) f h = panics why

module _ {ℓ κ} {A B : Type 0} {P : A → Type κ} {Q : B → Type ℓ} where
  -- A step with a postcondition of its own.
  pub given :
      {m : Result A} (f : A → Result B)
      → Ensures P m
      → ((a : A) → P a → Ensures Q (f a))
      → Ensures Q (m >>= f)
  given f (returns a h) k = k a h
  given f (panics why) k = panics why
