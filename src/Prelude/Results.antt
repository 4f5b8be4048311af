-- ===== src/Prelude/Results.antt =====
-- What a call returns or raises.
use mathlib.Core.Path.{◌≡◌, refl, subst}
use mathlib.Core.Logic.{◌⊎◌, inl, inr}
use native.Mathlib.Omega.{arith}

pub data Result {ℓ κ} (E : Type ℓ) (A : Type κ) : Type (ℓ ⊔ κ) where
  ok : A → Result E A
  err : E → Result E A

infixl 5 ◌>>=◌ ◌>>◌
abbrev pub ◌>>=◌ {ℓ κ μ} :
    {E : Type ℓ} {A : Type κ} {B : Type μ} → Result E A → (A → Result E B) → Result E B
ok a >>= f = f a
err e >>= f = err e

-- A call for its errors alone, then the rest.
abbrev pub ◌>>◌ {ℓ κ} : {E : Type ℓ} {B : Type κ} → Result E (Unit {0}) → Result E B → Result E B
checked >> rest = checked >>= λ unit. rest

-- What holds of the value that a call returns; a call that raises ensures it.
pub data Ensures {ℓ κ μ} {E : Type ℓ} {A : Type κ} (P : A → Type μ)
    : Result E A → Type (ℓ ⊔ κ ⊔ μ) where
  returns : {a : A} → P a → Ensures P (ok a)
  raises : {e : E} → Ensures P (err e)

module _ {ℓ κ μ ν ξ} {E : Type ℓ} {A : Type κ} {B : Type μ} {P : A → Type ν} {Q : B → Type ξ} where
  pub bind-Ensures :
      {m : Result E A} {f : A → Result E B}
      → Ensures P m
      → ((a : A) → P a → Ensures Q (f a))
      → Ensures Q (m >>= f)
  bind-Ensures (returns p) g = g _ p
  bind-Ensures raises g = raises

pub ensured {ℓ κ μ} :
    {E : Type ℓ} {A : Type κ} {P : A → Type μ} {m : Result E A} {a : A}
    → Ensures P m
    → m ≡ ok a
    → P a
ensured {P = P} (returns p) h = subst P (ground (arith, h)) p
ensured raises h = absurd (ground arith)

pub Ensures-any {ℓ κ} : {E : Type ℓ} {A : Type κ} (m : Result E A) → Ensures (λ _. Unit {0}) m
Ensures-any (ok a) = returns tt
Ensures-any (err e) = raises

pub Ensures-of {ℓ κ μ} :
    {E : Type ℓ} {A : Type κ} {P : A → Type μ} (m : Result E A)
    → ((a : A) → m ≡ ok a → P a)
    → Ensures P m
Ensures-of (ok a) h = returns (h a refl)
Ensures-of (err e) h = raises

-- To split on what a call did and keep the equation.
pub Result-cases {ℓ κ} :
    {E : Type ℓ} {A : Type κ} (r : Result E A) → ((a : A) × (r ≡ ok a)) ⊎ ((e : E) × (r ≡ err e))
Result-cases (ok a) = inl (a, refl)
Result-cases (err e) = inr (e, refl)
