-- ===== src/Prelude/Run.antt =====
-- The result of code that can fail: a value, a fault (a failed assertion, a read of no object), or a
-- loop whose fuel has run out.

use mathlib.Core.Path.{◌≡◌, refl, subst}
use mathlib.Core.Bool.{Bool, true, false}
use tree_sitter.Prelude.Tests.{if◌then◌else◌}

pub data Run {ℓ} (A : Type ℓ) : Type ℓ where
  ok : A → Run A
  fault : Run A
  out_of_fuel : Run A

infixl 5 ◌>>=◌
abbrev pub ◌>>=◌ {ℓ κ} : {A : Type ℓ} {B : Type κ} → Run A → (A → Run B) → Run B
ok a >>= f = f a
fault >>= f = fault
out_of_fuel >>= f = out_of_fuel

-- A property of the value, if there is one
abbrev pub Holds {ℓ} : {A : Type ℓ} → (A → Type 0) → Run A → Type 0
Holds P (ok a) = P a
Holds P fault = Unit
Holds P out_of_fuel = Unit

pub Holds-if {ℓ} :
    {A : Type ℓ} (P : A → Type 0) (b : Bool) (x y : Run A)
    → (b ≡ true → Holds P x)
    → (b ≡ false → Holds P y)
    → Holds P (if b then x else y)
Holds-if P true x y f g = f refl
Holds-if P false x y f g = g refl

pub Holds-bind {ℓ κ} :
    {A : Type ℓ} {B : Type κ} (P : B → Type 0) (r : Run A) (f : A → Run B)
    → ((a : A) → r ≡ ok a → Holds P (f a))
    → Holds P (r >>= f)
Holds-bind P (ok a) f h = h a refl
Holds-bind P fault f h = tt
Holds-bind P out_of_fuel f h = tt

pub Holds-ok {ℓ} : {A : Type ℓ} (P : A → Type 0) (r : Run A) (a : A) → Holds P r → r ≡ ok a → P a
Holds-ok P r a h e = subst (Holds P) e h

-- Two continuations that agree on the value, if there is one
pub bind_along {ℓ κ} :
    {A : Type ℓ} {B : Type κ} (r : Run A) {f g : A → Run B}
    → ((a : A) → r ≡ ok a → f a ≡ g a)
    → (r >>= f) ≡ (r >>= g)
bind_along (ok a) h = h a refl
bind_along fault h = refl
bind_along out_of_fuel h = refl
