-- ===== src/Prelude/Fault.antt =====
-- Code that may abort: `none` is a failed `assert` (the build is a debug build) or an exception.
use mathlib.Core.Path.{◌≡◌, refl}
use mathlib.Core.Bool.{Bool, true, false}
use mathlib.Core.Option.{Option, none, some}

infixl 5 ◌>>=◌ ◌>>◌
abbrev pub ◌>>=◌ {ℓ κ} : {A : Type ℓ} {B : Type κ} → Option A → (A → Option B) → Option B
none >>= f = none
some a >>= f = f a

abbrev pub ◌>>◌ {ℓ} : {B : Type ℓ} → Option (Unit {0}) → Option B → Option B
none >> k = none
some a >> k = k

abbrev pub assert : Bool → Option (Unit {0})
assert true = some tt
assert false = none

-- Inversion of a chain that did not abort.
pub >>=-eq-some {ℓ κ} :
    {A : Type ℓ} {B : Type κ} (m : Option A) (f : A → Option B) {b : B}
    → (m >>= f) ≡ some b
    → (a : A) × (m ≡ some a) × (f a ≡ some b)
>>=-eq-some none f h = cc
>>=-eq-some (some a) f h = (a, refl, h)

pub assert-eq-some {ℓ} :
    {B : Type ℓ} (t : Bool) (k : Option B) (b : B)
    → (assert t >> k) ≡ some b
    → (t ≡ true) × (k ≡ some b)
assert-eq-some true k b h = (refl, h)
assert-eq-some false k b h = cc
