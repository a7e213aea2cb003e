-- ===== src/Shared/Options.antt =====
-- Chains of fallible steps.
use mathlib.Core.Path.{◌≡◌, refl}
use mathlib.Core.Option.{Option, none, some}

infixl 5 ◌>>=◌
abbrev pub ◌>>=◌ {ℓ κ} : {A : Type ℓ} {B : Type κ} → Option A → (A → Option B) → Option B
none >>= f = none
some a >>= f = f a

-- A step that gives a value hands it on.
pub >>=-some {ℓ κ} :
    {A : Type ℓ} {B : Type κ} (m : Option A) (f : A → Option B) (a : A)
    → m ≡ some a
    → (m >>= f) ≡ f a
>>=-some m f a e = rw e refl

-- What a chain of fallible steps got from the first of them.
pub some-bind :
    {A B : Type 0} (m : Option A) (f : A → Option B) {b : B}
    → (m >>= f) ≡ some b
    → (a : A) × (m ≡ some a) × (f a ≡ some b)
some-bind (some a) f e = (a, refl, e)
some-bind none f e = cc

pub >>=-assoc {ℓ κ μ} :
    {A : Type ℓ} {B : Type κ} {C : Type μ} (m : Option A) (f : A → Option B) (g : B → Option C)
    → (m >>= λ a. f a >>= g) ≡ ((m >>= f) >>= g)
>>=-assoc none f g = refl
>>=-assoc (some a) f g = refl
