-- ===== src/Shared/Bools.antt =====
-- What is known of Booleans and options from an equation.
use mathlib.Core.Path.{◌≡◌, refl}
use mathlib.Core.Bool.{Bool, true, false, ◌&&◌, ◌||◌}
use mathlib.Core.Option.{none, some}

pub false_not_true : false ≡ true → ⊥
false_not_true e = cc

pub true_not_false : true ≡ false → ⊥
true_not_false e = cc

pub none_not_some {ℓ} : {A : Type ℓ} → {x : A} → none ≡ some x → ⊥
none_not_some e = cc

pub some_injective {ℓ} : {A : Type ℓ} → {x y : A} → some x ≡ some y → x ≡ y
some_injective e = cc

pub or_nothing : (b : Bool) → (b || false) ≡ b
or_nothing true = refl
or_nothing false = refl

pub and_false : (b : Bool) → (b && false) ≡ false
and_false true = refl
and_false false = refl

pub or_same : (b : Bool) → (b || b) ≡ b
or_same true = refl
or_same false = refl

pub or_right : (a b : Bool) → b ≡ true → (a || b) ≡ true
or_right true b e = refl
or_right false b e = e

pub or_assoc : (a b c : Bool) → (a || (b || c)) ≡ ((a || b) || c)
or_assoc true b c = refl
or_assoc false b c = refl

pub and_true : (a b : Bool) → (a && b) ≡ true → (a ≡ true) × (b ≡ true)
and_true true b e = (refl, e)
and_true false b e = cc

pub or_false : (a b : Bool) → (a || b) ≡ false → (a ≡ false) × (b ≡ false)
or_false true b e = cc
or_false false b e = (refl, e)
