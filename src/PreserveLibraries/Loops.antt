-- ===== src/PreserveLibraries/Loops.antt =====
-- The loops of `preserve_libraries`: what holds before and after each step.
use mathlib.Core.List.{Memᴰ}
use macstrop.Shared.Options.{◌>>=◌, >>=-some, >>=-assoc}
use macstrop.Shared.{◌≡◌, refl, ap, fun_ext, ◌++◌, ◌∙◌, subst, Option, some, List, [], ◌∷◌}
use macstrop.PreserveLibraries.Preserve.{Run, each}

-- From `P` the step comes to its end, and then `Q` holds.
abbrev pub Leads : (Run → Option Run) → (Run → Type 0) → (Run → Type 0) → Type 0
Leads f P Q = (r : Run) → P r → (r' : Run) × (f r ≡ some r') × Q r'

pub Leads-then :
    (f g : Run → Option Run) (P Q R : Run → Type 0)
    → Leads f P Q
    → Leads g Q R
    → Leads (λ r. f r >>= g) P R
Leads-then f g P Q R h k r p =
    let (r', e, q) = h r p in let (r'', e', q') = k r' q in (r'', >>=-some (f r) g r' e ∙ e', q')

-- What each step keeps, the loop keeps.
pub Leads-each :
    {A : Type 0} (f : A → Run → Option Run) (P : Run → Type 0) (xs : List A)
    → ((x : A) → Memᴰ x xs → Leads (f x) P P)
    → Leads (each f xs) P P
unfolding each
Leads-each f P [] h = λ r p. (r, refl, p)
Leads-each f P (x ∷ xs) h =
    Leads-then (f x) (each f xs) P P P (h x (Memᴰ.head refl))
      (Leads-each f P xs (λ y m. h y (Memᴰ.tail m)))

-- What one step brings about, and each keeps, holds after the loop.
pub Leads-each_at :
    {A : Type 0} (f : A → Run → Option Run) (P Q : Run → Type 0) (x : A) (xs : List A)
    → Memᴰ x xs
    → ((y : A) → Memᴰ y xs → Leads (f y) P P)
    → ((y : A) → Memᴰ y xs → Leads (f y) Q Q)
    → Leads (f x) P Q
    → Leads (each f xs) P Q
unfolding each
Leads-each_at f P Q x [] m keep keep' one = elim m [ ]
Leads-each_at f P Q x (y ∷ xs) (Memᴰ.head e) keep keep' one =
    Leads-then (f y) (each f xs) P Q Q (subst (λ z. Leads (f z) P Q) e one)
      (Leads-each f Q xs (λ z m. keep' z (Memᴰ.tail m)))
Leads-each_at f P Q x (y ∷ xs) (Memᴰ.tail m) keep keep' one =
    Leads-then (f y) (each f xs) P P Q (keep y (Memᴰ.head refl)) (
      Leads-each_at f P Q x xs m (λ z m'. keep z (Memᴰ.tail m')) (λ z m'. keep' z (Memᴰ.tail m'))
        one)

each-append :
    {A : Type 0} (f : A → Run → Option Run) (xs ys : List A) (r : Run)
    → each f (xs ++ ys) r ≡ (each f xs r >>= each f ys)
unfolding each
each-append f [] ys r = refl
each-append f (x ∷ xs) ys r =
    ap (λ g. f x r >>= g) (fun_ext (each-append f xs ys))
    ∙ >>=-assoc (f x r) (each f xs) (each f ys)

pub Leads-append :
    {A : Type 0} (f : A → Run → Option Run) (xs ys : List A) (P Q R : Run → Type 0)
    → Leads (each f xs) P Q
    → Leads (each f ys) Q R
    → Leads (each f (xs ++ ys)) P R
Leads-append f xs ys P Q R h k r p =
    let (r', e, q) = Leads-then (each f xs) (each f ys) P Q R h k r p in
    (r', each-append f xs ys r ∙ e, q)
