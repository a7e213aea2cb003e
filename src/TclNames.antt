-- ===== src/TclNames.antt =====
-- The commands of Tcl that take file names and texts apart, as the port groups use them.
use macstrop.Shared.Bools.{and_false}
use macstrop.Shared.{
  ℕ, zero, suc, Bool, true, false, ◌&&◌, ◌||◌, [], ◌∷◌, ◌++◌, ◌≡◌, ◌↔◌, refl, sym, ap, ap₂, arith,
  Bool-cases, inl, inr, if◌then◌else◌, ◌==◌, length, not, ◌-◌,
}
use macstrop.Shared.Texts.{Text, has_char}

-- `file tail`: what stands behind the last slash.
unfoldable pub file_tail : Text → Text
unfolding has_char
file_tail [] = []
file_tail (c ∷ cs) =
    let rest = file_tail cs in if has_char b'/' cs then rest else if c == b'/' then cs else c ∷ cs

-- The last dot of a name without slashes, and what stands behind it.
unfoldable pub from_dot : Text → Text
unfolding has_char
from_dot [] = []
from_dot (c ∷ cs) =
    let rest = from_dot cs in if has_char b'.' cs then rest else if c == b'.' then c ∷ cs else []

-- `file extension`
unfoldable pub file_extension : Text → Text
unfolding file_tail from_dot
file_extension path = from_dot (file_tail path)

-- `file rootname`: the name without its extension.
unfoldable pub file_rootname : Text → Text
unfolding has_char
file_rootname [] = []
file_rootname (c ∷ cs) =
    let rest = c ∷ file_rootname cs in
    if has_char b'/' cs || has_char b'.' cs then rest else if c == b'.' then [] else c ∷ cs

unfoldable pub starts_with : Text → Text → Bool
starts_with [] text = true
starts_with (p ∷ ps) [] = false
starts_with (p ∷ ps) (c ∷ cs) = p == c && starts_with ps cs

-- `string map [list ${part} ""] ${text}`, with so many characters to be left out first.
unfoldable pub remove_from : Text → ℕ → Text → Text
unfolding starts_with
remove_from part skip [] = []
remove_from part (suc skip) (c ∷ cs) = remove_from part skip cs
remove_from part zero (c ∷ cs) = elim (not (starts_with part []) && starts_with part (c ∷ cs)) [
  | true ↦ remove_from part (length part - 1) cs
  | false ↦ c ∷ remove_from part zero cs
]

unfoldable pub remove : Text → Text → Text
unfolding remove_from
remove part text = remove_from part 0 text

pub starts_with_iff : (t l : Text) → (starts_with t l ≡ true) ↔ ((b : Text) × (l ≡ t ++ b))
unfolding starts_with
starts_with_iff [] l = (λ _. (l, refl), λ _. refl)
starts_with_iff (p ∷ ps) [] = (λ e. cc, λ h. cc)
starts_with_iff (p ∷ ps) (c ∷ cs) = (
  λ h.
      let parts : (p ≡ c) × (starts_with ps cs ≡ true) = ground (arith, h) in
      let (b, e) = (starts_with_iff ps cs).0 parts.1 in (b, ap₂ (λ x xs. x ∷ xs) (sym parts.0) e),
  λ (b, e).
      let same : (c ≡ p) × (cs ≡ ps ++ b) = (cc, cc) in
      let rest = (starts_with_iff ps cs).1 (b, same.1) in ground (arith, same.0, rest),
)

-- A text that does not have the part is left as it is.
pub remove_absent :
    (part text : Text) → ((a b : Text) → text ≡ a ++ part ++ b → ⊥) → remove part text ≡ text
unfolding remove remove_from
remove_absent part [] absent = refl
remove_absent part (c ∷ cs) absent = elim (Bool-cases (starts_with part (c ∷ cs))) [
  | inl here ↦ let (b, e) = (starts_with_iff part (c ∷ cs)).0 here in absurd (absent [] b e)
  | inr not_here ↦
      rw (remove, remove_from, not_here, and_false (not (starts_with part [])))
        (ap (λ l. c ∷ l) (remove_absent part cs (λ a b e. absent (c ∷ a) b (ap (λ l. c ∷ l) e))))
]
