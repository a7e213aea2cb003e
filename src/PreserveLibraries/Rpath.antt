-- ===== src/PreserveLibraries/Rpath.antt =====
-- `update_preserved_libraries` of other platforms than OS X: the search path of a preserved library.
use macstrop.Shared.{
  ℕ, ◌≡◌, ◌≢◌, refl, Bool, true, false, ◌||◌, ◌&&◌, Option, none, some, List, [], ◌∷◌, ◌++◌,
  if◌then◌else◌, arith, Bool-cases, inl, inr, ◌==◌, not, ==_self,
}
use mathlib.Core.List.{Memᴰ}
use mathlib.Core.List.Memᴰ
use macstrop.Shared.Texts.{Text, has_char}
use macstrop.PreserveLibraries.BaseName.{text_ne}

-- Put a character to the first part.
unfoldable pub extend : ℕ → List Text → List Text
extend c [] = (c ∷ []) ∷ []
extend c (t ∷ ts) = (c ∷ t) ∷ ts

-- `split ${text} ":"` of a text that is not empty.
unfoldable pub split_colon : Text → List Text
unfolding extend
split_colon [] = [] ∷ []
split_colon (c ∷ cs) = let rest = split_colon cs in if c == b':' then [] ∷ rest else extend c rest

-- `split` of the empty text is the empty list.
unfoldable pub split : Text → List Text
unfolding split_colon
split [] = []
split (c ∷ cs) = split_colon (c ∷ cs)

-- How Tcl takes a text for a list, and a list for a text.
pub record TclLists : Type 0 where
  pub as_list : Text → List Text
  pub as_text : List Text → Text

-- A character that is not special in a list of Tcl: no white space, brace, quote or backslash.
unfoldable pub is_plain : ℕ → Bool
is_plain c = not (
    c == b' '
    || (c == 9
        || (c == 10
            || (c == 11
                || (c == 12
                    || (c == 13 || (c == b'{' || (c == b'}' || (c == b'"' || c == b'\\')))))))))

unfoldable pub all_plain : Text → Bool
unfolding is_plain
all_plain [] = true
all_plain (c ∷ cs) = is_plain c && all_plain cs

-- A text with plain characters only is a list of one word, and a list's text has a colon only if one of its
-- words has one.
pub record IsTcl (tcl : TclLists) : Type 0 where
  pub one_word : (t : Text) → t ≢ [] → all_plain t ≡ true → tcl.as_list t ≡ t ∷ []
  pub no_colon :
      (ts : List Text)
      → ((t : Text) → Memᴰ t ts → has_char b':' t ≡ false)
      → has_char b':' (tcl.as_text ts) ≡ false

-- `[lsearch -exact ${list} ${pattern}] < 0`
unfoldable pub lsearch_fails : List Text → Text → Bool
unfolding text_ne
lsearch_fails [] pattern = true
lsearch_fails (t ∷ ts) pattern = text_ne t pattern && lsearch_fails ts pattern

-- The text that is given to `patchelf --set-rpath` for a library with the path `lrpath`, if it is called.
unfoldable pub new_rpath : TclLists → Text → Text → Option Text
unfolding lsearch_fails split
new_rpath tcl dir lrpath =
    let joined = dir ++ b':' ∷ lrpath in
    if lsearch_fails (tcl.as_list joined) (tcl.as_text (split lrpath)) then some joined else none

extend-no_colon :
    (c : ℕ) (ts : List Text) (t : Text)
    → (c == b':') ≡ false
    → ((t : Text) → Memᴰ t ts → has_char b':' t ≡ false)
    → Memᴰ t (extend c ts)
    → has_char b':' t ≡ false
unfolding extend has_char
extend-no_colon c [] t e h m = rw (Memᴰ.eq_of_singleton m, e) refl
extend-no_colon c (u ∷ us) t e h m = elim (Memᴰ.cases_cons m) [
  | inl same ↦ rw (same, e) (h u (Memᴰ.head refl))
  | inr later ↦ h t (Memᴰ.tail later)
]

split_colon-no_colon : (text t : Text) → Memᴰ t (split_colon text) → has_char b':' t ≡ false
unfolding split_colon has_char
split_colon-no_colon [] t m = rw (Memᴰ.eq_of_singleton m) refl
split_colon-no_colon (c ∷ cs) t m =
    let ih = split_colon-no_colon cs in
    elim (Bool-cases (c == b':')) [
      | inl colon ↦ elim (Memᴰ.cases_cons (rw colon at m)) [
        | inl same ↦ rw same refl
        | inr later ↦ ih t later
      ]
      | inr other ↦ extend-no_colon c (split_colon cs) t other ih (rw other at m)
    ]

split-no_colon : (text t : Text) → Memᴰ t (split text) → has_char b':' t ≡ false
unfolding split
split-no_colon [] t m = elim m [ ]
split-no_colon (c ∷ cs) t m = split_colon-no_colon (c ∷ cs) t m

has-append : (c : ℕ) (xs ys : Text) → has_char c (xs ++ c ∷ ys) ≡ true
unfolding has_char
has-append c [] ys = rw (==_self c) refl
has-append c (x ∷ xs) ys = ground (arith, has-append c xs ys)

text_ne-has : (f g : Text) → has_char b':' f ≡ true → has_char b':' g ≡ false → text_ne f g ≡ true
unfolding has_char text_ne
text_ne-has [] [] h k = cc
text_ne-has [] (d ∷ ds) h k = refl
text_ne-has (c ∷ cs) [] h k = refl
text_ne-has (c ∷ cs) (d ∷ ds) h k = ground (arith, text_ne-has cs ds)

append-cons_nonempty : (xs : Text) (c : ℕ) (ys : Text) → xs ++ c ∷ ys ≢ []
append-cons_nonempty [] c ys e = cc
append-cons_nonempty (x ∷ xs) c ys e = cc

-- Where neither the directory nor the path has a character that is special in a list of Tcl, the directory
-- is always put before the path, also where the path has it already.
pub new_rpath_always :
    (tcl : TclLists) (dir lrpath : Text)
    → IsTcl tcl
    → all_plain (dir ++ b':' ∷ lrpath) ≡ true
    → new_rpath tcl dir lrpath ≡ some (dir ++ b':' ∷ lrpath)
unfolding new_rpath lsearch_fails
new_rpath_always tcl dir lrpath is plain =
    let joined : Text = dir ++ b':' ∷ lrpath in
    let list = is.one_word joined (append-cons_nonempty dir b':' lrpath) plain in
    let pattern = is.no_colon (split lrpath) (split-no_colon lrpath) in
    let differs =
      text_ne-has joined (tcl.as_text (split lrpath)) (has-append b':' dir lrpath) pattern in
    rw (list, lsearch_fails, differs) refl
