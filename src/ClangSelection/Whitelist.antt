-- ===== src/ClangSelection/Whitelist.antt =====
-- What `whitelist_macports_clang_versions` puts on the two lists.
use Prim.Native.String.{String}
use text.Mathlib.Text.{◌==◌ as str_eq}
use mathlib.Core.List.{reverse, reverse_aux}
use macstrop.Shared.{
  ◌≡◌, inl, inr, refl, ap, ap₂, ◌∙◌, Bool, not, ◌&&◌, List, [], ◌∷◌, ◌++◌, map, if◌then◌else◌,
  Bool-cases,
}
use macstrop.ClangSelection.Lists.{
  Call, whitelist_append, blacklist_append, clang, lindex_0, lrange_1, blacklist_greys, look,
  append_found, whitelist_macports_clang_versions,
}

-- What the calls put on each list. `handle_option-append` (macports/lib/port1.0/portutil.tcl) makes
-- each of its arguments one element of the option, where the user has not set it: a list goes in
-- whole, not name by name.
abbrev pub whitelisted : List Call → List (List String)
whitelisted [] = []
whitelisted (whitelist_append names ∷ calls) = names ∷ whitelisted calls
whitelisted (blacklist_append name ∷ calls) = whitelisted calls

abbrev pub blacklisted : List Call → List String
blacklisted [] = []
blacklisted (whitelist_append names ∷ calls) = blacklisted calls
blacklisted (blacklist_append name ∷ calls) = name ∷ blacklisted calls

pub whitelisted-append :
    (cs ds : List Call) → whitelisted (cs ++ ds) ≡ whitelisted cs ++ whitelisted ds
whitelisted-append [] ds = refl
whitelisted-append (whitelist_append names ∷ cs) ds = ap (λ l. names ∷ l) (whitelisted-append cs ds)
whitelisted-append (blacklist_append name ∷ cs) ds = whitelisted-append cs ds

pub blacklisted-append :
    (cs ds : List Call) → blacklisted (cs ++ ds) ≡ blacklisted cs ++ blacklisted ds
blacklisted-append [] ds = refl
blacklisted-append (whitelist_append names ∷ cs) ds = blacklisted-append cs ds
blacklisted-append (blacklist_append name ∷ cs) ds = ap (λ l. name ∷ l) (blacklisted-append cs ds)

-- The versions that are installed, in their order.
abbrev pub present : (String → Bool) → List String → List String
present installed [] = []
present installed (v ∷ vs) = if installed v then v ∷ present installed vs else present installed vs

module _ (installed : String → Bool) (versions : List String) where
  greys-whitelisted :
      (white : String) (vs : List String) → whitelisted (blacklist_greys installed white vs) ≡ []
  unfolding blacklist_greys
  greys-whitelisted white [] = refl
  greys-whitelisted white (v ∷ vs) = elim (Bool-cases (not (str_eq v white) && not (installed v))) [
    | inl e ↦ rw e (greys-whitelisted white vs)
    | inr e ↦ rw e (greys-whitelisted white vs)
  ]

  look-whitelisted :
      (whites acc : List String) → whitelisted (look installed versions whites acc).1 ≡ []
  unfolding look
  look-whitelisted [] acc = refl
  look-whitelisted (w ∷ ws) acc = elim (Bool-cases (installed w)) [
    | inl e ↦
        rw (e, look)
          (whitelisted-append (blacklist_greys installed w versions) _
            ∙ ap₂ (λ x y. x ++ y) (greys-whitelisted w versions)
                (look-whitelisted ws (clang w ∷ acc)))
    | inr e ↦ rw (e, look) (look-whitelisted ws acc)
  ]

  -- Each find goes to the front.
  look-found :
      (whites acc : List String)
      → (look installed versions whites acc).0
        ≡ reverse_aux (map clang (present installed whites)) acc
  unfolding look
  look-found [] acc = refl
  look-found (w ∷ ws) acc = elim (Bool-cases (installed w)) [
    | inl e ↦ rw (e, look) (look-found ws (clang w ∷ acc))
    | inr e ↦ rw (e, look) (look-found ws acc)
  ]

  abbrev pub alone : String → List String
  alone version = clang version ∷ []

  singles :
      (vs : List String)
      → whitelisted (map (λ v. whitelist_append (clang v ∷ [])) vs) ≡ map alone vs
  singles [] = refl
  singles (v ∷ vs) = ap (λ l. alone v ∷ l) (singles vs)

  -- What `append_found` appends.
  abbrev pub chosen : List String → List (List String)
  chosen [] = map alone versions
  chosen (name ∷ names) = (name ∷ names) ∷ []

  append_found-whitelisted :
      (names : List String) → whitelisted (append_found versions names) ≡ chosen names
  unfolding append_found
  append_found-whitelisted [] = singles versions
  append_found-whitelisted (name ∷ names) = refl

  -- If the first version is installed, the white list gets its name only. If it is not, but some of
  -- the other versions are, the white list gets one element: the list of their names, the last of
  -- them first. If none is installed it gets the name of each version, one element for each, in
  -- their order.
  pub whitelist-whitelisted : whitelisted (whitelist_macports_clang_versions installed versions) ≡ (
      if installed (lindex_0 versions)
      then alone (lindex_0 versions) ∷ []
      else chosen (reverse (map clang (present installed (lrange_1 versions)))))
  unfolding whitelist_macports_clang_versions
  whitelist-whitelisted = elim (Bool-cases (installed (lindex_0 versions))) [
    | inl e ↦ rw e refl
    | inr e ↦ rw e (
        whitelisted-append (look installed versions (lrange_1 versions) []).1 _
        ∙ ap₂ (λ x y. x ++ y) (look-whitelisted (lrange_1 versions) [])
            (append_found-whitelisted (look installed versions (lrange_1 versions) []).0
              ∙ ap chosen (look-found (lrange_1 versions) [])))
  ]
