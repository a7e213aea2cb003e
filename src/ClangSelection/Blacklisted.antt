-- ===== src/ClangSelection/Blacklisted.antt =====
-- What `whitelist_macports_clang_versions` puts on the black list.
use Prim.Native.String.{String}
use text.Mathlib.Text.{◌==◌ as str_eq}
use text.Mathlib.TextEquality.{eq_iff}
use mathlib.Core.Bool.{false≢true}
use mathlib.Core.List.{append-nil, Memᴰ}
use mathlib.Core.List.Memᴰ
use macstrop.Shared.{
  ◌≡◌, ◌↔◌, inl, inr, refl, sym, ap, ◌∙◌, subst, Bool, true, false, not, ◌&&◌, List, [], ◌∷◌, ◌++◌,
  map, arith, Bool-cases,
}
use macstrop.ClangSelection.Lists.{
  whitelist_append, clang, lindex_0, lrange_1, blacklist_greys, look, append_found,
  whitelist_macports_clang_versions,
}
use macstrop.ClangSelection.Whitelist.{blacklisted, blacklisted-append}

module _ (installed : String → Bool) where
  -- The name of a version that is not installed.
  abbrev pub IsAbsent : String → List String → Type 0
  IsAbsent name vs = (v : String) × Memᴰ v vs × (installed v ≡ false) × (clang v ≡ name)

  abbrev pub HasOne : List String → Type 0
  HasOne whites = (white : String) × Memᴰ white whites × (installed white ≡ true)

  IsAbsent-cons : (name v : String) (vs : List String) → IsAbsent name vs → IsAbsent name (v ∷ vs)
  IsAbsent-cons name v vs (u, m, e, f) = (u, Memᴰ.tail m, e, f)

  greys-IsAbsent :
      (white name : String) (vs : List String)
      → Memᴰ name (blacklisted (blacklist_greys installed white vs))
      → IsAbsent name vs
  unfolding blacklist_greys
  greys-IsAbsent white name [] m = elim m [ ]
  greys-IsAbsent white name (v ∷ vs) m =
      let ih = greys-IsAbsent white name vs in
      elim (Bool-cases (not (str_eq v white) && not (installed v))) [
        | inl e ↦ elim (Memᴰ.cases_cons (rw e at m)) [
          | inl same ↦ (v, Memᴰ.head refl, ground (arith, e), sym same)
          | inr later ↦ IsAbsent-cons name v vs (ih later)
        ]
        | inr e ↦ IsAbsent-cons name v vs (ih (rw e at m))
      ]

  absent-greys :
      (white v : String) (vs : List String)
      → installed white ≡ true
      → Memᴰ v vs
      → installed v ≡ false
      → Memᴰ (clang v) (blacklisted (blacklist_greys installed white vs))
  unfolding blacklist_greys
  absent-greys white v [] is m e = elim m [ ]
  absent-greys white v (u ∷ us) is (Memᴰ.head same) e =
      let absent : installed u ≡ false = ap installed (sym same) ∙ e in
      let differ : str_eq u white ≡ false = elim (Bool-cases (str_eq u white)) [
        | inl f ↦ absurd (false≢true (sym absent ∙ (ap installed ((eq_iff u white).0 f) ∙ is)))
        | inr f ↦ f
      ] in
      rw (differ, absent) (Memᴰ.head (ap clang same))
  absent-greys white v (u ∷ us) is (Memᴰ.tail m) e =
      let ih = absent-greys white v us is m e in
      elim (Bool-cases (not (str_eq u white) && not (installed u))) [
        | inl f ↦ rw f (Memᴰ.tail ih)
        | inr f ↦ rw f ih
      ]

  module _ (versions : List String) where
    look-IsAbsent :
        (name : String) (whites acc : List String)
        → Memᴰ name (blacklisted (look installed versions whites acc).1)
        → HasOne whites × IsAbsent name versions
    unfolding look
    look-IsAbsent name [] acc m = elim m [ ]
    look-IsAbsent name (w ∷ ws) acc m = elim (Bool-cases (installed w)) [
      | inl e ↦
          let m' =
            subst (λ l. Memᴰ name l) (blacklisted-append (blacklist_greys installed w versions) _)
              (rw (e, look) at m) in
          elim (Memᴰ.append_cases (blacklisted (blacklist_greys installed w versions)) m') [
            | inl now ↦ ((w, Memᴰ.head refl, e), greys-IsAbsent w name versions now)
            | inr later ↦ ((w, Memᴰ.head refl, e), (look-IsAbsent name ws (clang w ∷ acc) later).1)
          ]
      | inr e ↦
          let ((u, h, f), absent) = look-IsAbsent name ws acc (rw (e, look) at m) in
          ((u, Memᴰ.tail h, f), absent)
    ]

    absent-look :
        (v white : String) (whites acc : List String)
        → Memᴰ white whites
        → installed white ≡ true
        → Memᴰ v versions
        → installed v ≡ false
        → Memᴰ (clang v) (blacklisted (look installed versions whites acc).1)
    unfolding look
    absent-look v white [] acc h is m e = elim h [ ]
    absent-look v white (w ∷ ws) acc (Memᴰ.head same) is m e =
        let is' : installed w ≡ true = ap installed (sym same) ∙ is in
        rw (is', look)
          (subst (λ l. Memᴰ (clang v) l)
            (sym (blacklisted-append (blacklist_greys installed w versions) _))
            (Memᴰ.append_left _ (absent-greys w v versions is' m e)))
    absent-look v white (w ∷ ws) acc (Memᴰ.tail h) is m e = elim (Bool-cases (installed w)) [
      | inl f ↦
          let ih = absent-look v white ws (clang w ∷ acc) h is m e in
          rw (f, look)
            (subst (λ l. Memᴰ (clang v) l)
              (sym (blacklisted-append (blacklist_greys installed w versions) _))
              (Memᴰ.append_right (blacklisted (blacklist_greys installed w versions)) ih))
      | inr f ↦ rw (f, look) (absent-look v white ws acc h is m e)
    ]

    append_found-blacklisted :
        (names : List String) → blacklisted (append_found versions names) ≡ []
    unfolding append_found
    append_found-blacklisted [] = go versions
      where
        go : (vs : List String) → blacklisted (map (λ v. whitelist_append (clang v ∷ [])) vs) ≡ []
        go [] = refl
        go (v ∷ vs) = go vs
    append_found-blacklisted (name ∷ names) = refl

    whitelist-calls :
        installed (lindex_0 versions) ≡ false
        → blacklisted (whitelist_macports_clang_versions installed versions)
          ≡ blacklisted (look installed versions (lrange_1 versions) []).1
    unfolding whitelist_macports_clang_versions
    whitelist-calls e = rw e (
        blacklisted-append (look installed versions (lrange_1 versions) []).1 _
        ∙ ap (λ l. blacklisted (look installed versions (lrange_1 versions) []).1 ++ l)
            (append_found-blacklisted (look installed versions (lrange_1 versions) []).0)
        ∙ append-nil _)

    -- A name is blacklisted exactly if it is the name of a listed version that is not installed, the first
    -- version is not installed, and one of the others is.
    pub whitelist-blacklisted :
        (name : String)
        → Memᴰ name (blacklisted (whitelist_macports_clang_versions installed versions)) ↔ (
            (installed (lindex_0 versions) ≡ false)
            × HasOne (lrange_1 versions)
            × IsAbsent name versions)
    unfolding whitelist_macports_clang_versions
    whitelist-blacklisted name = (there, back)
      where
        there :
            Memᴰ name (blacklisted (whitelist_macports_clang_versions installed versions))
            → (installed (lindex_0 versions) ≡ false)
              × HasOne (lrange_1 versions)
              × IsAbsent name versions
        there m = elim (Bool-cases (installed (lindex_0 versions))) [
          | inl e ↦ absurd (Memᴰ.not-nil (rw e at m))
          | inr e ↦
              let (one, absent) =
                look-IsAbsent name (lrange_1 versions) []
                  (subst (λ l. Memᴰ name l) (whitelist-calls e) m) in
              (e, one, absent)
        ]

        back :
            (installed (lindex_0 versions) ≡ false)
              × HasOne (lrange_1 versions)
              × IsAbsent name versions
            → Memᴰ name (blacklisted (whitelist_macports_clang_versions installed versions))
        back (e, (white, h, is), (v, m, absent, same)) =
            subst (λ l. Memᴰ name l) (sym (whitelist-calls e))
              (subst (λ s. Memᴰ s (blacklisted (look installed versions (lrange_1 versions) []).1))
                same (absent-look v white (lrange_1 versions) [] h is m absent))
