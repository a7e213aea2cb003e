-- ===== src/ClangSelection/Requests.antt =====
-- The loop of `blacklist_macports_clang_versions` ends, and answers the requests that the list holds.
use Prim.Native.String.{String}
use macstrop.Shared.{
  ℕ, zero, suc, ◌≤◌, ◌≡◌, refl, ap, ◌∙◌, Bool, true, false, Option, some, List, [], ◌∷◌, arith,
  length, Bool-cases, inl, inr,
}
use macstrop.ClangSelection.Lists.{blacklist_append, clang}
use macstrop.ClangSelection.Loop.{
  Outcome, failed, done, is_number, ◌and_then◌, blacklist_range, round,
  blacklist_macports_clang_versions,
}

-- A version, or an operator with the version that stands behind it.
pub data Request : Type 0 where
  exactly : String → Request
  range : String → String → Request

abbrev pub requests : List String → List Request
requests [] = []
requests (v ∷ []) = elim (is_number v) [ true ↦ exactly v ∷ [] | false ↦ range v "" ∷ [] ]
requests (v ∷ w ∷ vs) = elim (is_number v) [
  | true ↦ exactly v ∷ requests (w ∷ vs)
  | false ↦ range v w ∷ requests vs
]

module _ (holds : String → String → String → Option Bool) (llvm : List (List String)) where
  abbrev pub answer : Request → Outcome
  answer (exactly v) = done (blacklist_append (clang v) ∷ [])
  answer (range comp refversion) = blacklist_range holds comp refversion llvm

  abbrev pub answers : List Request → Outcome
  answers [] = done []
  answers (q ∷ qs) = answer q and_then answers qs

  round-some : (o rest : Outcome) → round holds llvm o (some rest) ≡ some (o and_then rest)
  unfolding round ◌and_then◌
  round-some failed rest = refl
  round-some (done calls) rest = refl

  -- The loop ends after at most as many rounds as the list has entries, and then it has answered the
  -- requests of the list in their order, up to the first error: a version by itself, an operator with the
  -- entry behind it.
  pub blacklist_macports_clang_versions-answers :
      (fuel : ℕ) (versions : List String)
      → length versions ≤ fuel
      → blacklist_macports_clang_versions holds llvm fuel versions
        ≡ some (answers (requests versions))
  unfolding blacklist_macports_clang_versions
  blacklist_macports_clang_versions-answers fuel [] h = refl
  blacklist_macports_clang_versions-answers zero (v ∷ vs) h = absurd (omega (arith, h))
  blacklist_macports_clang_versions-answers (suc fuel) (v ∷ []) h =
      elim (Bool-cases (is_number v)) [
        | inl e ↦
            rw (e, blacklist_macports_clang_versions, requests)
              (round-some (answer (exactly v)) (done []))
        | inr e ↦
            rw (e, blacklist_macports_clang_versions, requests)
              (round-some (answer (range v "")) (done []))
      ]
  blacklist_macports_clang_versions-answers (suc fuel) (v ∷ w ∷ vs) h =
      elim (Bool-cases (is_number v)) [
        | inl e ↦
            let ih = blacklist_macports_clang_versions-answers fuel (w ∷ vs) (omega (arith, h)) in
            rw (e, blacklist_macports_clang_versions, requests)
              (ap (round holds llvm (answer (exactly v))) ih ∙ round-some (answer (exactly v)) _)
        | inr e ↦
            let ih = blacklist_macports_clang_versions-answers fuel vs (omega (arith, h)) in
            rw (e, blacklist_macports_clang_versions, requests)
              (ap (round holds llvm (answer (range v w))) ih ∙ round-some (answer (range v w)) _)
      ]
