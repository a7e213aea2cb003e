-- ===== src/PreserveLibraries/CallbackOnce.antt =====
-- When the callback preserves libraries, and which.
use Prim.Native.String.{String}
use mathlib.Core.List.{Memᴰ}
use macstrop.Shared.Bools.{some_injective}
use macstrop.Shared.{
  ℕ, ◌+◌, ◌<◌, ◌≡◌, refl, sym, ap, ◌∙◌, ◌&&◌, Option, none, some, List, [], ◌∷◌, map, length,
  if◌then◌else◌, ◌==◌, arith, Bool-cases, inl, inr,
}
use macstrop.Shared.Texts.{Text}
use macstrop.Shared.Options.{◌>>=◌, some-bind}
use macstrop.PreserveLibraries.Preserve.{Config, Prefix, flat, preserve_libraries}
use macstrop.PreserveLibraries.BaseName.{patterns_for}
use macstrop.PreserveLibraries.BaseNames.{before_dot, callback_patterns-before_dot}
use macstrop.PreserveLibraries.Callback.{
  Stage, LibraryCall, Own, preserve_counted, preserve_each, callback,
}

then_some : (m : Option Stage) → (m >>= λ t. some t) ≡ m
then_some none = refl
then_some (some t) = refl

module _ (c : Config) (live : Prefix) where
  counted_once :
      (q : LibraryCall) (s t : Stage)
      → preserve_counted c live q s ≡ some t
      → t.called ≡ s.called + 1
  unfolding preserve_counted
  counted_once q s t e =
      let (r, _, is) = some-bind (preserve_libraries c live q.toc q.patterns s.tree) _ e in
      sym (ap (λ (x : Stage). x.called) (some_injective is))

  counted_each :
      (qs : List LibraryCall) (s t : Stage)
      → preserve_each c live qs s ≡ some t
      → t.called ≡ s.called + length qs
  unfolding preserve_each
  counted_each [] s t e = omega (arith, ap (λ (x : Stage). x.called) (some_injective e))
  counted_each (q ∷ qs) s t e =
      let (r, first, is) = some-bind (preserve_counted c live q s) (preserve_each c live qs) e in
      omega (arith, counted_once q s r first, counted_each qs r t is)

  -- The patterns for the base names of the port's own libraries.
  abbrev pub own_patterns : Own → List String
  own_patterns own =
      map own.as_string
        (own.lsort_unique (flat (λ f. patterns_for own.darwin (before_dot f)) own.libs))

  abbrev pub own_call : Own → Option String → LibraryCall
  own_call own toc = record { toc = toc; patterns = own_patterns own }

  callback_if :
      (fuel : ℕ) (own : Own) (toc : Option String) (t : Stage)
      → ((f : Text) → Memᴰ f own.libs → length f < fuel)
      → callback c live fuel own toc t
        ≡ preserve_each c live (if c.enabled && t.called == 0 then own_call own toc ∷ [] else []) t
  unfolding callback preserve_each
  callback_if fuel own toc t enough = elim (Bool-cases (c.enabled && t.called == 0)) [
    | inl calls ↦
        rw (calls, callback_patterns-before_dot own.darwin fuel own.libs enough)
          (sym (then_some (preserve_counted c live (own_call own toc) t)))
    | inr silent ↦ rw (silent) refl
  ]

  -- Let the Portfile make any number of calls of `preserve_libraries`, with the counter at 0
  -- before the first and none of them an error, and the fuel be more than the length of each name
  -- of the port's own libraries. Then the calls are counted, and the callback is one further call
  -- for the patterns of the base names of the port's own libraries if the variant is set and the
  -- Portfile made no call, and otherwise none.
  pub callback_once :
      (fuel : ℕ) (own : Own) (toc : Option String) (qs : List LibraryCall) (s t : Stage)
      → s.called ≡ 0
      → preserve_each c live qs s ≡ some t
      → ((f : Text) → Memᴰ f own.libs → length f < fuel)
      → (t.called ≡ length qs)
        × (callback c live fuel own toc t
            ≡ preserve_each c live
                (if c.enabled && length qs == 0 then own_call own toc ∷ [] else [])
                t)
  callback_once fuel own toc qs s t start done enough =
      let count : t.called ≡ length qs = omega (arith, start, counted_each qs s t done) in
      (
        count,
        callback_if fuel own toc t enough
            ∙ ap
                (λ n.
                  preserve_each c live (if c.enabled && n == 0 then own_call own toc ∷ [] else [])
                    t)
                count,
      )
