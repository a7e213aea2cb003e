-- ===== src/PreserveLibraries/Stability.antt =====
-- What no step of `preserve_libraries` takes away, and what the TOC leaves as it was.
use Prim.Native.String.{String}
use mathlib.Core.List.{Memᴰ}
use mathlib.Core.List.Memᴰ
use macstrop.Shared.{◌≡◌, ◌≢◌, ap, ◌∙◌, subst, Option, some}
use macstrop.PreserveLibraries.Tree.{at, current, Tree}
use macstrop.PreserveLibraries.Preserve.{Config, Prefix, own, open_toc, current_libs}
use macstrop.PreserveLibraries.Extends.{Extends}
use macstrop.PreserveLibraries.Effect.{Did-Extends, TocDid-Extends}
use macstrop.PreserveLibraries.Patterns.{Stable}
use macstrop.PreserveLibraries.Copies.{Reaches, Did-Reaches, TocDid-Reaches}
use macstrop.PreserveLibraries.Ends.{open_toc-away}

pub Stable-Unit : (c : Config) (live : Prefix) (p : String) → Stable c live p (λ _. Unit {0})
Stable-Unit c live p = record {
  by_backup = λ l m k o r r' f s d x. x;
  by_current = λ l m k o r r' f s d x. x;
  by_toc = λ n m k o r r' s d x. x;
}

module _ (c : Config) (live : Prefix) (n : String) where
  pub Stable-Reaches : (p : String) → ¬ Memᴰ n live.tocs → Stable c live p (Reaches c n)
  Stable-Reaches p no_toc = record {
    by_backup = λ l m k o r r' f s d x. Did-Reaches c n l k o r r' s d x;
    by_current = λ l m k o r r' f s d x. Did-Reaches c n l k o r r' s d x;
    by_toc = λ name m k o r r' s d x.
        TocDid-Reaches c n name k o r r' s (λ e. no_toc (subst (λ a. Memᴰ a live.tocs) e m)) d x;
  }

  pub Stable-Extends :
      (p : String) (X : Tree → Type 0)
      → ((t t' : Tree) → Extends t t' → X t → X t')
      → Stable c live p X
  Stable-Extends p X h = record {
    by_backup = λ l m k o r r' f s d x. h r.tree r'.tree (Did-Extends c l k o r r' d) x;
    by_current = λ l m k o r r' f s d x. h r.tree r'.tree (Did-Extends c l k o r r' d) x;
    by_toc = λ name m k o r r' s d x. h r.tree r'.tree (TocDid-Extends c name k o r r' d) x;
  }

  module _ (toc : Option String) (other : toc ≢ some n) (destroot : Tree) where
    pub own_away : open_toc c toc destroot (at (own c) n) ≡ destroot (at (own c) n)
    own_away =
        open_toc-away c destroot toc (at (own c) n)
          (λ name e q. other (e ∙ ap (λ a. some (a.name)) q))

    pub current_away : open_toc c toc destroot (at current n) ≡ destroot (at current n)
    current_away =
        open_toc-away c destroot toc (at current n)
          (λ name e q. other (e ∙ ap (λ a. some (a.name)) q))

  pub at-current :
      (p : String) → Memᴰ n (live.glob current p) → Memᴰ (at current n) (current_libs live p)
  unfolding current_libs
  at-current p m = Memᴰ.map (at current) m
