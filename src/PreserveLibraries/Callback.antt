-- ===== src/PreserveLibraries/Callback.antt =====
-- `PRL::called` and `PRL::callback`: the libraries are preserved though the Portfile does not ask
-- for it.
use Prim.Native.String.{String}
use macstrop.Shared.{
  ℕ, ◌+◌, Bool, ◌&&◌, Option, some, List, [], ◌∷◌, ◌++◌, map, if◌then◌else◌, ◌==◌,
}
use macstrop.Shared.Texts.{Text}
use macstrop.Shared.Options.{◌>>=◌}
use macstrop.PreserveLibraries.Tree.{Loc, Tree}
use macstrop.PreserveLibraries.Preserve.{Config, Prefix, preserve_libraries}
use macstrop.PreserveLibraries.BaseName.{callback_patterns}

-- `PRL::called`, the destroot, and the libraries that the notes of the port name.
pub record Stage : Type 0 where
  pub called : ℕ
  pub tree : Tree
  pub notes : List Loc

-- A call of `preserve_libraries`, with the name of its TOC file and its patterns.
pub record LibraryCall : Type 0 where
  pub toc : Option String
  pub patterns : List String

-- What the callback is given: the platform, the names of the port's own libraries, `lsort
-- -unique`, and how a text is a value of Tcl.
pub record Own : Type 0 where
  pub darwin : Bool
  pub libs : List Text
  pub lsort_unique : List Text → List Text
  pub as_string : Text → String

module _ (c : Config) (live : Prefix) where
  unfoldable pub preserve_counted : LibraryCall → Stage → Option Stage
  unfolding preserve_libraries
  preserve_counted q s = do
    r ← preserve_libraries c live q.toc q.patterns s.tree
    some (record { called = s.called + 1; tree = r.tree; notes = s.notes ++ r.extra })

  -- The calls of the Portfile.
  unfoldable pub preserve_each : List LibraryCall → Stage → Option Stage
  unfolding preserve_counted
  preserve_each [] s = some s
  preserve_each (q ∷ qs) s = do t ← preserve_counted q s; preserve_each qs t

  -- The block `post-destroot`, with the fuel of `callback_patterns`.
  unfoldable pub callback : ℕ → Own → Option String → Stage → Option Stage
  unfolding callback_patterns preserve_counted
  callback fuel own toc s =
      if c.enabled && s.called == 0
      then (do
        patterns ← callback_patterns own.darwin fuel own.libs
        preserve_counted
            (record { toc = toc; patterns = map own.as_string (own.lsort_unique patterns) }) s)
      else some s
