-- ===== src/PatchUpdater/Ignored.antt =====
-- What .gitignore has after the additions of `pre-patch`.
use mathlib.Core.List.{append-nil, append_assoc}
use macstrop.Shared.{
  ◌+◌, ◌≡◌, refl, sym, ap, ◌∙◌, true, List, [], ◌∷◌, ◌++◌, length, length-append, Bool-cases, inl,
  inr, arith,
}
use macstrop.Shared.Texts.{Text}
use macstrop.PatchUpdater.Ignores.{
  Fgrep, HasPart, in_line, in_rest, IsFgrep, Folder, add_ignore, add_ignores,
}

HasPart-more : (t : Text) (ls ms : List Text) → HasPart t ls → HasPart t (ls ++ ms)
HasPart-more t (l ∷ ls) ms (in_line a b e) = in_line a b e
HasPart-more t (l ∷ ls) ms (in_rest h) = in_rest (HasPart-more t ls ms h)
HasPart-more t [] ms h = elim h [ ]

HasPart-last : (t : Text) (ls : List Text) → HasPart t (ls ++ t ∷ [])
HasPart-last t [] = in_line [] [] (sym (append-nil t))
HasPart-last t (l ∷ ls) = in_rest (HasPart-last t ls)

-- Each of the texts is found.
abbrev pub AllFound : Fgrep → List Text → List Text → Type 0
AllFound fgrep [] lines = Unit {0}
AllFound fgrep (t ∷ ts) lines = (fgrep t lines ≡ true) × AllFound fgrep ts lines

-- What the additions do: lines are put behind the old ones, as many as are counted.
pub record Added (f g : Folder) : Type 0 where
  pub new : List Text
  pub lines : g.lines ≡ f.lines ++ new
  pub counted : g.gitignores ≡ f.gitignores + length new
  pub acts : g.acts ≡ f.acts

module _ (fgrep : Fgrep) (law : IsFgrep fgrep) where
  found_more : (t : Text) (ls ms : List Text) → fgrep t ls ≡ true → fgrep t (ls ++ ms) ≡ true
  found_more t ls ms e = (law.finds t (ls ++ ms)).1 (HasPart-more t ls ms ((law.finds t ls).0 e))

  add_ignore-Added : (t : Text) (f : Folder) → Added f (add_ignore fgrep t f)
  unfolding add_ignore
  add_ignore-Added t f = elim (Bool-cases (fgrep t f.lines)) [
    | inl old ↦
        let same : Added f f = record {
          new = [];
          lines = sym (append-nil f.lines);
          counted = omega arith;
          acts = refl;
        } in
        rw (old, add_ignore) same
    | inr new ↦
        let more : Added f (record f { lines = f.lines ++ t ∷ []; gitignores = f.gitignores + 1 }) =
          record { new = t ∷ []; lines = refl; counted = omega arith; acts = refl } in
        rw (new, add_ignore) more
  ]

  add_ignore_found : (t : Text) (f : Folder) → fgrep t (add_ignore fgrep t f).lines ≡ true
  unfolding add_ignore
  add_ignore_found t f = elim (Bool-cases (fgrep t f.lines)) [
    | inl old ↦ rw (old, add_ignore) old
    | inr new ↦ rw (new, add_ignore) ((law.finds t (f.lines ++ t ∷ [])).1 (HasPart-last t f.lines))
  ]

  -- One addition after the other.
  Added-Added : {f g h : Folder} → Added f g → Added g h → Added f h
  Added-Added {f} {g} {h} a b = record {
    new = a.new ++ b.new;
    lines = b.lines ∙ (ap (λ l. l ++ b.new) a.lines ∙ append_assoc f.lines a.new b.new);
    counted = b.counted ∙ omega (arith, a.counted, length-append a.new b.new);
    acts = b.acts ∙ a.acts;
  }

  pub add_ignores-Added :
      (ts : List Text) (f : Folder)
      → Added f (add_ignores fgrep ts f) × AllFound fgrep ts (add_ignores fgrep ts f).lines
  unfolding add_ignores
  add_ignores-Added [] f = (
    record { new = []; lines = sym (append-nil f.lines); counted = omega arith; acts = refl },
    tt,
  )
  add_ignores-Added (t ∷ ts) f =
      let g = add_ignore fgrep t f in
      let (rest, found) = add_ignores-Added ts g in
      (
        Added-Added (add_ignore-Added t f) rest,
        (ap (fgrep t) rest.lines ∙ found_more t g.lines rest.new (add_ignore_found t f), found),
      )

  add_ignores_nothing :
      (ts : List Text) (f : Folder) → AllFound fgrep ts f.lines → add_ignores fgrep ts f ≡ f
  unfolding add_ignores add_ignore
  add_ignores_nothing [] f h = refl
  add_ignores_nothing (t ∷ ts) f h = rw (h.0) (add_ignores_nothing ts f h.1)

  -- Once the texts were added, adding them again changes nothing: each is found, as `fgrep` finds
  -- a text that is a part of a line and finds no other.
  pub add_ignores_twice :
      (ts : List Text) (f : Folder)
      → add_ignores fgrep ts (add_ignores fgrep ts f) ≡ add_ignores fgrep ts f
  add_ignores_twice ts f =
      add_ignores_nothing ts (add_ignores fgrep ts f) (add_ignores-Added ts f).1
