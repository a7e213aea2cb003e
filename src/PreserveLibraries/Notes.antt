-- ===== src/PreserveLibraries/Notes.antt =====
-- The libraries that the notes of the port name are those that the TOC calls hidden.
use Prim.Native.String.{String}
use text.Mathlib.Text.{◌==◌ as str_eq}
use mathlib.Core.List.{append_assoc, append-nil}
use macstrop.Shared.Options.{◌>>=◌, some-bind}
use macstrop.Shared.{
  ◌≡◌, refl, sym, ap, ap₂, ◌∙◌, subst, Bool, true, false, ◌&&◌, ◌||◌, Option, none, some, List, [],
  ◌∷◌, ◌++◌, if◌then◌else◌, inl, inr, Bool-cases,
}
use macstrop.PreserveLibraries.Tree.{
  loc_eq, Loc, at, current, Tree, permissions, exists, create, set_permissions, in_previous, link,
}
use macstrop.PreserveLibraries.Preserve.{
  Config, Prefix, Entry, Run, own, kept, wanted, is_link, preserve_file, preserve_backup,
  preserve_current, preserve_toc, provider, listed, preserve_pattern, each, existing_backups,
  current_libs, open_toc, close_toc, preserve_libraries, old_exported, old_hidden, old_toc,
  current_copied, current_exported, current_hidden, provided_by, end_of_line,
}
use macstrop.PreserveLibraries.Extends.{IsSolid}
use macstrop.PreserveLibraries.Progress.{IsPlain}
use macstrop.PreserveLibraries.Ends.{IsNew}
use macstrop.PreserveLibraries.Safety.{preserve_libraries-adds}

abbrev pub hidden_of : Entry → List Loc
hidden_of (old_exported s) = []
hidden_of (old_hidden l) = l ∷ []
hidden_of (old_toc s) = []
hidden_of (current_copied l) = []
hidden_of (current_exported s) = []
hidden_of (current_hidden l) = l ∷ []
hidden_of (provided_by s) = []
hidden_of end_of_line = []

abbrev pub hidden_in : List Entry → List Loc
hidden_in [] = []
hidden_in (e ∷ es) = hidden_of e ++ hidden_in es

hidden_in-append : (es fs : List Entry) → hidden_in (es ++ fs) ≡ hidden_in es ++ hidden_in fs
hidden_in-append [] fs = refl
hidden_in-append (e ∷ es) fs =
    ap (λ l. hidden_of e ++ l) (hidden_in-append es fs)
    ∙ sym (append_assoc (hidden_of e) (hidden_in es) (hidden_in fs))

some_eq : (r r' : Run) → some r ≡ some r' → r ≡ r'
some_eq r r' e = cc

abbrev Tells : Run → Type 0
Tells r = r.extra ≡ hidden_in r.toc

-- Where the step comes to an end, it keeps that.
abbrev Keeps : (Run → Option Run) → Type 0
Keeps f = (r r' : Run) → f r ≡ some r' → Tells r → Tells r'

Keeps-then : (f g : Run → Option Run) → Keeps f → Keeps g → Keeps (λ r. f r >>= g)
Keeps-then f g h k r r' e t =
    let (r'', e', e'') = some-bind (f r) g e in k r'' r' e'' (h r r'' e' t)

Keeps-each :
    {A : Type 0} (f : A → Run → Option Run) (xs : List A)
    → ((x : A) → Keeps (f x))
    → Keeps (each f xs)
unfolding each
Keeps-each f [] h = λ r r' e t. subst Tells (some_eq r r' e) t
Keeps-each f (x ∷ xs) h = Keeps-then (f x) (each f xs) (h x) (Keeps-each f xs h)

preserve_file-Keeps :
    (c : Config) (live : Prefix) (ex : Bool → List Entry) (hidden : List Entry) (l : Loc)
    → ((b : Bool) → hidden_in (ex b) ≡ [])
    → hidden_in hidden ≡ l ∷ []
    → Keeps (preserve_file c live ex hidden l)
unfolding preserve_file
preserve_file-Keeps c live ex hidden l none_out one_in r r' e t =
    elim (Bool-cases (wanted c r.tree l)) [
      | inr no_need ↦ subst Tells (some_eq r r' (rw no_need at e)) t
      | inl need ↦
          let (mode, _, e₁) = some-bind (permissions live.tree l) _ (rw need at e) in
          let (node, _, e₂) = some-bind (live.tree l) _ e₁ in
          let (copied, _, e₃) = some-bind (create r.tree (kept c l) node) _ e₂ in
          elim (Bool-cases (exists copied (at current l.name))) [
            | inl there ↦
                subst Tells (some_eq _ r' (rw there at e₃))
                  (ap₂ (λ x y. x ++ y) t (sym one_in) ∙ sym (hidden_in-append r.toc hidden))
            | inr not_there ↦
                let (linked, _, e₄) =
                  some-bind
                    (create (set_permissions copied (kept c l) mode) (at current l.name)
                      (link (in_previous c.subport l.name)))
                    _ (rw not_there at e₃) in
                subst Tells (some_eq _ r' e₄) (
                  t
                  ∙ (sym (append-nil (hidden_in r.toc))
                      ∙ (ap (λ y. hidden_in r.toc ++ y) (sym (none_out (is_link node)))
                          ∙ sym (hidden_in-append r.toc (ex (is_link node))))))
          ]
    ]

provider-hidden_in : (c : Config) (port : String) → hidden_in (provider c port) ≡ []
unfolding provider
provider-hidden_in c port = go c.ports
  where
    go :
        (ps : List String)
        → hidden_in (elim ps [
          | [] ↦ end_of_line ∷ []
          | q ∷ qs ↦ if str_eq port "0" then end_of_line ∷ [] else provided_by port ∷ []
        ])
          ≡ []
    go [] = refl
    go (q ∷ qs) = elim (Bool-cases (str_eq port "0")) [ inl e ↦ rw e refl | inr e ↦ rw e refl ]

exported-hidden_in :
    (c : Config) (l : Loc) (port : String) (b : Bool)
    → hidden_in
        ((if b then [] else current_copied l ∷ []) ++ (current_exported l.name ∷ provider c port))
      ≡ []
exported-hidden_in c l port true = provider-hidden_in c port
exported-hidden_in c l port false = provider-hidden_in c port

module _ (c : Config) (live : Prefix) where
  backup-Keeps : (l : Loc) → Keeps (preserve_backup c live l)
  unfolding preserve_backup
  backup-Keeps l =
      preserve_file-Keeps c live (λ _. old_exported l.name ∷ []) (old_hidden l ∷ []) l (λ b. refl)
        refl

  current-Keeps : (l : Loc) → Keeps (preserve_current c live l)
  unfolding preserve_current
  current-Keeps l r r' e t =
      let port = live.registered l in
      let nothing = provider-hidden_in c port in
      elim (Bool-cases (str_eq port c.subport || listed port c.ports)) [
        | inl ours ↦
            preserve_file-Keeps c live
              (λ a_link.
                (if a_link then [] else current_copied l ∷ [])
                ++ (current_exported l.name ∷ provider c port))
              (current_hidden l ∷ provider c port) l (exported-hidden_in c l port)
              (ap (λ ls. l ∷ ls) nothing) r r' (rw ours at e) t
        | inr other ↦ subst Tells (some_eq r r' (rw other at e)) t
      ]

  toc-Keeps : (name : String) → Keeps (preserve_toc c live name)
  unfolding preserve_toc
  toc-Keeps name r r' e t = elim (Bool-cases (exists r.tree (at (own c) name))) [
    | inl there ↦ subst Tells (some_eq r r' (rw there at e)) t
    | inr not_there ↦
        let (mode, _, e₁) =
          some-bind (permissions live.tree (at (own c) name)) _ (rw not_there at e) in
        let (node, _, e₂) = some-bind (live.tree (at (own c) name)) _ e₁ in
        let (copied, _, e₃) = some-bind (create r.tree (at (own c) name) node) _ e₂ in
        subst Tells (some_eq _ r' e₃) (
          t
          ∙ (sym (append-nil (hidden_in r.toc)) ∙ sym (hidden_in-append r.toc (old_toc name ∷ []))))
  ]

  pattern-Keeps : (p : String) → Keeps (preserve_pattern c live p)
  unfolding preserve_pattern
  pattern-Keeps p =
      Keeps-then (each (preserve_backup c live) (existing_backups c live p)) _
        (Keeps-each (preserve_backup c live) (existing_backups c live p) backup-Keeps)
        (Keeps-then (each (preserve_toc c live) live.tocs)
          (each (preserve_current c live) (current_libs live p))
          (Keeps-each (preserve_toc c live) live.tocs toc-Keeps)
          (Keeps-each (preserve_current c live) (current_libs live p) current-Keeps))

close_toc-Tells : (c : Config) (toc : Option String) (r : Run) → Tells r → Tells (close_toc c toc r)
unfolding close_toc
close_toc-Tells c none r t = t
close_toc-Tells c (some name) r t = go r.toc
  where
    go :
        (es : List Entry)
        → Tells (elim es [
          | [] ↦ record r { tree = λ q. if loc_eq (at (own c) name) q then none else r.tree q }
          | e ∷ es ↦ r
        ])
    go [] = t
    go (e ∷ es) = t

libraries-Tells :
    (c : Config) (live : Prefix) (toc : Option String) (patterns : List String) (destroot : Tree)
    (r : Run)
    → preserve_libraries c live toc patterns destroot ≡ some r
    → Tells r
unfolding preserve_libraries
libraries-Tells c live toc patterns destroot r e =
    elim (Bool-cases (c.enabled && live.srcdir_is_directory)) [
      | inr off ↦ subst Tells (some_eq _ r (rw off at e)) refl
      | inl on ↦
          let start : Run = record { tree = open_toc c toc destroot; toc = []; extra = [] } in
          let (r', e', e'') =
            some-bind (each (preserve_pattern c live) patterns start) _ (rw on at e) in
          subst Tells (some_eq _ r e'') (
            close_toc-Tells c toc r' (
              Keeps-each (preserve_pattern c live) patterns (pattern-Keeps c live) start r' e'
                refl))
    ]

-- Let all files that are found on the disk be regular, the destroot have no dangling link, and no file of the
-- new TOC's name. Then `preserve_libraries` runs to its end, and the libraries that its notes name are those
-- that the TOC calls hidden, in the order of the TOC.
pub preserve_libraries-notes :
    (c : Config) (live : Prefix) (toc : Option String) (patterns : List String) (destroot : Tree)
    → IsPlain c live
    → IsSolid destroot
    → IsNew c toc destroot
    → (r : Run) × (preserve_libraries c live toc patterns destroot ≡ some r)
      × (r.extra ≡ hidden_in r.toc)
preserve_libraries-notes c live toc patterns destroot plain solid new =
    let (r, e, _, _, _) = preserve_libraries-adds c live toc patterns destroot plain solid new in
    (r, e, libraries-Tells c live toc patterns destroot r e)
