-- ===== src/KWindowInfo/Program.antt =====
-- A program that owns several handles of `KWindowInfo`, and calls their constructors, destructor and
-- assignment, `name` and the setters of the private object, in any order.
use macstrop.Shared.{
  ℕ, ◌+◌, ◌<◌, ◌≡◌, ◌≢◌, Option, none, some, List, [], ◌∷◌, ◌++◌, ◌==◌, if◌then◌else◌, int_max,
  get_elem?, set,
}
use macstrop.KWindowInfo.Carbon.{Carbon, Garbage}
use macstrop.KWindowInfo.Store.{Ptr, null, World, Cmd}
use macstrop.KWindowInfo.Object.{set_ax_element, set_process_serial_number}
use macstrop.KWindowInfo.Handle.{construct, construct_default, construct_copy, assign, destruct}
use macstrop.KWindowInfo.Query.{name}

-- A program's handles: the value of `d`, or `none` once the handle is destroyed.
pub record Program : Type 0 where
  pub world : World
  pub handles : List (Option Ptr)

pub data Call : Type 0 where
  make : Ptr → (psn icon_spec : ℕ) → ℕ → Call
  make_default : Call
  copy : ℕ → Call
  assign_to : ℕ → ℕ → Call
  destroy : ℕ → Call
  ask_name : Carbon → Garbage → ℕ → Call
  set_element : ℕ → Ptr → Call
  set_serial : Carbon → ℕ → ℕ → Call

-- `none` also for a handle that is not there: the caller's mistake.
abbrev pub handle : Program → ℕ → Option Ptr
handle s i = elim (get_elem? s.handles i) [ none ↦ none | some h ↦ h ]

abbrev pub push : Program → Cmd Ptr → Option Program
push s m = elim (m s.world) [
  | none ↦ none
  | some (d, w) ↦ some (record { world = w; handles = s.handles ++ some d ∷ [] })
]

abbrev pub put : Program → ℕ → Option Ptr → World → Program
put s i h w = record { world = w; handles = set s.handles i h }

-- A method of the object, called through the handle.
abbrev pub visit : {A : Type 0} → Program → ℕ → (Ptr → Cmd A) → Option Program
visit s i m = elim (handle s i) [
  | none ↦ none
  | some d ↦ elim (m d s.world) [
    | none ↦ none
    | some (_, w) ↦ some (record { world = w; handles = s.handles })
  ]
]

unfoldable pub step : Call → Program → Option Program
step (make d psn icon_spec win) s = push s (construct d psn icon_spec win)
step make_default s = push s construct_default
step (copy i) s = elim (handle s i) [ none ↦ none | some d ↦ push s (construct_copy d) ]
step (assign_to i j) s = elim (handle s i) [
  | none ↦ none
  | some d ↦ elim (handle s j) [
    | none ↦ none
    | some other ↦ elim (assign d other s.world) [
      | none ↦ none
      | some (d', w) ↦ some (put s i (some d') w)
    ]
  ]
]
step (destroy i) s = elim (handle s i) [
  | none ↦ none
  | some d ↦ elim (destruct d s.world) [ none ↦ none | some (_, w) ↦ some (put s i none w) ]
]
step (ask_name c g i) s = visit s i (name c g)
step (set_element i a) s = visit s i (λ d. set_ax_element d a)
step (set_serial c i psn) s = visit s i (λ d. set_process_serial_number c d psn)

unfoldable pub run : List Call → Program → Option Program
run [] s = some s
run (c ∷ cs) s = elim (step c s) [ none ↦ none | some t ↦ run cs t ]

abbrev pub start : Program
start = record { world = record { heap = λ _. none; calls = [] }; handles = [] }

-- How many of the handles point to `p`.
abbrev pub hit : Ptr → Option Ptr → ℕ
hit p none = 0
hit p (some q) = if q == p then 1 else 0

abbrev pub count : Ptr → List (Option Ptr) → ℕ
count p [] = 0
count p (h ∷ hs) = hit p h + count p hs

-- What the caller owes: live handles, fresh addresses from `new`, fewer than INT_MAX handles on the
-- object that gets one more, and no methods through a handle made by `KWindowInfo()`.
pub data Allowed (s : Program) : Call → Type 0 where
  make_ok :
      {d : Ptr} {psn icon_spec win : ℕ}
      → d ≢ null
      → s.world.heap d ≡ none
      → Allowed s (make d psn icon_spec win)
  make_default_ok : Allowed s make_default
  copy_ok :
      {i : ℕ} {d : Ptr}
      → get_elem? s.handles i ≡ some (some d)
      → count d s.handles < int_max
      → Allowed s (copy i)
  assign_ok :
      {i j : ℕ} {d other : Ptr}
      → get_elem? s.handles i ≡ some (some d)
      → get_elem? s.handles j ≡ some (some other)
      → count other s.handles < int_max
      → Allowed s (assign_to i j)
  destroy_ok : {i : ℕ} {d : Ptr} → get_elem? s.handles i ≡ some (some d) → Allowed s (destroy i)
  ask_name_ok :
      {c : Carbon} {g : Garbage} {i : ℕ} {d : Ptr}
      → get_elem? s.handles i ≡ some (some d)
      → d ≢ null
      → Allowed s (ask_name c g i)
  set_element_ok :
      {i a : ℕ} {d : Ptr}
      → get_elem? s.handles i ≡ some (some d)
      → d ≢ null
      → a ≢ null
      → Allowed s (set_element i a)
  set_serial_ok :
      {c : Carbon} {i psn : ℕ} {d : Ptr}
      → get_elem? s.handles i ≡ some (some d)
      → d ≢ null
      → Allowed s (set_serial c i psn)
