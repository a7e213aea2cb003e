-- ===== src/IsTty/Status.antt =====
-- What the exit status of macports/bin/isatty.c says.
use macstrop.Shared.{
  ℕ, ◌≡◌, ◌≢◌, refl, true, false, inl, inr, List, [], ◌∷◌, arith, ℤ, pos, negsuc, Bool-cases,
  length, ◌⊎◌, if◌then◌else◌, ==_of_ne,
}
use macstrop.IsTty.{Libc, perror, usage, Exit, main, exit_status}

abbrev usage_exit : Exit
usage_exit = record { code = negsuc 0; messages = usage ∷ [] }

module _ (c : Libc) (atoi_quiet : (s : List ℕ) → (c.atoi s 0).1 ≡ 0)
    (tty_quiet : (fd : ℤ) → (c.isatty fd 0).0 ≡ true → (c.isatty fd 0).1 ≡ 0)
    (not_tty_sets : (fd : ℤ) → (c.isatty fd 0).0 ≡ false → (c.isatty fd 0).1 ≢ 0) where
  main_usage : (argv : List (List ℕ)) → length argv ≢ 2 → main c argv ≡ usage_exit
  unfolding main
  main_usage [] h = refl
  main_usage (program ∷ []) h = refl
  main_usage (program ∷ arg ∷ []) h = absurd (h refl)
  main_usage (program ∷ arg ∷ more ∷ rest) h = refl

  main_tty :
      (program arg : List ℕ)
      → (c.isatty (c.atoi arg 0).0 0).0 ≡ true
      → main c (program ∷ arg ∷ []) ≡ record { code = pos 0; messages = [] }
  unfolding main
  main_tty program arg t = rw (atoi_quiet arg, tty_quiet (c.atoi arg 0).0 t, t) refl

  main_not_tty :
      (program arg : List ℕ)
      → (c.isatty (c.atoi arg 0).0 0).0 ≡ false
      → main c (program ∷ arg ∷ [])
        ≡ record { code = negsuc 0; messages = perror arg (c.isatty (c.atoi arg 0).0 0).1 ∷ [] }
  unfolding main
  main_not_tty program arg f =
      rw (atoi_quiet arg, ==_of_ne _ 0 (not_tty_sets (c.atoi arg 0).0 f)) refl

  -- With one argument, where `atoi` leaves a zero `errno` alone, and `isatty` leaves it zero when it
  -- finds a terminal and sets it when it does not: for a terminal the code 0 and no message, for any
  -- other descriptor the code -1 and the error.
  pub main_status :
      (program arg : List ℕ)
      → main c (program ∷ arg ∷ []) ≡ (
          if (c.isatty (c.atoi arg 0).0 0).0
          then record { code = pos 0; messages = [] }
          else record {
            code = negsuc 0;
            messages = perror arg (c.isatty (c.atoi arg 0).0 0).1 ∷ [];
          })
  main_status program arg = elim (Bool-cases (c.isatty (c.atoi arg 0).0 0).0) [
    | inl t ↦ rw t (main_tty program arg t)
    | inr f ↦ rw f (main_not_tty program arg f)
  ]

  -- Where `atoi` leaves a zero `errno` alone, and `isatty` leaves it zero when it finds a terminal
  -- and sets it when it does not: whatever the arguments, the caller of the program sees the status
  -- 0 or 255, and so never the status 1.
  pub main_never_one :
      (argv : List (List ℕ))
      → (exit_status (main c argv).code ≡ 0) ⊎ (exit_status (main c argv).code ≡ 255)
  unfolding exit_status
  main_never_one (program ∷ arg ∷ []) = elim (Bool-cases (c.isatty (c.atoi arg 0).0 0).0) [
    | inl t ↦ inl (rw (main_tty program arg t) refl)
    | inr f ↦ inr (rw (main_not_tty program arg f) refl)
  ]
  main_never_one [] = inr (rw (main_usage [] (omega arith)) refl)
  main_never_one (program ∷ []) = inr (rw (main_usage (program ∷ []) (omega arith)) refl)
  main_never_one (program ∷ arg ∷ more ∷ rest) =
      inr (rw (main_usage (program ∷ arg ∷ more ∷ rest) (omega arith)) refl)
