-- ===== src/IsTty/Tests.antt =====
-- macports/bin/isatty.c run on a system where descriptor 0 alone is a terminal.
use macstrop.Shared.{
  ℕ, zero, suc, ◌-◌, ◌≡◌, ◌≢◌, refl, Bool, true, false, List, [], ◌∷◌, arith, ℤ, pos, negsuc, ◌⊎◌,
}
use macstrop.IsTty.{Libc, perror, main, exit_status}
use macstrop.IsTty.Status.{main_status, main_never_one}

-- A digit, or 0.
abbrev digit : List ℕ → ℤ
digit [] = pos 0
digit (b ∷ bs) = pos (b - 48)

-- ENOTTY is 25.
abbrev tty_zero : ℤ → Bool × ℕ
tty_zero (pos zero) = (true, 0)
tty_zero _ = (false, 25)

abbrev system : Libc
system = record { atoi = λ s e. (digit s, e); isatty = λ fd e. tty_zero fd }

tty_zero-quiet : (fd : ℤ) → (tty_zero fd).0 ≡ true → (tty_zero fd).1 ≡ 0
tty_zero-quiet (pos zero) e = refl
tty_zero-quiet (pos (suc n)) e = cc
tty_zero-quiet (negsuc n) e = cc

tty_zero-sets : (fd : ℤ) → (tty_zero fd).0 ≡ false → (tty_zero fd).1 ≢ 0
tty_zero-sets (pos zero) e = cc
tty_zero-sets (pos (suc n)) e = λ z. absurd (omega arith)
tty_zero-sets (negsuc n) e = λ z. absurd (omega arith)

abbrev program : List ℕ
program = b'i' ∷ []

abbrev one : List ℕ
one = b'1' ∷ []

main_status_example :
    main system (program ∷ one ∷ []) ≡ record { code = negsuc 0; messages = perror one 25 ∷ [] }
unfolding main
main_status_example = main_status system (λ s. refl) tty_zero-quiet tty_zero-sets program one

main_never_one_example :
    (exit_status (main system (program ∷ one ∷ [])).code ≡ 0)
    ⊎ (exit_status (main system (program ∷ one ∷ [])).code ≡ 255)
main_never_one_example =
    main_never_one system (λ s. refl) tty_zero-quiet tty_zero-sets (program ∷ one ∷ [])
