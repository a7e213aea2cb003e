-- ===== src/IsTty.antt =====
-- macports/bin/isatty.c: whether a file descriptor is a terminal, as an exit status.
pub mod Status
mod Tests
use macstrop.Shared.{
  ℕ, ◌-◌, ◌%◌, Bool, true, false, List, [], ◌∷◌, ℤ, pos, negsuc, ◌==◌, if◌then◌else◌,
}

-- The C library, its `errno` passed through: `atoi` and `isatty` take the value from before the call
-- and give the one after it.
pub record Libc : Type 0 where
  pub atoi : List ℕ → ℕ → ℤ × ℕ
  pub isatty : ℤ → ℕ → Bool × ℕ

-- What goes to stderr.
pub data Message : Type 0 where
  perror : List ℕ → ℕ → Message
  usage : Message

-- The argument of `exit`, and the messages printed before.
pub record Exit : Type 0 where
  pub code : ℤ
  pub messages : List Message

-- `int ret = !isatty(…)`.
abbrev not_tty : Bool → ℤ
not_tty true = pos 0
not_tty false = pos 1

-- The branch with one argument.
check_descriptor : Libc → List ℕ → Exit
check_descriptor c arg =
    let (fd, errno) = c.atoi arg 0 in
    let (tty, errno') = c.isatty fd errno in
    if errno' == 0
    then record { code = not_tty tty; messages = [] }
    else record { code = negsuc 0; messages = perror arg errno' ∷ [] }

-- `main`, on the whole of `argv`.
unfoldable pub main : Libc → List (List ℕ) → Exit
unfolding check_descriptor
main c (program ∷ arg ∷ []) = check_descriptor c arg
main c argv = record { code = negsuc 0; messages = usage ∷ [] }

-- The low eight bits of the argument of `exit`, which is what the caller of the program sees.
unfoldable pub exit_status : ℤ → ℕ
exit_status (pos n) = n % 256
exit_status (negsuc n) = 255 - n % 256
