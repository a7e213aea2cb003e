-- ===== src/SvnCtype/Classes.antt =====
-- How the tests of svn_ctype.h are related, whatever the table.
use Prim.Native.Nat.{bit_and, bit_or}
use macstrop.Shared.{
  ℕ, ◌+◌, ◌-◌, ◌<◌, ◌≡◌, ◌↔◌, refl, ap, Bool, true, ◌||◌, not, ℤ, pos, negsuc, arith, ◌==◌,
  if◌then◌else◌, ==_iff, every_below, every_below-at, bit_and-bit_or,
}
use macstrop.SvnCtype.{
  Table, unsigned_char, svn_ctype_test, cntrl, space, digit, upper, lower, punct, xalpha, ascii,
  alpha, alnum, graph, utf8lead, utf8cont, utf8mbc, svn_ctype_iscntrl, svn_ctype_isspace,
  svn_ctype_isdigit, svn_ctype_isupper, svn_ctype_islower, svn_ctype_ispunct, svn_ctype_isascii,
  svn_ctype_isalpha, svn_ctype_isalnum, svn_ctype_isxdigit, svn_ctype_isgraph, svn_ctype_isprint,
  svn_ctype_isutf8lead, svn_ctype_isutf8mbc, svn_ctype_isutf8,
}

nonzero-or :
    (a b c : ℕ) → (a ≡ 0) ↔ ((b ≡ 0) × (c ≡ 0)) → not (a == 0) ≡ (not (b == 0) || not (c == 0))
nonzero-or a b c h = ground (arith, h.0, h.1)

-- A character is in the union of two classes exactly if it is in one of them.
svn_ctype_test-bit_or :
    (table : Table) (c : ℤ) (m n : ℕ)
    → svn_ctype_test table c (bit_or m n) ≡ (svn_ctype_test table c m || svn_ctype_test table c n)
unfolding svn_ctype_test
svn_ctype_test-bit_or table c m n = nonzero-or _ _ _ (bit_and-bit_or (table (unsigned_char c)) m n)

-- Whatever the table, the tests of the derived classes are the unions of the tests that their names
-- say: a letter is a lower or an upper case one, and so on up to the bytes of UTF-8.
pub svn_ctype_classes :
    (table : Table) (c : ℤ)
    → (svn_ctype_isalpha table c ≡ (svn_ctype_islower table c || svn_ctype_isupper table c))
      × (svn_ctype_isalnum table c ≡ (svn_ctype_isalpha table c || svn_ctype_isdigit table c))
      × (svn_ctype_isxdigit table c ≡ (svn_ctype_isdigit table c || svn_ctype_test table c xalpha))
      × (svn_ctype_isgraph table c ≡ (svn_ctype_ispunct table c || svn_ctype_isalnum table c))
      × (svn_ctype_isprint table c ≡ (svn_ctype_isgraph table c || svn_ctype_isspace table c))
      × (svn_ctype_isutf8mbc table c
          ≡ (svn_ctype_isutf8lead table c || svn_ctype_test table c utf8cont))
      × (svn_ctype_isutf8 table c ≡ (svn_ctype_isascii table c || svn_ctype_isutf8mbc table c))
unfolding svn_ctype_isalpha svn_ctype_islower svn_ctype_isupper svn_ctype_isalnum svn_ctype_isdigit
    svn_ctype_isxdigit svn_ctype_isgraph svn_ctype_ispunct svn_ctype_isprint svn_ctype_isspace
    svn_ctype_isutf8mbc svn_ctype_isutf8lead svn_ctype_isutf8 svn_ctype_isascii
svn_ctype_classes table c = (
  svn_ctype_test-bit_or table c lower upper,
  svn_ctype_test-bit_or table c alpha digit,
  svn_ctype_test-bit_or table c digit xalpha,
  svn_ctype_test-bit_or table c punct alnum,
  svn_ctype_test-bit_or table c graph space,
  svn_ctype_test-bit_or table c utf8lead utf8cont,
  svn_ctype_test-bit_or table c ascii utf8mbc,
)

-- A negative `char` and the `unsigned char` of the same byte are in the same classes.
pub svn_ctype_test_negative :
    (table : Table) (n flags : ℕ)
    → n < 128
    → svn_ctype_test table (negsuc n) flags ≡ svn_ctype_test table (pos (255 - n)) flags
unfolding svn_ctype_test unsigned_char
svn_ctype_test_negative table n flags h = ap (λ x. not (bit_and (table x) flags == 0)) (omega arith)

-- The mask, where the flag says so.
abbrev pub flag : Bool → ℕ → ℕ
flag b mask = if b then mask else 0

-- The sum of the ten basic masks that an entry has a digit of.
abbrev total : (ℕ → Bool) → ℕ
total has =
    flag (has cntrl) cntrl
    + flag (has space) space
    + flag (has digit) digit
    + flag (has upper) upper
    + flag (has lower) lower
    + flag (has punct) punct
    + flag (has xalpha) xalpha
    + flag (has ascii) ascii
    + flag (has utf8lead) utf8lead
    + flag (has utf8cont) utf8cont

total-every : every_below 1024 (λ e. e == total (λ m. not (bit_and e m == 0))) ≡ true
unfolding every_below
total-every = refl

-- Where the table has no flag but the ten basic ones for a character, its entry is the sum of the
-- flags whose tests the character passes: the tests tell all that the table knows.
pub svn_ctype_entry :
    (table : Table) (c : ℤ)
    → table (unsigned_char c) < 1024
    → table (unsigned_char c)
      ≡ flag (svn_ctype_iscntrl table c) cntrl
        + flag (svn_ctype_isspace table c) space
        + flag (svn_ctype_isdigit table c) digit
        + flag (svn_ctype_isupper table c) upper
        + flag (svn_ctype_islower table c) lower
        + flag (svn_ctype_ispunct table c) punct
        + flag (svn_ctype_test table c xalpha) xalpha
        + flag (svn_ctype_isascii table c) ascii
        + flag (svn_ctype_isutf8lead table c) utf8lead
        + flag (svn_ctype_test table c utf8cont) utf8cont
unfolding svn_ctype_iscntrl svn_ctype_isspace svn_ctype_isdigit svn_ctype_isupper svn_ctype_islower
    svn_ctype_ispunct svn_ctype_isascii svn_ctype_isutf8lead svn_ctype_test
svn_ctype_entry table c h = (==_iff _ _).0 (
    every_below-at 1024 (λ e. e == total (λ m. not (bit_and e m == 0))) (table (unsigned_char c))
      total-every h)
