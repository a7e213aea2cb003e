-- ===== src/SvnCtype.antt =====
-- The character classes of svn_ctype.h in kde/kdesdk-kioslaves/files/svn-1.8.13/subversion-1. The
-- table of flags is defined in libsvn_subr, and is a parameter here.
pub mod Classes
use Prim.Native.Nat.{bit_and, bit_or}
use macstrop.Shared.{ℕ, ◌-◌, ◌%◌, Bool, not, ℤ, pos, negsuc, ◌==◌}

-- `svn_ctype_table`.
abbrev pub Table : Type 0
Table = ℕ → ℕ

-- `(unsigned char)(c)`.
unfoldable pub unsigned_char : ℤ → ℕ
unsigned_char (pos n) = n % 256
unsigned_char (negsuc n) = 255 - n % 256

unfoldable pub svn_ctype_test : Table → ℤ → ℕ → Bool
unfolding unsigned_char
svn_ctype_test table c flags = not (bit_and (table (unsigned_char c)) flags == 0)

-- Basic character classes.
abbrev pub cntrl : ℕ
cntrl = 0x0001

abbrev pub space : ℕ
space = 0x0002

abbrev pub digit : ℕ
digit = 0x0004

abbrev pub upper : ℕ
upper = 0x0008

abbrev pub lower : ℕ
lower = 0x0010

abbrev pub punct : ℕ
punct = 0x0020

abbrev pub xalpha : ℕ
xalpha = 0x0040

abbrev pub ascii : ℕ
ascii = 0x0080

-- Derived character classes.
abbrev pub alpha : ℕ
alpha = bit_or lower upper

abbrev pub alnum : ℕ
alnum = bit_or alpha digit

abbrev pub xdigit : ℕ
xdigit = bit_or digit xalpha

abbrev pub graph : ℕ
graph = bit_or punct alnum

abbrev pub print : ℕ
print = bit_or graph space

-- The extended classes.
abbrev pub utf8lead : ℕ
utf8lead = 0x0100

abbrev pub utf8cont : ℕ
utf8cont = 0x0200

abbrev pub utf8mbc : ℕ
utf8mbc = bit_or utf8lead utf8cont

abbrev pub utf8 : ℕ
utf8 = bit_or ascii utf8mbc

-- The tests. `svn_ctype_isutf8cont` is not here: it does not compile.
unfoldable pub svn_ctype_iscntrl : Table → ℤ → Bool
unfolding svn_ctype_test
svn_ctype_iscntrl table c = svn_ctype_test table c cntrl

unfoldable pub svn_ctype_isspace : Table → ℤ → Bool
unfolding svn_ctype_test
svn_ctype_isspace table c = svn_ctype_test table c space

unfoldable pub svn_ctype_isdigit : Table → ℤ → Bool
unfolding svn_ctype_test
svn_ctype_isdigit table c = svn_ctype_test table c digit

unfoldable pub svn_ctype_isupper : Table → ℤ → Bool
unfolding svn_ctype_test
svn_ctype_isupper table c = svn_ctype_test table c upper

unfoldable pub svn_ctype_islower : Table → ℤ → Bool
unfolding svn_ctype_test
svn_ctype_islower table c = svn_ctype_test table c lower

unfoldable pub svn_ctype_ispunct : Table → ℤ → Bool
unfolding svn_ctype_test
svn_ctype_ispunct table c = svn_ctype_test table c punct

unfoldable pub svn_ctype_isascii : Table → ℤ → Bool
unfolding svn_ctype_test
svn_ctype_isascii table c = svn_ctype_test table c ascii

unfoldable pub svn_ctype_isalpha : Table → ℤ → Bool
unfolding svn_ctype_test
svn_ctype_isalpha table c = svn_ctype_test table c alpha

unfoldable pub svn_ctype_isalnum : Table → ℤ → Bool
unfolding svn_ctype_test
svn_ctype_isalnum table c = svn_ctype_test table c alnum

unfoldable pub svn_ctype_isxdigit : Table → ℤ → Bool
unfolding svn_ctype_test
svn_ctype_isxdigit table c = svn_ctype_test table c xdigit

unfoldable pub svn_ctype_isgraph : Table → ℤ → Bool
unfolding svn_ctype_test
svn_ctype_isgraph table c = svn_ctype_test table c graph

unfoldable pub svn_ctype_isprint : Table → ℤ → Bool
unfolding svn_ctype_test
svn_ctype_isprint table c = svn_ctype_test table c print

unfoldable pub svn_ctype_isutf8lead : Table → ℤ → Bool
unfolding svn_ctype_test
svn_ctype_isutf8lead table c = svn_ctype_test table c utf8lead

unfoldable pub svn_ctype_isutf8mbc : Table → ℤ → Bool
unfolding svn_ctype_test
svn_ctype_isutf8mbc table c = svn_ctype_test table c utf8mbc

unfoldable pub svn_ctype_isutf8 : Table → ℤ → Bool
unfolding svn_ctype_test
svn_ctype_isutf8 table c = svn_ctype_test table c utf8
