-- ===== src/SvnError/Defs.antt =====
-- The vocabulary of svn_error_codes.h: categories, and the arguments of the macro SVN_ERRDEF.
use Prim.Native.String.{String}
use macstrop.Shared.{ℕ, ◌+◌, ◌*◌}

-- SVN_ERR_BAD_CATEGORY_START and so on.
pub data Category : Type 0 where
  bad xml io stream node entry wc fs repos ra ra_dav ra_local svndiff apmod client misc cl ra_svn
        authn authz diff ra_serf malfunc :
      Category

-- SVN_ERR_CATEGORY_SIZE.
abbrev pub category_size : ℕ
category_size = 5000

-- The factor in the definition of each SVN_ERR_…_CATEGORY_START.
unfoldable pub category_factor : Category → ℕ
category_factor bad = 1
category_factor xml = 2
category_factor io = 3
category_factor stream = 4
category_factor node = 5
category_factor entry = 6
category_factor wc = 7
category_factor fs = 8
category_factor repos = 9
category_factor ra = 10
category_factor ra_dav = 11
category_factor ra_local = 12
category_factor svndiff = 13
category_factor apmod = 14
category_factor client = 15
category_factor misc = 16
category_factor cl = 17
category_factor ra_svn = 18
category_factor authn = 19
category_factor authz = 20
category_factor diff = 21
category_factor ra_serf = 22
category_factor malfunc = 23

-- `start_usererr` is APR_OS_START_USERERR, of apr_errno.h.
unfoldable pub category_start : ℕ → Category → ℕ
unfolding category_factor
category_start start_usererr c = start_usererr + category_factor c * category_size

-- The second argument of SVN_ERRDEF: a place in a category, or an enumerator defined before.
pub data Offset : Type 0 where
  category_plus : Category → ℕ → Offset
  same_as : String → Offset

-- SVN_ERRDEF(num, offset, str).
pub record ErrDef : Type 0 where
  pub num : String
  pub offset : Offset
  pub str : String

abbrev pub errdef : String → Offset → String → ErrDef
errdef num offset str = record { num = num; offset = offset; str = str }
