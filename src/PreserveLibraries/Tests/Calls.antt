-- ===== src/PreserveLibraries/Tests/Calls.antt =====
-- A port with one library whose Portfile makes no call.
use mathlib.Core.List.{Memᴰ}
use macstrop.Shared.{
  ◌≡◌, ◌<◌, refl, ap, true, false, ◌&&◌, ◌==◌, none, some, [], ◌∷◌, length, if◌then◌else◌, arith,
}
use macstrop.Shared.Texts.{Text}
use macstrop.PreserveLibraries.Preserve.{Config, Prefix}
use macstrop.PreserveLibraries.Callback.{Stage, Own, preserve_each, callback}
use macstrop.PreserveLibraries.CallbackOnce.{own_call, callback_once}

abbrev config : Config
config = record { subport = "zlib"; enabled = true; allow_unlinked = false; ports = [] }

abbrev world : Prefix
world = record {
  tree = λ l. none;
  srcdir_is_directory = true;
  glob = λ d pattern. [];
  tocs = [];
  registered = λ l. "";
}

-- "libz.so.1"
abbrev libz : Text
libz = b'l' ∷ b'i' ∷ b'b' ∷ b'z' ∷ b'.' ∷ b's' ∷ b'o' ∷ b'.' ∷ b'1' ∷ []

abbrev zlib : Own
zlib = record {
  darwin = false;
  libs = libz ∷ [];
  lsort_unique = λ patterns. patterns;
  as_string = λ text. "libz";
}

abbrev start : Stage
start = record { called = 0; tree = λ l. none; notes = [] }

no_calls : preserve_each config world [] start ≡ some start
unfolding preserve_each
no_calls = refl

short : (f : Text) → Memᴰ f (libz ∷ []) → length f < 10
short f (Memᴰ.head same) = omega (arith, ap length same)
short f (Memᴰ.tail m) = elim m [ ]

callback_once_example :
    (start.called ≡ 0)
    × (callback config world 10 zlib none start
        ≡ preserve_each config world
            (if true && 0 == 0 then own_call config world zlib none ∷ [] else [])
            start)
callback_once_example = callback_once config world 10 zlib none [] start start refl no_calls short
