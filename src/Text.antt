-- ===== src/Text.antt =====
-- C strings: the bytes of a `char` array in front of its first NUL, and the libc calls on them
-- that src/common/mdns.c and the others make. `umdns_copy_string` and
-- `umdns_normalize_local_name` of src/common/mdns.c stand here too.
pub mod Laws
use Prim.Native.Char.{code}
use Prim.Native.String.{String}
use umdns.Prelude.{
  ℕ, zero, suc, ◌+◌, ◌-◌, Bool, true, false, ◌&&◌, Option, none, some, List, [], ◌∷◌, ◌++◌, map,
  leb, ◌==◌, if◌then◌else◌, length, take, drop, All, ◌≢◌,
}

abbrev pub Bytes : Type 0
Bytes = List ℕ

abbrev pub Text : Type 0
Text = List ℕ

-- No byte of a C string is 0.
abbrev pub IsText : Text → Type 0
IsText s = All (λ c. c ≢ 0) s

-- A literal of the source; each is ASCII.
abbrev pub codes : String → Text
codes String.[] = []
codes (String.◌∷◌ c s) = code c ∷ codes s

-- What a `char` array that holds these bytes and then a NUL is as a C string.
unfoldable pub c_str : Bytes → Text
c_str [] = []
c_str (c ∷ cs) = if c == 0 then [] else c ∷ c_str cs

-- The text left in an array of `size` bytes by `snprintf(dst, size, "%s", s)`.
abbrev pub snprintf : ℕ → Text → Text
snprintf size s = take (size - 1) s

-- `strcmp(a, b) == 0`.
unfoldable pub text_eq : Text → Text → Bool
text_eq [] [] = true
text_eq (x ∷ xs) (y ∷ ys) = x == y && text_eq xs ys
text_eq _ _ = false

-- `tolower` of the C locale.
unfoldable pub tolower : ℕ → ℕ
tolower c = if leb b'A' c && leb c b'Z' then c + 32 else c

-- `strcasecmp(a, b) == 0`.
unfoldable pub text_case_eq : Text → Text → Bool
unfolding text_eq tolower
text_case_eq a b = text_eq (map tolower a) (map tolower b)

-- `umdns_copy_string`: the text of `dst` after the call. `none` is a NULL `src`.
unfoldable pub copy_string : Text → ℕ → Option Text → Text
copy_string dst zero src = dst
copy_string dst (suc n) none = []
copy_string dst (suc n) (some src) = snprintf (suc n) src

abbrev pub dot_local : Text
dot_local = codes ".local"

-- The text ends in ".local", in any case.
unfoldable pub has_local_suffix : Text → Bool
unfolding text_case_eq
has_local_suffix s = leb 6 (length s) && text_case_eq (drop (length s - 6) s) dot_local

-- `umdns_normalize_local_name`: the text that it leaves in `out`. `none` is a NULL `input`.
unfoldable pub normalize_local_name : Option Text → ℕ → Text
unfolding copy_string has_local_suffix
normalize_local_name none out_len = copy_string [] out_len (some (codes "localhost.local"))
normalize_local_name (some []) out_len = copy_string [] out_len (some (codes "localhost.local"))
normalize_local_name (some (c ∷ cs)) out_len =
    if has_local_suffix (c ∷ cs)
    then copy_string [] out_len (some (c ∷ cs))
    else snprintf out_len ((c ∷ cs) ++ dot_local)
