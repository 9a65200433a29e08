-- ===== src/Options.antt =====
-- What the argument parsers of src/client/main.c, src/server/main.c and src/browser/main.c share:
-- `copy_text`, `parse_int`, and the loop over the arguments behind the program's name. Messages for the
-- user are left out.
pub mod Client
pub mod Server
pub mod Browser
pub mod Bounds
pub mod Ranges
pub mod Numbers
pub mod Refusal
use umdns.Config.{trim_start, digits}
use umdns.Log.{LogLevel, level_from_string}
use umdns.Prelude.{
  ◌==◌, ltb, leb, length, take, drop, All, replicate, Bool-cases, length-append, get_elem?, set,
  lt→ltb, leb→le, le→leb, lt→leb_false, le→ltb_false, length-take, length-drop, take-append,
  take_all, ℕ, zero, suc, ◌+◌, ◌-◌, ◌*◌, ◌/◌, ◌%◌, ◌^◌, ◌≤◌, ◌<◌, min, bit_and, bit_or, ◌≡◌, refl,
  sym, ap, ◌∙◌, ◌≢◌, ◌↔◌, ◌⊎◌, inl, inr, Bool, true, false, not, ◌&&◌, ◌||◌, Option, none, some,
  List, [], ◌∷◌, ◌++◌, map, append-nil, append_assoc, arith, if◌then◌else◌, set-append,
  take-append-drop, drop-append, get_elem?-lt, get_elem?-append_right, drop-drop, replicate-add,
  length-replicate, All-append, All-take, ==_iff,
}
use umdns.Text.{Text, codes, text_eq, snprintf}

-- `copy_text`, with a `src` that is not NULL: the text of `dst` after the call.
abbrev pub copy_text : Text → ℕ → Text → Text
copy_text dst zero src = dst
copy_text dst (suc n) src = snprintf (suc n) src

abbrev pub is_digit : ℕ → Bool
is_digit c = leb b'0' c && leb c b'9'

-- What stands behind the digits.
unfoldable pub skip_digits : Text → Text
skip_digits [] = []
skip_digits (c ∷ cs) = if is_digit c then skip_digits cs else c ∷ cs

-- A sign and the text behind it, as `strtol` reads them.
abbrev pub sign : Text → Bool × Text
sign [] = (false, [])
sign (c ∷ cs) = if c == b'-' then (true, cs) else if c == b'+' then (false, cs) else (false, c ∷ cs)

-- The value, if the digits end the text and it is in range: only zero is the same behind a minus. A
-- value above LONG_MAX, which `strtol` cuts, is out of every range asked for.
abbrev pub int_in_range : Bool → Text → ℕ → ℕ → Option ℕ
int_in_range negative [] min_value max_value = none
int_in_range negative (c ∷ cs) min_value max_value =
    let value = digits 0 (c ∷ cs) in
    if is_digit c
      && length (skip_digits (c ∷ cs)) == 0
      && leb min_value value
      && leb value max_value
      && (not negative || value == 0)
    then some value
    else none

-- `parse_int` with bounds that are not negative; `none` is the return value -1.
unfoldable pub parse_int : Text → ℕ → ℕ → Option ℕ
parse_int text min_value max_value =
    let s = sign (trim_start text) in int_in_range s.0 s.1 min_value max_value

-- The return value of a parser: 0 with the options, 1 after the help text, or -1.
pub data ParsedArgs (O : Type 0) : Type 0 where
  accepted : O → ParsedArgs O
  helped : ParsedArgs O
  refused : ParsedArgs O

abbrev pub is_help : Text → Bool
is_help arg = text_eq arg (codes "-h") || text_eq arg (codes "--help")

-- What an argument with its value does to the options; `none` ends the parser with -1.
abbrev pub Setter : Type 0 → Type 0
Setter O = Text → Text → O → Option O

-- The loop over the arguments, which come in pairs.
unfoldable pub parse_loop : {O : Type 0} → Setter O → List Text → O → ParsedArgs O
parse_loop set_option [] o = accepted o
parse_loop set_option (arg ∷ []) o = if is_help arg then helped else refused
parse_loop set_option (arg ∷ value ∷ rest) o =
    if is_help arg then helped else (elim (set_option arg value o) [
      | none ↦ refused
      | some o' ↦ parse_loop set_option rest o'
    ])

-- The level that the argument names, if it names one.
abbrev pub named_level : Text → Option LogLevel
named_level text =
    if (level_from_string (some text)).1 then some (level_from_string (some text)).0 else none
