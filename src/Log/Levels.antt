-- ===== src/Log/Levels.antt =====
-- The names of the levels, and which lines are written.
use umdns.Log.{LogLevel, debug, info, warn, error, level_text, level_from_string}
use umdns.Prelude.{◌≡◌, refl, true, some, map}
use umdns.Text.{Text, text_case_eq, text_eq, tolower}
use umdns.Text.Laws.{text_eq_iff}

lower-level :
    (l : LogLevel) (text : Text)
    → text_case_eq text (level_text l) ≡ true
    → map tolower text ≡ map tolower (level_text l)
unfolding text_case_eq
lower-level l text h = (text_eq_iff (map tolower text) (map tolower (level_text l))).0 h

-- The tag of a level, in any case of the letters, is read as that level.
pub level_from_string-level_text :
    (l : LogLevel) (text : Text)
    → text_case_eq text (level_text l) ≡ true
    → level_from_string (some text) ≡ (l, true)
unfolding level_from_string text_case_eq level_text text_eq tolower
level_from_string-level_text debug text h = rw (lower-level debug text h) refl
level_from_string-level_text info text h = rw (lower-level info text h) refl
level_from_string-level_text warn text h = rw (lower-level warn text h) refl
level_from_string-level_text error text h = rw (lower-level error text h) refl
