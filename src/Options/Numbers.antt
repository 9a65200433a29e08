-- ===== src/Options/Numbers.antt =====
-- `parse_int` of the three main.c on numerals.
use umdns.Config.{trim_start, isspace, digits}
use umdns.Options.{parse_int, is_digit, skip_digits, sign}
use umdns.Prelude.{
  ◌==◌, leb, length, All, Bool-cases, ℕ, ◌+◌, ◌-◌, ◌*◌, ◌<◌, ◌≡◌, refl, ◌∙◌, Bool, true, false,
  ◌&&◌, none, some, List, [], ◌∷◌, ◌++◌, map, arith, if◌then◌else◌,
}
use umdns.Text.{Text}

-- The character of a digit.
abbrev pub numeral : List ℕ → Text
numeral ds = map (λ d. b'0' + d) ds

-- The value of the digits behind `n`, the most significant first.
unfoldable pub horner : ℕ → List ℕ → ℕ
horner n [] = n
horner n (d ∷ ds) = horner (n * 10 + d) ds

-- No digit comes next.
abbrev pub starts_with_digit : Text → Bool
starts_with_digit [] = false
starts_with_digit (c ∷ cs) = is_digit c

skip_digits-numeral :
    (ds : List ℕ) (rest : Text)
    → All (λ d. d < 10) ds
    → starts_with_digit rest ≡ false
    → skip_digits (numeral ds ++ rest) ≡ rest
unfolding skip_digits
skip_digits-numeral [] [] a h = refl
skip_digits-numeral [] (c ∷ cs) a h = rw h refl
skip_digits-numeral (d ∷ ds) rest a h = ground (arith, a.0, skip_digits-numeral ds rest a.1 h)

digits-numeral :
    (n : ℕ) (ds : List ℕ) (rest : Text)
    → All (λ d. d < 10) ds
    → starts_with_digit rest ≡ false
    → digits n (numeral ds ++ rest) ≡ horner n ds
unfolding digits horner
digits-numeral n [] [] a h = refl
digits-numeral n [] (c ∷ cs) a h = rw h refl
digits-numeral n (d ∷ ds) rest a h =
    let inside : is_digit (b'0' + d) ≡ true = ground (arith, a.0) in
    let plain : b'0' + d - b'0' ≡ d = omega arith in
    let more : digits n (numeral (d ∷ ds) ++ rest) ≡ digits (n * 10 + d) (numeral ds ++ rest) =
      rw (inside, plain) refl in
    more ∙ digits-numeral (n * 10 + d) ds rest a.1 h

-- A numeral, with any leading zeros, is read as its value exactly if it ends the text and the value is in
-- range.
pub parse_int_lem :
    (d : ℕ) (ds : List ℕ) (rest : Text) (min_value max_value : ℕ)
    → All (λ d. d < 10) (d ∷ ds)
    → starts_with_digit rest ≡ false
    → parse_int (numeral (d ∷ ds) ++ rest) min_value max_value ≡ (
        if length rest == 0
          && leb min_value (horner 0 (d ∷ ds))
          && leb (horner 0 (d ∷ ds)) max_value
        then some (horner 0 (d ∷ ds))
        else none)
unfolding parse_int trim_start isspace
parse_int_lem d ds rest lo hi a h =
    let c = b'0' + d in
    let text = numeral (d ∷ ds) ++ rest in
    let value = digits-numeral 0 (d ∷ ds) rest a h in
    let behind = skip_digits-numeral (d ∷ ds) rest a h in
    let started : trim_start text ≡ text = ground (arith, a.0) in
    let signed : sign text ≡ (false, text) = ground (arith, a.0) in
    let inside : is_digit (b'0' + d) ≡ true = ground (arith, a.0) in
    rw (started, signed, inside, value, behind)
      (ground
        (arith, Bool-cases (leb lo (horner 0 (d ∷ ds))), Bool-cases (leb (horner 0 (d ∷ ds)) hi)))
