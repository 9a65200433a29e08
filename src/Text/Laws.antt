-- ===== src/Text/Laws.antt =====
-- Equality tests, copies and normalised names.
use umdns.Prelude.{
  ℕ, zero, suc, ◌-◌, ◌≤◌, ◌<◌, ◌≡◌, ◌↔◌, refl, true, some, [], ◌∷◌, ◌++◌, arith, length,
  length-take, take_all, All-append, All-take,
}
use umdns.Text.{
  Bytes, Text, IsText, codes, c_str, text_eq, copy_string, dot_local, normalize_local_name,
}

pub text_eq_iff : (a b : Text) → (text_eq a b ≡ true) ↔ (a ≡ b)
unfolding text_eq
text_eq_iff (x ∷ a) (y ∷ b) = ground (arith, text_eq_iff a b)
text_eq_iff _ _ = ground arith

pub text_eq_refl : (a : Text) → text_eq a a ≡ true
text_eq_refl a = (text_eq_iff a a).1 refl

pub c_str_lem : (s : Text) → IsText s → c_str s ≡ s
unfolding c_str
c_str_lem [] h = refl
c_str_lem (c ∷ cs) h = ground (arith, h.0, c_str_lem cs h.1)

pub c_str-IsText : (s : Bytes) → IsText (c_str s)
unfolding c_str
c_str-IsText [] = tt
c_str-IsText (c ∷ cs) = ground (arith, c_str-IsText cs)

pub length-c_str : (s : Bytes) → length (c_str s) ≤ length s
unfolding c_str
length-c_str [] = omega arith
length-c_str (c ∷ cs) = ground (arith, length-c_str cs)

pub copy_string_fits : (dst s : Text) (n : ℕ) → length s < n → copy_string dst n (some s) ≡ s
unfolding copy_string
copy_string_fits dst s zero h = absurd (omega arith)
copy_string_fits dst s (suc n) h = take_all _ s (omega arith)

copy_string-IsText :
    (dst : Text) (n : ℕ) (s : Text) → IsText dst → IsText s → IsText (copy_string dst n (some s))
unfolding copy_string
copy_string-IsText dst zero s d h = d
copy_string-IsText dst (suc n) s d h = All-take _ _ s h

length-copy_string : (n : ℕ) (s : Text) → 0 < n → length (copy_string [] n (some s)) < n
unfolding copy_string
length-copy_string zero s h = absurd (omega arith)
length-copy_string (suc n) s h = omega (arith, length-take (suc n - 1) s)

-- A normalised name has no NUL inside and leaves room for the NUL behind it.
pub normalize_local_name-IsText :
    (s : Text) (n : ℕ) → IsText s → IsText (normalize_local_name (some s) n)
unfolding normalize_local_name
normalize_local_name-IsText [] n h =
    ground (arith, copy_string-IsText [] n (codes "localhost.local") tt (omega arith))
normalize_local_name-IsText (c ∷ cs) n h = ground (
  arith,
  copy_string-IsText [] n (c ∷ cs) tt h,
  All-take _ (n - 1) ((c ∷ cs) ++ dot_local) (All-append _ (c ∷ cs) dot_local h (omega arith)),
)

pub length-normalize_local_name :
    (s : Text) (n : ℕ) → 0 < n → length (normalize_local_name (some s) n) < n
unfolding normalize_local_name
length-normalize_local_name [] n h =
    ground (arith, length-copy_string n (codes "localhost.local") h)
length-normalize_local_name (c ∷ cs) n h =
    ground (arith, length-copy_string n (c ∷ cs) h, length-take (n - 1) ((c ∷ cs) ++ dot_local))
