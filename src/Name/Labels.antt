-- ===== src/Name/Labels.antt =====
-- The labels of a name, joined by dots, and their lengths.
use umdns.Prelude.{
  ◌-◌, All-append, ℕ, suc, ◌+◌, ◌≤◌, Bool, true, ◌&&◌, ◌≡◌, ◌≢◌, refl, ap, ◌∙◌, inl, inr, List, [],
  ◌∷◌, ◌++◌, arith, leb, ◌==◌, Bool-cases, length, All, length-append,
}
use umdns.Text.{Text, IsText}
use umdns.Name.{cons_head, split_dots, drop_empty, tokens}
use umdns.Name.Encode.{encode}

abbrev pub join : List Text → Text
join [] = []
join (t ∷ []) = t
join (t ∷ u ∷ us) = t ++ (b'.' ∷ join (u ∷ us))

-- What every token is: not empty, and with no dot and no NUL.
abbrev pub IsToken : Text → Type 0
IsToken t = (1 ≤ length t) × All (λ c. c ≢ b'.') t × IsText t

-- The canonical form: dots at the ends and doubled dots are gone.
unfoldable pub canonical : Text → Text
canonical s = join (tokens s)

-- No label of the name is empty, as in every name that is written without stray dots.
unfoldable pub is_dotted : List Text → Bool
is_dotted [] = true
is_dotted (t ∷ ts) = leb 1 (length t) && is_dotted ts

cons_head-ne-nil : (c : ℕ) (ts : List Text) → cons_head c ts ≢ []
cons_head-ne-nil c [] = λ e. cc
cons_head-ne-nil c (t ∷ ts) = λ e. cc

split_dots-ne-nil : (s : Text) → split_dots s ≢ []
unfolding split_dots
split_dots-ne-nil [] = λ e. cc
split_dots-ne-nil (c ∷ cs) = elim (Bool-cases (c == b'.')) [
  | inl y ↦ rw y (λ e. cc)
  | inr n ↦ rw n (cons_head-ne-nil c (split_dots cs))
]

join-cons_head : (c : ℕ) (ts : List Text) → ts ≢ [] → join (cons_head c ts) ≡ c ∷ join ts
join-cons_head c [] h = absurd (h refl)
join-cons_head c (t ∷ []) h = refl
join-cons_head c (t ∷ u ∷ us) h = refl

join-dot : (ts : List Text) → ts ≢ [] → join ([] ∷ ts) ≡ b'.' ∷ join ts
join-dot [] h = absurd (h refl)
join-dot (t ∷ ts) h = refl

join-split_dots : (s : Text) → join (split_dots s) ≡ s
unfolding split_dots
join-split_dots [] = refl
join-split_dots (c ∷ cs) = elim (Bool-cases (c == b'.')) [
  | inl y ↦
      rw y (join-dot (split_dots cs) (split_dots-ne-nil cs) ∙ ground (arith, join-split_dots cs))
  | inr n ↦
      rw n
        (join-cons_head c (split_dots cs) (split_dots-ne-nil cs) ∙ ap (◌∷◌ c) (join-split_dots cs))
]

drop_empty-is_dotted : (ts : List Text) → is_dotted ts ≡ true → drop_empty ts ≡ ts
unfolding is_dotted
drop_empty-is_dotted [] h = refl
drop_empty-is_dotted ([] ∷ ts) h = cc
drop_empty-is_dotted ((c ∷ t) ∷ ts) h = ap (◌∷◌ (c ∷ t)) (drop_empty-is_dotted ts (ground arith))

pub canonical_lem : (s : Text) → is_dotted (split_dots s) ≡ true → canonical s ≡ s
unfolding canonical tokens
canonical_lem s h = ap join (drop_empty-is_dotted (split_dots s) h) ∙ join-split_dots s

-- Two bytes more than the dotted form: a length in front and the root label behind.
pub length-encode-join : (ts : List Text) → length (encode ts) ≤ length (join ts) + 2
length-encode-join [] = omega arith
length-encode-join (t ∷ []) = omega (arith, length-append t (0 ∷ []))
length-encode-join (t ∷ u ∷ us) = omega (
  arith,
  length-append t (encode (u ∷ us)),
  length-append t (b'.' ∷ join (u ∷ us)),
  length-encode-join (u ∷ us),
)

-- The bytes of the labels, with one more for each.
abbrev pub width : List Text → ℕ
width [] = 0
width (t ∷ ts) = suc (length t) + width ts

pub length-join : (ts : List Text) → length (join ts) ≡ width ts - 1
length-join [] = omega arith
length-join (t ∷ []) = omega arith
length-join (t ∷ u ∷ us) =
    omega (arith, length-append t (b'.' ∷ join (u ∷ us)), length-join (u ∷ us))

width-drop_empty : (ts : List Text) → width (drop_empty ts) ≤ width ts
width-drop_empty [] = omega arith
width-drop_empty ([] ∷ ts) = omega (arith, width-drop_empty ts)
width-drop_empty ((c ∷ t) ∷ ts) = omega (arith, width-drop_empty ts)

-- The canonical form is no longer than the name.
pub length-canonical : (s : Text) → length (canonical s) ≤ length s
unfolding canonical tokens
length-canonical s = omega (
  arith,
  length-join (drop_empty (split_dots s)),
  length-join (split_dots s),
  width-drop_empty (split_dots s),
  ap length (join-split_dots s),
)

pub length-encode-tokens : (s : Text) → length (encode (tokens s)) ≤ length s + 2
unfolding canonical
length-encode-tokens s = omega (arith, length-encode-join (tokens s), length-canonical s)

abbrev IsPlain : Text → Type 0
IsPlain t = All (λ c. c ≢ b'.') t × IsText t

cons_head-All :
    (c : ℕ) (ts : List Text) → c ≢ b'.' → c ≢ 0 → All IsPlain ts → All IsPlain (cons_head c ts)
cons_head-All c [] d z h = (((d, tt), (z, tt)), tt)
cons_head-All c (t ∷ ts) d z h = (((d, h.0.0), (z, h.0.1)), h.1)

split_dots-All : (s : Text) → IsText s → All IsPlain (split_dots s)
unfolding split_dots
split_dots-All [] h = ((tt, tt), tt)
split_dots-All (c ∷ cs) h = elim (Bool-cases (c == b'.')) [
  | inl y ↦ rw y ((tt, tt), split_dots-All cs h.1)
  | inr n ↦ rw n (cons_head-All c (split_dots cs) (ground arith) h.0 (split_dots-All cs h.1))
]

drop_empty-All : (ts : List Text) → All IsPlain ts → All IsToken (drop_empty ts)
drop_empty-All [] h = tt
drop_empty-All ([] ∷ ts) h = drop_empty-All ts h.1
drop_empty-All ((c ∷ t) ∷ ts) h = ((omega arith, h.0.0, h.0.1), drop_empty-All ts h.1)

pub tokens-All : (s : Text) → IsText s → All IsToken (tokens s)
unfolding tokens
tokens-All s h = drop_empty-All (split_dots s) (split_dots-All s h)

pub join-IsText : (ts : List Text) → All IsToken ts → IsText (join ts)
join-IsText [] h = tt
join-IsText (t ∷ []) h = h.0.2
join-IsText (t ∷ u ∷ us) h =
    All-append _ t (b'.' ∷ join (u ∷ us)) h.0.2 (omega arith, join-IsText (u ∷ us) h.1)

pub canonical-IsText : (s : Text) → IsText s → IsText (canonical s)
unfolding canonical
canonical-IsText s h = join-IsText (tokens s) (tokens-All s h)

-- Every token takes two bytes of the width at least.
pub width_lem : (ts : List Text) → All IsToken ts → length ts + length ts ≤ width ts
width_lem [] h = omega arith
width_lem (t ∷ ts) h = omega (arith, h.0.0, width_lem ts h.1)
