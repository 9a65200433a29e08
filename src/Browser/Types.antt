-- ===== src/Browser/Types.antt =====
-- `extract_service_types` of src/browser/main.c.
use umdns.Text.Laws.{text_eq_iff}
use umdns.Name.{max_name}
use umdns.Text.{snprintf, text_eq, Text}
use umdns.Message.{Result}
use umdns.Browser.{snprintf, text_eq, names_type, max_name, has_text, extract_service_types}
use umdns.Prelude.{
  ltb, length, take, All, Bool-cases, length-append, take_all, ℕ, ◌≤◌, ◌<◌, ◌≡◌, refl, ap, inl, inr,
  Bool, true, false, not, ◌&&◌, ◌||◌, List, [], ◌∷◌, ◌++◌, append-nil, arith, if◌then◌else◌,
}

-- No text stands twice.
abbrev pub AllDistinct : List Text → Type 0
AllDistinct [] = Unit {0}
AllDistinct (t ∷ ts) = (has_text ts t ≡ false) × AllDistinct ts

-- A row names the type.
abbrev pub is_named : List Result → Text → Bool
is_named [] t = false
is_named (r ∷ rs) t = (names_type r && text_eq r.instance t) || is_named rs t

-- The text fits the array of a name.
abbrev pub Fits : Result → Type 0
Fits r = length r.instance < max_name

has_text-append :
    (xs ys : List Text) (t : Text) → has_text (xs ++ ys) t ≡ (has_text xs t || has_text ys t)
unfolding has_text
has_text-append [] ys t = refl
has_text-append (x ∷ xs) ys t = ground (arith, has_text-append xs ys t)

has_text-same : (xs : List Text) (t u : Text) → text_eq t u ≡ true → has_text xs t ≡ has_text xs u
has_text-same xs t u h = ap (λ (s : Text). has_text xs s) ((text_eq_iff t u).0 h)

AllDistinct-concat :
    (xs : List Text) (t : Text)
    → AllDistinct xs
    → has_text xs t ≡ false
    → AllDistinct (xs ++ (t ∷ []))
unfolding has_text
AllDistinct-concat [] t h n = (refl, tt)
AllDistinct-concat (x ∷ xs) t h n = (
  ground (arith, h.0, has_text-append xs (t ∷ []) x, text_eq_iff x t, text_eq_iff t x),
  AllDistinct-concat xs t h.1 (ground arith),
)

-- The list after one round.
abbrev with_type : List Text → Result → List Text
with_type types r =
    if names_type r && not (has_text types r.instance)
    then types ++ (snprintf max_name r.instance ∷ [])
    else types

with_type_lem :
    (types : List Text) (r : Result)
    → Fits r
    → AllDistinct types
    → (more : List Text) × (with_type types r ≡ types ++ more)
      × (length more ≤ 1)
      × AllDistinct (types ++ more)
      × ((t : Text)
          → has_text (types ++ more) t
            ≡ (has_text types t || (names_type r && text_eq r.instance t)))
unfolding has_text
with_type_lem types r fits h = elim (Bool-cases (names_type r && not (has_text types r.instance))) [
  | inl new ↦
      let whole : take 255 r.instance ≡ r.instance =
        take_all 255 r.instance (omega (arith, fits)) in
      let absent : has_text types r.instance ≡ false = ground (arith, new) in
      (
        r.instance ∷ [],
        rw (new, whole) refl,
        omega arith,
        AllDistinct-concat types r.instance h absent,
        λ t. ground (arith, new, has_text-append types (r.instance ∷ []) t),
      )
  | inr old ↦ (
    [],
    rw (old, append-nil types) refl,
    omega arith,
    rw append-nil h,
    λ t. rw append-nil (ground (arith, old, has_text-same types r.instance t)),
  )
]

-- With room for `max_types` types, a list of distinct types is prolonged to such a list: each of its new
-- types is the instance of a row that answers the enumeration query, and if the list is not full, it has
-- each of those.
extract_more :
    (rows : List Result) (types : List Text) (max_types : ℕ)
    → All Fits rows
    → length types ≤ max_types
    → AllDistinct types
    → (let found = extract_service_types rows types max_types in
        (length found ≤ max_types)
        × AllDistinct found
        × ((t : Text) → has_text found t ≡ true → (has_text types t || is_named rows t) ≡ true)
        × (length found < max_types
            → (t : Text) → has_text found t ≡ (has_text types t || is_named rows t)))
unfolding extract_service_types
extract_more [] types max_types fit few h = (few, h, λ t e. ground arith, λ room t. ground arith)
extract_more (r ∷ rs) types max_types fit few h = elim (Bool-cases (ltb (length types) max_types)) [
  | inl room ↦
      let (more, one, short, once, has) = with_type_lem types r fit.0 h in
      let (size, all_once, sound, complete) =
        extract_more rs (types ++ more) max_types fit.1
          (ground (arith, length-append types more, short, room)) once in
      rw (room, one)
        (
          size,
          all_once,
          λ t e. ground (arith, sound t e, has t),
          λ free t. ground (arith, complete free t, has t),
        )
  | inr full ↦ rw full (few, h, λ t e. ground arith, λ free t. absurd (ground (arith, full, free)))
]

-- Of rows whose instances fit the array of a name, the browser gets at most `max_types` service types, none
-- twice; each is the instance of a row that answers the enumeration query, and if there are fewer than
-- `max_types`, each such instance is among them.
pub extract_service_types_lem :
    (rows : List Result) (max_types : ℕ)
    → All Fits rows
    → (let found = extract_service_types rows [] max_types in
        (length found ≤ max_types)
        × AllDistinct found
        × ((t : Text) → has_text found t ≡ true → is_named rows t ≡ true)
        × (length found < max_types → (t : Text) → has_text found t ≡ is_named rows t))
unfolding has_text
extract_service_types_lem rows max_types fit = extract_more rows [] max_types fit (omega arith) tt
