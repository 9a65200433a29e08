-- ===== src/Browser/Unique.antt =====
-- `append_results_unique` of src/browser/main.c.
use umdns.Browser.{same_row, has_row, append_results_unique}
use umdns.Message.{Result}
use umdns.Prelude.{
  ◌⊎◌, ltb, length, Bool-cases, length-append, ℕ, ◌+◌, ◌≤◌, ◌<◌, ◌≡◌, refl, sym, ap, ◌∙◌, ◌↔◌, inl,
  inr, true, false, ◌||◌, List, [], ◌∷◌, ◌++◌, append-nil, append_assoc, arith, if◌then◌else◌,
}
use umdns.Text.Laws.{text_eq_iff}

-- The two rows agree in every member but the type of the record.
abbrev pub IsAlike : Result → Result → Type 0
IsAlike a b =
    (a.instance ≡ b.instance)
    × (a.hostname ≡ b.hostname)
    × (a.service_type ≡ b.service_type)
    × (a.address ≡ b.address)
    × (a.port ≡ b.port)
    × (a.txt ≡ b.txt)

same_row_iff : (a b : Result) → (same_row a b ≡ true) ↔ IsAlike a b
unfolding same_row
same_row_iff a b = ground (
  arith,
  text_eq_iff a.instance b.instance,
  text_eq_iff a.hostname b.hostname,
  text_eq_iff a.service_type b.service_type,
  text_eq_iff a.address b.address,
  text_eq_iff a.txt b.txt,
)

-- No row is found twice by the test of the code.
abbrev pub AreOnce : List Result → Type 0
AreOnce [] = Unit {0}
AreOnce (r ∷ rs) = (has_row rs r ≡ false) × AreOnce rs

has_row-append :
    (xs ys : List Result) (r : Result) → has_row (xs ++ ys) r ≡ (has_row xs r || has_row ys r)
unfolding has_row
has_row-append [] ys r = refl
has_row-append (x ∷ xs) ys r = ground (arith, has_row-append xs ys r)

has_row-same : (xs : List Result) (r q : Result) → same_row r q ≡ true → has_row xs r ≡ has_row xs q
unfolding has_row
has_row-same [] r q h = refl
has_row-same (x ∷ xs) r q h =
    ground (arith, has_row-same xs r q h, h, same_row_iff r q, same_row_iff x r, same_row_iff x q)

AreOnce-concat :
    (xs : List Result) (r : Result) → AreOnce xs → has_row xs r ≡ false → AreOnce (xs ++ (r ∷ []))
unfolding has_row
AreOnce-concat [] r h n = (refl, tt)
AreOnce-concat (x ∷ xs) r h n = (
  ground (arith, h.0, has_row-append xs (r ∷ []) x, same_row_iff x r, same_row_iff r x),
  AreOnce-concat xs r h.1 (ground arith),
)

-- The list after one round.
abbrev added : List Result → Result → List Result
added dst r = if has_row dst r then dst else dst ++ (r ∷ [])

added-AreOnce : (dst : List Result) (r : Result) → AreOnce dst → AreOnce (added dst r)
added-AreOnce dst r h = elim (Bool-cases (has_row dst r)) [
  | inl old ↦ rw old h
  | inr new ↦ rw new (AreOnce-concat dst r h new)
]

has_row-added :
    (dst : List Result) (r q : Result) → has_row (added dst r) q ≡ (has_row dst q || same_row r q)
unfolding has_row
has_row-added dst r q = elim (Bool-cases (has_row dst r)) [
  | inl old ↦ rw old (ground (arith, has_row-same dst r q))
  | inr new ↦ rw new (ground (arith, has_row-append dst (r ∷ []) q))
]

-- What is there stays in front.
added-front : (dst : List Result) (r : Result) → (more : List Result) × (added dst r ≡ dst ++ more)
added-front dst r = elim (Bool-cases (has_row dst r)) [
  | inl old ↦ ([], rw old (sym (append-nil dst)))
  | inr new ↦ (r ∷ [], rw new refl)
]

length-added : (dst : List Result) (r : Result) → length (added dst r) ≤ length dst + 1
length-added dst r = ground (arith, length-append dst (r ∷ []))

-- A list of at most `dst_max` rows, none of which stands twice, is prolonged to such a list; if that is
-- not full, a row is found in it exactly when it was in one of the two lists.
pub append_results_unique-AreOnce :
    (dst : List Result) (dst_max : ℕ) (src : List Result)
    → length dst ≤ dst_max
    → AreOnce dst
    → (more : List Result) × (append_results_unique dst dst_max src ≡ dst ++ more)
      × (length (dst ++ more) ≤ dst_max)
      × AreOnce (dst ++ more)
      × (length (dst ++ more) < dst_max
          → (q : Result) → has_row (dst ++ more) q ≡ (has_row dst q || has_row src q))
unfolding append_results_unique has_row
append_results_unique-AreOnce dst dst_max [] few h = (
  [],
  sym (append-nil dst),
  rw append-nil few,
  rw append-nil h,
  λ room q. rw append-nil (ground arith),
)
append_results_unique-AreOnce dst dst_max (r ∷ rs) few h =
    elim (Bool-cases (ltb (length dst) dst_max)) [
      | inl room ↦
          let (front, e) = added-front dst r in
          let (more, run, fits, once, all) =
            append_results_unique-AreOnce (added dst r) dst_max rs
              (ground (arith, length-added dst r, room)) (added-AreOnce dst r h) in
          let whole : added dst r ++ more ≡ dst ++ (front ++ more) =
            rw e (append_assoc dst front more) in
          (
            front ++ more,
            rw room (run ∙ whole),
            rw whole at fits,
            rw whole at once,
            λ free q.
                let found = all (rw whole free) q in
                ground (arith, rw whole at found, has_row-added dst r q),
          )
      | inr full ↦ (
        [],
        rw full (sym (append-nil dst)),
        rw append-nil few,
        rw append-nil h,
        λ free q. absurd (ground (arith, full, ap length (append-nil dst))),
      )
    ]

-- A row of the list is alike.
abbrev pub HasAlike : List Result → Result → Type 0
HasAlike [] q = ⊥
HasAlike (r ∷ rs) q = IsAlike r q ⊎ HasAlike rs q

-- No two rows are alike.
abbrev pub IsUnique : List Result → Type 0
IsUnique [] = Unit {0}
IsUnique (r ∷ rs) = (HasAlike rs r → ⊥) × IsUnique rs

has_row_iff : (rs : List Result) (q : Result) → (has_row rs q ≡ true) ↔ HasAlike rs q
unfolding has_row
has_row_iff [] q = (λ e. absurd cc, λ a. absurd a)
has_row_iff (r ∷ rs) q = (
  λ e. elim (Bool-cases (same_row r q)) [
    | inl same ↦ inl ((same_row_iff r q).0 same)
    | inr other ↦ inr ((has_row_iff rs q).0 (ground (arith, e, other)))
  ],
  elim [
    | inl a ↦ ground (arith, (same_row_iff r q).1 a)
    | inr a ↦ ground (arith, (has_row_iff rs q).1 a)
  ],
)

AreOnce-IsUnique : (rs : List Result) → AreOnce rs → IsUnique rs
AreOnce-IsUnique [] h = tt
AreOnce-IsUnique (r ∷ rs) h =
    (λ a. absurd (ground (arith, h.0, (has_row_iff rs r).1 a)), AreOnce-IsUnique rs h.1)

IsUnique-AreOnce : (rs : List Result) → IsUnique rs → AreOnce rs
IsUnique-AreOnce [] h = tt
IsUnique-AreOnce (r ∷ rs) h = (
  elim (Bool-cases (has_row rs r)) [
    | inl old ↦ absurd (h.0 ((has_row_iff rs r).0 old))
    | inr new ↦ new
  ],
  IsUnique-AreOnce rs h.1,
)

-- A list of at most `dst_max` rows, of which no two agree in every member but the type of the record, is
-- prolonged to such a list; if that is not full, a row that agrees so with a given one is in it exactly when
-- one was in one of the two lists.
pub append_results_unique-IsUnique :
    (dst : List Result) (dst_max : ℕ) (src : List Result)
    → length dst ≤ dst_max
    → IsUnique dst
    → (more : List Result) × (append_results_unique dst dst_max src ≡ dst ++ more)
      × (length (dst ++ more) ≤ dst_max)
      × IsUnique (dst ++ more)
      × (length (dst ++ more) < dst_max
          → (q : Result) → HasAlike (dst ++ more) q ↔ (HasAlike dst q ⊎ HasAlike src q))
append_results_unique-IsUnique dst dst_max src few h =
    let (more, run, fits, once, all) =
      append_results_unique-AreOnce dst dst_max src few (IsUnique-AreOnce dst h) in
    (
      more,
      run,
      fits,
      AreOnce-IsUnique (dst ++ more) once,
      λ room q.
          let same = all room q in
          let whole = has_row_iff (dst ++ more) q in
          let old = has_row_iff dst q in
          let new = has_row_iff src q in
          (
            λ a. elim (Bool-cases (has_row dst q)) [
              | inl before ↦ inl (old.0 before)
              | inr later ↦ inr (new.0 (ground (arith, same, later, whole.1 a)))
            ],
            elim [
              | inl a ↦ whole.0 (ground (arith, same, old.1 a))
              | inr a ↦ whole.0 (ground (arith, same, new.1 a))
            ],
          ),
    )
