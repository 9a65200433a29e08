-- ===== src/Table/Distinct.antt =====
-- `umdns_table_deduplicate_results` of src/common/table.c against a plain recursion.
use umdns.Message.{Result}
use umdns.Outcome.{ok}
use umdns.Prelude.{
  suc, ◌==◌, length, take, drop, Bool-cases, length-append, get_elem?, length-take, take-append, ℕ,
  ◌+◌, ◌≤◌, ◌≡◌, refl, sym, ap, ◌∙◌, ◌↔◌, inl, inr, true, false, ◌||◌, some, List, [], ◌∷◌, ◌++◌,
  append_assoc, arith, if◌then◌else◌, set-append, take-append-drop, get_elem?-append_right,
}
use umdns.Table.{results_equal, is_duplicate, Kept, keep_row, deduplicate_loop, deduplicate_results}
use umdns.Text.Laws.{text_eq_iff}

pub results_equal_iff : (r s : Result) → (results_equal r s ≡ true) ↔ (r ≡ s)
unfolding results_equal
results_equal_iff r s = ground (
  arith,
  text_eq_iff r.instance s.instance,
  text_eq_iff r.hostname s.hostname,
  text_eq_iff r.service_type s.service_type,
  text_eq_iff r.address s.address,
  text_eq_iff r.txt s.txt,
)

-- The rows that are kept, behind those kept before.
unfoldable pub distinct : List Result → List Result → List Result
distinct kept [] = kept
distinct kept (r ∷ rs) = distinct (if is_duplicate r kept then kept else kept ++ (r ∷ [])) rs

-- No row stands twice.
abbrev pub IsDistinct : List Result → Type 0
IsDistinct [] = Unit {0}
IsDistinct (r ∷ rs) = (is_duplicate r rs ≡ false) × IsDistinct rs

is_duplicate-append :
    (r : Result) (xs ys : List Result)
    → is_duplicate r (xs ++ ys) ≡ (is_duplicate r xs || is_duplicate r ys)
unfolding is_duplicate
is_duplicate-append r [] ys = refl
is_duplicate-append r (x ∷ xs) ys = ground (arith, is_duplicate-append r xs ys)

-- A row of the same kind is found at the same places.
is_duplicate-equal :
    (r s : Result) (xs : List Result)
    → results_equal r s ≡ true
    → is_duplicate r xs ≡ is_duplicate s xs
is_duplicate-equal r s xs h = ap (λ (x : Result). is_duplicate x xs) ((results_equal_iff r s).0 h)

IsDistinct-concat :
    (xs : List Result) (r : Result)
    → IsDistinct xs
    → is_duplicate r xs ≡ false
    → IsDistinct (xs ++ (r ∷ []))
unfolding is_duplicate
IsDistinct-concat [] r h n = (refl, tt)
IsDistinct-concat (x ∷ xs) r h n = (
  ground
      (arith, h.0, is_duplicate-append x xs (r ∷ []), results_equal_iff x r, results_equal_iff r x),
  IsDistinct-concat xs r h.1 (ground arith),
)

pub distinct-IsDistinct : (kept rs : List Result) → IsDistinct kept → IsDistinct (distinct kept rs)
unfolding distinct
distinct-IsDistinct kept [] h = h
distinct-IsDistinct kept (r ∷ rs) h = elim (Bool-cases (is_duplicate r kept)) [
  | inl old ↦ rw old (distinct-IsDistinct kept rs h)
  | inr new ↦ rw new (distinct-IsDistinct (kept ++ (r ∷ [])) rs (IsDistinct-concat kept r h new))
]

pub length-distinct : (kept rs : List Result) → length (distinct kept rs) ≤ length kept + length rs
unfolding distinct
length-distinct kept [] = omega arith
length-distinct kept (r ∷ rs) = elim (Bool-cases (is_duplicate r kept)) [
  | inl old ↦ rw old (omega (arith, length-distinct kept rs))
  | inr new ↦
      rw new (omega (arith, length-append kept (r ∷ []), length-distinct (kept ++ (r ∷ [])) rs))
]

-- Nothing is lost and nothing made up.
pub is_duplicate-distinct :
    (q : Result) (kept rs : List Result)
    → is_duplicate q (distinct kept rs) ≡ (is_duplicate q kept || is_duplicate q rs)
unfolding distinct is_duplicate
is_duplicate-distinct q kept [] = ground arith
is_duplicate-distinct q kept (r ∷ rs) = elim (Bool-cases (is_duplicate r kept)) [
  | inl old ↦ rw old (ground (arith, is_duplicate-distinct q kept rs, is_duplicate-equal q r kept))
  | inr new ↦ rw new (
      ground
        (arith, is_duplicate-distinct q (kept ++ (r ∷ [])) rs, is_duplicate-append q kept (r ∷ [])))
]

keep_row_old :
    (r : Result) (read_idx : ℕ) (k : Kept)
    → is_duplicate r (take k.write_idx k.results) ≡ true
    → keep_row r read_idx k ≡ k
unfolding keep_row
keep_row_old r read_idx k h = rw h

-- A new row goes behind those kept; what stood there no longer counts, or is the row itself.
keep_row_new :
    (r : Result) (kept mid tail : List Result) (read_idx : ℕ) (k : Kept)
    → k.results ≡ kept ++ (mid ++ (r ∷ tail))
    → k.write_idx ≡ length kept
    → read_idx ≡ length kept + length mid
    → is_duplicate r (take k.write_idx k.results) ≡ false
    → (mid' : List Result) × ((keep_row r read_idx k).results
        ≡ (kept ++ (r ∷ [])) ++ (mid' ++ tail))
      × ((keep_row r read_idx k).write_idx ≡ length kept + 1)
      × (length mid' ≡ length mid)
unfolding keep_row
keep_row_new r kept [] tail read_idx k e w at new =
    let same : (k.write_idx == read_idx) ≡ true = ground arith in
    ([], rw (new, same) (e ∙ rw append_assoc), rw new (omega arith), refl)
keep_row_new r kept (m ∷ ms) tail read_idx k e w at new =
    let other : (k.write_idx == read_idx) ≡ false = ground arith in
    (
      ms ++ (r ∷ []),
      rw (new, other, e, set-append k.write_idx kept m (ms ++ (r ∷ tail)) r w) (simp append_assoc),
      rw new (omega arith),
      omega (arith, length-append ms (r ∷ [])),
    )

deduplicate_round :
    (r : Result) (n read_idx : ℕ) (k : Kept)
    → get_elem? k.results read_idx ≡ some r
    → deduplicate_loop (suc n) read_idx k
      ≡ deduplicate_loop n (read_idx + 1) (keep_row r read_idx k)
unfolding deduplicate_loop
deduplicate_round r n read_idx k h = rw (h, deduplicate_loop)

-- The array between two rounds: the rows kept, those that no longer count, and those to come.
deduplicate_loop-distinct :
    (rest : List Result) (kept mid more : List Result) (read_idx : ℕ) (k : Kept)
    → k.results ≡ kept ++ (mid ++ (rest ++ more))
    → k.write_idx ≡ length kept
    → read_idx ≡ length kept + length mid
    → (d : Kept) × (deduplicate_loop (length rest) read_idx k ≡ ok d)
      × (take d.write_idx d.results ≡ distinct kept rest)
unfolding distinct
deduplicate_loop-distinct [] kept mid more read_idx k e w at =
    (k, unfold deduplicate_loop in refl, rw e (take-append k.write_idx kept _ w))
deduplicate_loop-distinct (r ∷ rest) kept mid more read_idx k e w at =
    let here : get_elem? k.results read_idx ≡ some r = rw e (
      get_elem?-append_right read_idx (length mid) kept _ at
      ∙ get_elem?-append_right (length mid) 0 mid _ (omega arith)) in
    let kept_now : take k.write_idx k.results ≡ kept = rw e (take-append k.write_idx kept _ w) in
    elim (Bool-cases (is_duplicate r kept)) [
      | inl old ↦
          let ih =
            deduplicate_loop-distinct rest kept (mid ++ (r ∷ [])) more (read_idx + 1) k
              (e ∙ simp append_assoc) w (omega (arith, length-append mid (r ∷ []))) in
          rw
            (
              deduplicate_round r (length rest) read_idx k here,
              keep_row_old r read_idx k (rw kept_now old),
              old,
            )
            ih
      | inr new ↦
          let (mid', e', w', l) =
            keep_row_new r kept mid (rest ++ more) read_idx k e w at (rw kept_now new) in
          let ih =
            deduplicate_loop-distinct rest (kept ++ (r ∷ [])) mid' more (read_idx + 1)
              (keep_row r read_idx k) e' (omega (arith, w', length-append kept (r ∷ [])))
              (omega (arith, l, length-append kept (r ∷ []))) in
          rw (deduplicate_round r (length rest) read_idx k here, new) ih
    ]

-- The first `result_count` rows of the array are left with the first row of each kind, in order: the
-- loop reads and writes inside the array only, no row is left twice, and a row is found among those
-- left exactly when it was there before.
pub deduplicate_results-distinct :
    (results : List Result) (result_count : ℕ)
    → result_count ≤ length results
    → (d : Kept) × (deduplicate_results results result_count ≡ ok d)
      × (take d.write_idx d.results ≡ distinct [] (take result_count results))
      × IsDistinct (take d.write_idx d.results)
      × ((r : Result)
          → is_duplicate r (take d.write_idx d.results)
            ≡ is_duplicate r (take result_count results))
unfolding deduplicate_results
deduplicate_results-distinct results n h =
    let front = take n results in
    let size : length front ≡ n = omega (arith, length-take n results) in
    let (d, e, t) =
      deduplicate_loop-distinct front [] [] (drop n results) 0
        (record { results = results; write_idx = 0 }) (sym (take-append-drop n results)) refl
        refl in
    (
      d,
      rw size at e,
      t,
      rw t (distinct-IsDistinct [] front tt),
      λ r. rw t (is_duplicate-distinct r [] front ∙ unfold is_duplicate in refl),
    )
