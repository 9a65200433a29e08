-- ===== src/Browser/Merge.antt =====
-- `merge_service_results` of src/browser/main.c against a description of the merged list by instances.
use umdns.Browser.{
  Merged, max_results, merge_service_results, merge_rows, fill, fill_text, fill_port, is_set,
  is_service, merge_row,
}
use umdns.Message.{Result}
use umdns.Prelude.{
  lt→ltb, length-append, ◌++◌, true, drop, ltb, leb, le→leb, length-drop, take-append, length-take,
  take, ap, ◌-◌, ◌==◌, length, Bool-cases, ℕ, ◌+◌, ◌≤◌, ◌<◌, ◌≡◌, refl, ◌∙◌, inl, inr, ◌&&◌, Option,
  none, some, List, [], ◌∷◌, map, arith, if◌then◌else◌,
}
use umdns.Text.{Text, text_eq}
use umdns.Text.Laws.{text_eq_iff}

-- The first text that is not empty.
unfoldable pub first_text : List Text → Text
first_text [] = []
first_text (t ∷ ts) = if is_set t then t else first_text ts

unfoldable pub first_port : List ℕ → ℕ
first_port [] = 0
first_port (p ∷ ps) = if p == 0 then first_port ps else p

-- The rows of a service instance.
unfoldable pub named : Text → List Result → List Result
named i [] = []
named i (r ∷ rs) = if is_service r && text_eq r.instance i then r ∷ named i rs else named i rs

-- What the rows of an instance say of it.
abbrev pub summary : List Result → Option Result
summary [] = none
summary (r ∷ rs) = some (record r {
  hostname = first_text (map (λ (s : Result). s.hostname) (r ∷ rs));
  service_type = first_text (map (λ (s : Result). s.service_type) (r ∷ rs));
  address = first_text (map (λ (s : Result). s.address) (r ∷ rs));
  port = first_port (map (λ (s : Result). s.port) (r ∷ rs));
  txt = first_text (map (λ (s : Result). s.txt) (r ∷ rs));
})

-- The first row with that instance.
unfoldable pub row_named : Text → List Result → Option Result
row_named i [] = none
row_named i (m ∷ ms) = if text_eq m.instance i then some m else row_named i ms

-- No instance stands twice.
abbrev pub HasOnce : List Result → Type 0
HasOnce [] = Unit {0}
HasOnce (m ∷ ms) = (row_named m.instance ms ≡ none) × HasOnce ms

abbrev filled : Result → List Result → Result
filled m [] = m
filled m (r ∷ rs) = filled (fill m r) rs

abbrev more : Option Result → List Result → Option Result
more none [] = none
more none (r ∷ rs) = some (filled r rs)
more (some m) rs = some (filled m rs)

first_text-fill :
    (a b : Text) (ts : List Text) → first_text (fill_text a b ∷ ts) ≡ first_text (a ∷ b ∷ ts)
unfolding first_text
first_text-fill [] [] ts = refl
first_text-fill [] (c ∷ cs) ts = refl
first_text-fill (c ∷ cs) [] ts = refl
first_text-fill (c ∷ cs) (d ∷ ds) ts = refl

first_port-fill :
    (a b : ℕ) (ps : List ℕ) → first_port (fill_port a b ∷ ps) ≡ first_port (a ∷ b ∷ ps)
unfolding first_port
first_port-fill a b ps = ground arith

first_text-one : (t : Text) → first_text (t ∷ []) ≡ t
unfolding first_text
first_text-one [] = refl
first_text-one (c ∷ cs) = refl

first_port-one : (p : ℕ) → first_port (p ∷ []) ≡ p
unfolding first_port
first_port-one p = ground arith

filled-summary : (m : Result) (rs : List Result) → some (filled m rs) ≡ summary (m ∷ rs)
unfolding fill
filled-summary m [] =
    rw
      (
        first_text-one m.hostname,
        first_text-one m.service_type,
        first_text-one m.address,
        first_port-one m.port,
        first_text-one m.txt,
      )
      refl
filled-summary m (r ∷ rs) = filled-summary (fill m r) rs ∙ simp (first_text-fill, first_port-fill)

row_named-merge_row :
    (i : Text) (ms : List Result) (room : ℕ) (r : Result)
    → 0 < room
    → row_named i (merge_row ms room r)
      ≡ (if text_eq r.instance i then more (row_named i ms) (r ∷ []) else row_named i ms)
unfolding row_named merge_row fill
row_named-merge_row i [] room r h = ground arith
row_named-merge_row i (m ∷ ms) room r h = elim (Bool-cases (text_eq m.instance i)) [
  | inl mine ↦ ground (
    arith,
    mine,
    text_eq_iff m.instance r.instance,
    text_eq_iff m.instance i,
    text_eq_iff r.instance i,
  )
  | inr other ↦ ground (
    arith,
    other,
    text_eq_iff m.instance r.instance,
    text_eq_iff r.instance i,
    text_eq_iff m.instance i,
    row_named-merge_row i ms room r h,
  )
]

length-merge_row :
    (ms : List Result) (room : ℕ) (r : Result) → length (merge_row ms room r) ≤ length ms + 1
unfolding merge_row
length-merge_row [] room r = ground arith
length-merge_row (m ∷ ms) room r = ground (arith, length-merge_row ms room r)

HasOnce-merge_row :
    (ms : List Result) (room : ℕ) (r : Result)
    → 0 < room
    → HasOnce ms
    → HasOnce (merge_row ms room r)
unfolding merge_row fill row_named
HasOnce-merge_row [] room r h once = rw (lt→ltb 0 room h) (refl, tt)
HasOnce-merge_row (m ∷ ms) room r h once = elim (Bool-cases (text_eq m.instance r.instance)) [
  | inl mine ↦ rw mine once
  | inr other ↦ rw other (
    ground (
      arith,
      row_named-merge_row m.instance ms room r h,
      once.0,
      text_eq_iff m.instance r.instance,
      text_eq_iff r.instance m.instance,
    ),
    HasOnce-merge_row ms room r h once.1,
  )
]

more-more :
    (o : Option Result) (r : Result) (rs : List Result)
    → more (more o (r ∷ [])) rs ≡ more o (r ∷ rs)
more-more none r rs = refl
more-more (some m) r rs = refl

more-nil : (o : Option Result) → o ≡ more o []
more-nil none = refl
more-nil (some m) = refl

-- The rounds of the outer loop, while there is room for every row.
merge_rows-named :
    (i : Text) (merged rs : List Result)
    → length merged + length rs ≤ max_results
    → row_named i (merge_rows merged rs) ≡ more (row_named i merged) (named i rs)
unfolding merge_rows named
merge_rows-named i merged [] h = more-nil (row_named i merged)
merge_rows-named i merged (r ∷ rs) h = elim (Bool-cases (is_service r)) [
  | inl service ↦
      let room = max_results - length merged in
      let next = merge_row merged room r in
      let ih = merge_rows-named i next rs (omega (arith, length-merge_row merged room r)) in
      let step = row_named-merge_row i merged room r (omega arith) in
      elim (Bool-cases (text_eq r.instance i)) [
        | inl mine ↦
            rw (service, mine)
              (ih
                ∙ ap (λ (o : Option Result). more o (named i rs)) (rw mine at step)
                ∙ more-more (row_named i merged) r (named i rs))
        | inr other ↦
            rw (service, other)
              (ih ∙ ap (λ (o : Option Result). more o (named i rs)) (rw other at step))
      ]
  | inr no_service ↦ rw no_service (merge_rows-named i merged rs (omega arith))
]

merge_rows-HasOnce :
    (merged rs : List Result)
    → length merged + length rs ≤ max_results
    → HasOnce merged
    → HasOnce (merge_rows merged rs) × (length (merge_rows merged rs) ≤ length merged + length rs)
unfolding merge_rows
merge_rows-HasOnce merged [] h once = (once, omega arith)
merge_rows-HasOnce merged (r ∷ rs) h once = elim (Bool-cases (is_service r)) [
  | inl service ↦
      let room = max_results - length merged in
      let size = length-merge_row merged room r in
      let ih =
        merge_rows-HasOnce (merge_row merged room r) rs (omega (arith, size))
          (HasOnce-merge_row merged room r (omega arith) once) in
      rw service (ih.0, omega (arith, size, ih.1))
  | inr no_service ↦
      let ih = merge_rows-HasOnce merged rs (omega arith) once in
      rw no_service (ih.0, omega (arith, ih.1))
]

more-summary : (rs : List Result) → more none rs ≡ summary rs
more-summary [] = refl
more-summary (r ∷ rs) = filled-summary r rs

-- The merged rows as they are copied back.
abbrev copied_back : List Result → List Result → ℕ → List Result
copied_back merged results n =
    if ltb 0 (length merged) && leb (length merged) n
    then merged ++ drop (length merged) results
    else results

take-copied_back :
    (merged results : List Result) (n : ℕ)
    → length merged ≤ n
    → take (length merged) (copied_back merged results n) ≡ merged
take-copied_back [] results n h = refl
take-copied_back (m ∷ ms) results n h =
    let full : ltb 0 (length (m ∷ ms)) ≡ true = ground arith in
    rw (full, le→leb _ _ h) (take-append _ (m ∷ ms) (drop (length (m ∷ ms)) results) refl)

length-copied_back :
    (merged results : List Result) (n : ℕ)
    → length merged ≤ n
    → n ≤ length results
    → length (copied_back merged results n) ≡ length results
length-copied_back [] results n h k = refl
length-copied_back (m ∷ ms) results n h k =
    let full : ltb 0 (length (m ∷ ms)) ≡ true = ground arith in
    let size = length-append (m ∷ ms) (drop (length (m ∷ ms)) results) in
    rw (full, le→leb _ _ h) (omega (arith, size, length-drop (length (m ∷ ms)) results))

-- Of an array whose first `result_count` rows are in use, 256 at most, the merge leaves one row for each
-- service instance that they name, and nothing else: each member of it is the first that is set in
-- the rows of the instance.
pub merge_service_results-summary :
    (results : List Result) (result_count : ℕ)
    → result_count ≤ length results
    → result_count ≤ max_results
    → (m : Merged) × (merge_service_results results result_count ≡ m)
      × (m.merged_count ≤ result_count)
      × (length m.results ≡ length results)
      × HasOnce (take m.merged_count m.results)
      × ((i : Text)
          → row_named i (take m.merged_count m.results)
            ≡ summary (named i (take result_count results)))
unfolding merge_service_results row_named
merge_service_results-summary results n h few =
    let front = take n results in
    let merged = merge_rows [] front in
    let size : length front ≡ n = omega (arith, length-take n results) in
    let (once, count) = merge_rows-HasOnce [] front (omega arith) tt in
    let m = merge_service_results results n in
    let kept : take m.merged_count m.results ≡ merged =
      take-copied_back merged results n (omega arith) in
    (
      m,
      refl,
      omega arith,
      length-copied_back merged results n (omega arith) h,
      rw kept once,
      λ i. rw kept (merge_rows-named i [] front (omega arith) ∙ more-summary (named i front)),
    )
