-- ===== src/Tests/Browsers.antt =====
-- The result lists of the browser.
use umdns.Browser.Types.{extract_service_types_lem, is_named, AllDistinct}
use umdns.Browser.Merge.{HasOnce, row_named, named, summary, merge_service_results-summary}
use umdns.Browser.Unique.{HasAlike, IsUnique, append_results_unique-IsUnique}
use umdns.Browser.{
  same_row, has_row, append_results_unique, names_type, has_text, extract_service_types, fill,
  is_service, merge_row, merge_rows, merge_service_results, Merged,
}
use umdns.Message.{Result, result_init, rr_ptr, rr_srv}
use umdns.Prelude.{
  ◌⊎◌, ◌↔◌, true, ◌<◌, ◌++◌, length, take, ℕ, ◌≤◌, ◌≡◌, refl, List, [], ◌∷◌, ◌++◌, arith,
}
use umdns.Response.{enum_name}
use umdns.Text.{Text, codes, text_eq}

abbrev named_row : Result
named_row = record result_init {
  instance = codes "web";
  service_type = codes "_http";
  rrtype = rr_ptr;
}

abbrev located_row : Result
located_row = record result_init {
  instance = codes "web";
  hostname = codes "node";
  port = 80;
  rrtype = rr_srv;
}

abbrev enum_row : Result
enum_row = record result_init {
  instance = codes "_http";
  service_type = enum_name;
  rrtype = rr_ptr;
}

abbrev rows : List Result
rows = enum_row ∷ named_row ∷ located_row ∷ []

append_results_unique_run :
    append_results_unique rows 4 (named_row ∷ result_init ∷ result_init ∷ [])
    ≡ rows ++ (result_init ∷ [])
unfolding append_results_unique has_row same_row text_eq
append_results_unique_run = refl

extract_service_types_run : extract_service_types rows [] 32 ≡ codes "_http" ∷ []
unfolding extract_service_types names_type has_text text_eq
extract_service_types_run = refl

merge_service_results_run : merge_service_results rows 3 ≡ record {
  results = record named_row { hostname = codes "node"; port = 80 } ∷ named_row ∷ located_row ∷ [];
  merged_count = 1;
}
unfolding merge_service_results merge_rows merge_row fill is_service text_eq
merge_service_results_run = refl

merge_service_results-summary_example :
    (m : Merged) × (merge_service_results rows 3 ≡ m)
    × (m.merged_count ≤ 3)
    × (length m.results ≡ length rows)
    × HasOnce (take m.merged_count m.results)
    × ((i : List ℕ) → row_named i (take m.merged_count m.results) ≡ summary (named i (take 3 rows)))
merge_service_results-summary_example =
    merge_service_results-summary rows 3 (omega arith) (omega arith)

append_results_unique-IsUnique_example :
    (more : List Result) × (append_results_unique (named_row ∷ []) 4 rows
      ≡ (named_row ∷ []) ++ more)
    × (length ((named_row ∷ []) ++ more) ≤ 4)
    × IsUnique ((named_row ∷ []) ++ more)
    × (length ((named_row ∷ []) ++ more) < 4
        → (q : Result)
        → HasAlike ((named_row ∷ []) ++ more) q ↔ (HasAlike (named_row ∷ []) q ⊎ HasAlike rows q))
append_results_unique-IsUnique_example =
    append_results_unique-IsUnique (named_row ∷ []) 4 rows (omega arith) (λ a. a, tt)

extract_service_types_lem_example :
    let found = extract_service_types rows [] 32 in
    (length found ≤ 32)
    × AllDistinct found
    × ((t : Text) → has_text found t ≡ true → is_named rows t ≡ true)
    × (length found < 32 → (t : Text) → has_text found t ≡ is_named rows t)
extract_service_types_lem_example = extract_service_types_lem rows 32 (omega arith)
