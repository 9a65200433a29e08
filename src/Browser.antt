-- ===== src/Browser.antt =====
-- The result lists of the browser, src/browser/main.c: rows are added without duplicates, service
-- types are taken out of them, and the rows of one instance are merged. An array is the list of the
-- rows that it holds.
pub mod Loop
pub mod End
pub mod Rows
pub mod Run
pub mod Cycle
pub mod Merge
pub mod Types
pub mod Unique
use umdns.Message.{Result, rr_ptr}
use umdns.Name.{max_name}
use umdns.Prelude.{
  ◌==◌, ltb, leb, length, take, drop, ℕ, ◌-◌, Bool, true, false, not, ◌&&◌, ◌||◌, List, [], ◌∷◌,
  ◌++◌, if◌then◌else◌,
}
use umdns.Response.{enum_name}
use umdns.Text.{Text, text_eq, snprintf}

-- The test of `append_results_unique`, which leaves out the type of the record.
unfoldable pub same_row : Result → Result → Bool
same_row a b =
    text_eq a.instance b.instance
    && text_eq a.hostname b.hostname
    && text_eq a.service_type b.service_type
    && text_eq a.address b.address
    && a.port == b.port
    && text_eq a.txt b.txt

unfoldable pub has_row : List Result → Result → Bool
has_row [] r = false
has_row (d ∷ ds) r = same_row d r || has_row ds r

-- `append_results_unique`.
unfoldable pub append_results_unique : List Result → ℕ → List Result → List Result
append_results_unique dst dst_max [] = dst
append_results_unique dst dst_max (r ∷ rs) =
    if ltb (length dst) dst_max
    then append_results_unique (if has_row dst r then dst else dst ++ (r ∷ [])) dst_max rs
    else dst

-- The text is not empty.
abbrev pub is_set : Text → Bool
is_set [] = false
is_set (c ∷ cs) = true

unfoldable pub has_text : List Text → Text → Bool
has_text [] t = false
has_text (s ∷ ss) t = text_eq s t || has_text ss t

-- The row names a service type, in answer to the enumeration query.
unfoldable pub names_type : Result → Bool
names_type r = r.rrtype == rr_ptr && text_eq r.service_type enum_name && is_set r.instance

-- `extract_service_types`; the list holds `out_idx` types.
unfoldable pub extract_service_types : List Result → List Text → ℕ → List Text
extract_service_types [] types max_types = types
extract_service_types (r ∷ rs) types max_types =
    if ltb (length types) max_types
    then extract_service_types rs
        (if names_type r && not (has_text types r.instance)
          then types ++ (snprintf max_name r.instance ∷ [])
          else types)
        max_types
    else types

-- A text that is empty is filled from the other row.
abbrev pub fill_text : Text → Text → Text
fill_text mine other = if is_set other && not (is_set mine) then other else mine

abbrev pub fill_port : ℕ → ℕ → ℕ
fill_port mine other = if not (other == 0) && mine == 0 then other else mine

-- What a row adds to the merged row of its instance.
unfoldable pub fill : Result → Result → Result
fill m r = record m {
  hostname = fill_text m.hostname r.hostname;
  service_type = fill_text m.service_type r.service_type;
  address = fill_text m.address r.address;
  port = fill_port m.port r.port;
  txt = fill_text m.txt r.txt;
}

-- UMDNS_MAX_RESULTS.
abbrev pub max_results : ℕ
max_results = 256

-- The inner loop of `merge_service_results`, with the append behind it: `room` is the number of places
-- that are left behind the list.
unfoldable pub merge_row : List Result → ℕ → Result → List Result
merge_row [] room r = if ltb 0 room then r ∷ [] else []
merge_row (m ∷ ms) room r =
    if text_eq m.instance r.instance then fill m r ∷ ms else m ∷ merge_row ms room r

-- The row is of a service instance.
unfoldable pub is_service : Result → Bool
is_service r = is_set r.instance && not (text_eq r.service_type enum_name)

-- The outer loop.
unfoldable pub merge_rows : List Result → List Result → List Result
merge_rows merged [] = merged
merge_rows merged (r ∷ rs) =
    merge_rows (if is_service r then merge_row merged (max_results - length merged) r else merged)
      rs

-- The array after the call, and the count returned.
pub record Merged : Type 0 where
  pub results : List Result
  pub merged_count : ℕ

-- `merge_service_results`, on an array of which the first `result_count` rows are in use.
unfoldable pub merge_service_results : List Result → ℕ → Merged
merge_service_results results result_count =
    let merged = merge_rows [] (take result_count results) in
    record {
      results =
          if ltb 0 (length merged) && leb (length merged) result_count
          then merged ++ drop (length merged) results
          else results;
      merged_count = length merged;
    }
