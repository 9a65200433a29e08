-- ===== src/Table.antt =====
-- The result table, src/common/table.c: the removal of duplicates in place. The array is a list, and
-- an index outside of it is a fault.
pub mod Distinct
pub mod Print
use umdns.Message.{Result}
use umdns.Outcome.{Outcome, ok, fault}
use umdns.Prelude.{
  ℕ, zero, suc, ◌+◌, Bool, true, false, ◌&&◌, ◌||◌, none, some, List, [], ◌∷◌, ◌==◌, if◌then◌else◌,
  take, set, get_elem?,
}
use umdns.Text.{text_eq}

-- `umdns_results_equal`.
unfoldable pub results_equal : Result → Result → Bool
results_equal a b =
    text_eq a.instance b.instance
    && text_eq a.hostname b.hostname
    && text_eq a.service_type b.service_type
    && text_eq a.address b.address
    && a.port == b.port
    && text_eq a.txt b.txt
    && a.rrtype == b.rrtype

-- The inner loop: one of the rows kept so far equals the row.
unfoldable pub is_duplicate : Result → List Result → Bool
is_duplicate r [] = false
is_duplicate r (k ∷ ks) = results_equal r k || is_duplicate r ks

-- The array and `write_idx`.
pub record Kept : Type 0 where
  pub results : List Result
  pub write_idx : ℕ

-- One round of the outer loop, on the row at `read_idx`.
unfoldable pub keep_row : Result → ℕ → Kept → Kept
keep_row r read_idx k = if is_duplicate r (take k.write_idx k.results) then k else record {
  results = if k.write_idx == read_idx then k.results else set k.results k.write_idx r;
  write_idx = k.write_idx + 1;
}

-- The outer loop, by the rounds left.
unfoldable pub deduplicate_loop : ℕ → ℕ → Kept → Outcome Kept
deduplicate_loop zero read_idx k = ok k
deduplicate_loop (suc n) read_idx k = elim (get_elem? k.results read_idx) [
  | none ↦ fault
  | some r ↦ deduplicate_loop n (read_idx + 1) (keep_row r read_idx k)
]

-- `umdns_table_deduplicate_results`: the array after the call, with the count returned.
unfoldable pub deduplicate_results : List Result → ℕ → Outcome Kept
deduplicate_results results result_count =
    deduplicate_loop result_count 0 (record { results = results; write_idx = 0 })
