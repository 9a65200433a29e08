-- ===== src/Tests/Tables.antt =====
-- The result table.
use umdns.Options.Numbers.{numeral, horner}
use umdns.Table.Print.{
  columns-result_line, pad, table_line, result_line, printed_results, decimal, columns,
}
use umdns.Message.{Result, result_init}
use umdns.Outcome.{ok}
use umdns.Prelude.{
  length, ◌-◌, replicate, ◌<◌, All, ◌++◌, drop, take, ℕ, ◌≡◌, refl, List, [], ◌∷◌, arith,
}
use umdns.Table.Distinct.{distinct, IsDistinct, deduplicate_results-distinct}
use umdns.Table.{Kept, results_equal, is_duplicate, keep_row, deduplicate_loop, deduplicate_results}
use umdns.Text.{codes, text_eq}

abbrev row : ℕ → Result
row n = record result_init { instance = codes "web"; port = n }

abbrev rows : List Result
rows = row 1 ∷ row 1 ∷ row 2 ∷ row 1 ∷ row 3 ∷ []

deduplicate_results_run :
    deduplicate_results rows 4
    ≡ ok (record { results = row 1 ∷ row 2 ∷ row 2 ∷ row 1 ∷ row 3 ∷ []; write_idx = 2 })
unfolding deduplicate_results deduplicate_loop keep_row is_duplicate results_equal text_eq
deduplicate_results_run = refl

deduplicate_results-distinct_example :
    (d : Kept) × (deduplicate_results rows 4 ≡ ok d)
    × (take d.write_idx d.results ≡ distinct [] (take 4 rows))
    × IsDistinct (take d.write_idx d.results)
    × ((r : Result) → is_duplicate r (take d.write_idx d.results) ≡ is_duplicate r (take 4 rows))
deduplicate_results-distinct_example = deduplicate_results-distinct rows 4 (omega arith)

printed_row_run : decimal 5 8080 ≡ codes "8080"
printed_row_run = refl

printed_results_run :
    drop 109 (printed_results (record result_init { txt = codes "k=v" } ∷ []))
    ≡ codes "TXT\n"
      ++ drop 4 (drop 109 (printed_results (record result_init { txt = codes "k=v" } ∷ [])))
unfolding printed_results table_line pad
printed_results_run = refl

columns-result_line_example :
    (ds : List ℕ) × All (λ d. d < 10) ds
    × (horner 0 ds ≡ 8080)
    × (columns (28 ∷ 24 ∷ 28 ∷ 18 ∷ 6 ∷ []) (result_line (row 8080))
        ≡ (codes "web" ++ replicate 25 b' ')
          ∷ replicate 24 b' '
          ∷ replicate 28 b' '
          ∷ replicate 18 b' '
          ∷ (numeral ds ++ replicate (6 - length (numeral ds)) b' ')
          ∷ codes "\n"
          ∷ [])
columns-result_line_example = columns-result_line (row 8080) (record {
  instance_fits = omega arith;
  host_fits = omega arith;
  service_fits = omega arith;
  address_fits = omega arith;
  port_fits = omega arith;
})
