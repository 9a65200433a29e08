-- ===== src/Browser/Rows.antt =====
-- The rows that src/browser/main.c gathers in its result array.
use umdns.Answers.Rows.{AreResults, IsResult}
use umdns.Browser.{append_results_unique, has_row, max_results}
use umdns.Browser.Unique.{AreOnce, append_results_unique-AreOnce}
use umdns.Message.{Result}
use umdns.Prelude.{if_lem, ltb, length, All, ℕ, List, [], ◌∷◌, ◌++◌, if◌then◌else◌, All-append}

-- The rows that the browser holds between two messages.
pub record AreRows (rows : List Result) : Type 0 where
  pub fit : AreResults max_results rows
  pub once : AreOnce rows

append_results_unique-All :
    (P : Result → Type 0) (dst : List Result) (dst_max : ℕ) (src : List Result)
    → All P dst
    → All P src
    → All P (append_results_unique dst dst_max src)
unfolding append_results_unique
append_results_unique-All P dst dst_max [] h k = h
append_results_unique-All P dst dst_max (r ∷ rs) h k =
    if_lem (All P) (ltb (length dst) dst_max) _ dst
      (λ room.
        append_results_unique-All P (if has_row dst r then dst else dst ++ (r ∷ [])) dst_max rs
          (if_lem (All P) (has_row dst r) dst (dst ++ (r ∷ [])) (λ old. h)
            (λ new. All-append P dst (r ∷ []) h (k.0, tt)))
          k.1)
      (λ full. h)

pub append_results_unique-AreRows :
    (rows more : List Result)
    → AreRows rows
    → All IsResult more
    → AreRows (append_results_unique rows max_results more)
append_results_unique-AreRows rows more h k =
    let (new, run, few, once, found) =
      append_results_unique-AreOnce rows max_results more h.fit.0 h.once in
    record {
      fit = (rw run few, append_results_unique-All IsResult rows max_results more h.fit.1 k);
      once = rw run once;
    }
