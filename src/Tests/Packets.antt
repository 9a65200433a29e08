-- ===== src/Tests/Packets.antt =====
-- Queries and answers.
use umdns.Answers.Rows.{AreRowsWith}
use umdns.Answers.Safety.{parse_answers-Ensures}
use umdns.Answers.{parse_answers}
use umdns.Inet.{FitsIn, IsPrinting, Inet}
use umdns.Outcome.{ok, Ensures}
use umdns.Prelude.{
  false, sym, true, ℕ, ltb, Bool, none, ◌==◌, length, [], ◌∷◌, some, if◌then◌else◌, ◌≡◌, refl,
  arith,
}
use umdns.Query.RoundTrip.{message, asked_name, parse_question-build_query}
use umdns.Query.Safety.{IsQuestion, parse_question-Ensures}
use umdns.Query.{build_query, parse_question}
use umdns.Name.{tokens, split_dots}
use umdns.Name.Labels.{canonical}
use umdns.Text.{
  Text, normalize_local_name, has_local_suffix, text_case_eq, text_eq, tolower, copy_string, Bytes,
  codes,
}
use umdns.Wire.{Writer}

-- Stands for the C library: each address has one text.
abbrev plain_net : Inet
plain_net = record {
  pton4 = λ s. if length s == 4 then some s else none;
  pton6 = λ s. if length s == 16 then some s else none;
  ntop4 = λ a size. if ltb 9 size then some (codes "192.0.2.1") else none;
  ntop6 = λ a size. if ltb 2 size then some (codes "::") else none;
}

parse_question-build_query_example :
    (w : Writer) × (build_query 1 (some (codes "node")) 1500 ≡ ok w)
    × (parse_question (message w) ≡ ok (record { name = asked_name (codes "node"); qtype = 1 }))
unfolding normalize_local_name tokens canonical split_dots has_local_suffix text_case_eq text_eq
    tolower copy_string
parse_question-build_query_example =
    parse_question-build_query 1 (codes "node") 1500 (omega arith) (omega arith) refl (omega arith)
      (omega arith)

abbrev noise : Bytes
noise = 0 ∷ 0 ∷ 0 ∷ 0 ∷ 0 ∷ 2 ∷ 0 ∷ 9 ∷ 0 ∷ 0 ∷ 0 ∷ 0 ∷ 0xC0 ∷ 12 ∷ []

parse_question-Ensures_example : Ensures IsQuestion (parse_question noise)
parse_question-Ensures_example = parse_question-Ensures noise (omega arith)

written_fits :
    (big : Bool) (text t : Text) (size : ℕ)
    → (big ≡ true → FitsIn size text)
    → (if big then some text else none) ≡ some t
    → FitsIn size t
written_fits true text t size h e = let same : text ≡ t = cc in rw (sym same) (h refl)
written_fits false text t size h e = absurd cc

plain_net-IsPrinting : IsPrinting plain_net
plain_net-IsPrinting = record {
  ntop4_fits = λ a size t e.
      written_fits (ltb 9 size) (codes "192.0.2.1") t size (λ h. (ground (arith, h), omega arith))
        e;
  ntop6_fits = λ a size t e.
      written_fits (ltb 2 size) (codes "::") t size (λ h. (ground (arith, h), omega arith)) e;
}

parse_answers-Ensures_example :
    Ensures (AreRowsWith (FitsIn 256) 64) (parse_answers plain_net noise 64)
parse_answers-Ensures_example =
    parse_answers-Ensures plain_net noise plain_net-IsPrinting (omega arith) 64
