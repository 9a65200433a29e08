-- ===== src/Tests/Responses.antt =====
-- Responses, and the rows that come out of them.
use umdns.Answers.Record.{Rr, a, srv, result_of}
use umdns.Answers.RoundTrip.{response_bytes, parse_answers-response_bytes}
use umdns.Answers.{parse_answers}
use umdns.Header.{labels_of}
use umdns.Inet.{Inet, IsInet}
use umdns.Name.Labels.{canonical}
use umdns.Name.{tokens, split_dots}
use umdns.Outcome.{ok}
use umdns.Prelude.{
  ltb, ◌==◌, length, take, ◌≡◌, refl, Option, none, some, List, [], ◌∷◌, map, arith, if◌then◌else◌,
}
use umdns.Query.RoundTrip.{message}
use umdns.Response.Hostname.{parse_answers-build_response_hostname}
use umdns.Response.Identity.{hostname_records, IsSendable}
use umdns.Response.{build_response_hostname}
use umdns.Text.{
  Text, codes, normalize_local_name, has_local_suffix, text_case_eq, text_eq, tolower, copy_string,
}
use umdns.Wire.{Writer}

-- Stands for the C library: an address of the right length is its own text.
abbrev pub plain_net : Inet
plain_net = record {
  pton4 = λ s. if length s == 4 then some s else none;
  pton6 = λ s. if length s == 16 then some s else none;
  ntop4 = λ b size. if ltb (length b) size then some b else none;
  ntop6 = λ b size. if ltb (length b) size then some b else none;
}

pub plain_net-IsInet : IsInet plain_net
plain_net-IsInet = record { pton4_len = λ s b e. ground arith; pton6_len = λ s b e. ground arith }

abbrev owner : List Text
owner = codes "web" ∷ codes "local" ∷ []

abbrev pub some_records : List Rr
some_records =
    record { owner = owner; rdata = a (10 ∷ 0 ∷ 0 ∷ 1 ∷ []) }
    ∷ record { owner = owner; rdata = srv 8080 (codes "node" ∷ codes "local" ∷ []) }
    ∷ []

parse_answers-response_bytes_example :
    parse_answers plain_net (response_bytes some_records) 8
    ≡ ok (map (result_of plain_net) some_records)
parse_answers-response_bytes_example =
    parse_answers-response_bytes plain_net some_records 8
      (
        record {
          owner_name = record { tokens = omega arith; short = refl; fits = omega arith };
          good_data = refl;
        },
        (
          record {
            owner_name = record { tokens = omega arith; short = refl; fits = omega arith };
            good_data =
                (omega arith, record { tokens = omega arith; short = refl; fits = omega arith });
          },
          tt,
        ),
      )
      (omega arith)

pub node-IsSendable : IsSendable (codes "node")
unfolding normalize_local_name tokens canonical split_dots has_local_suffix text_case_eq text_eq
    tolower copy_string
node-IsSendable = record { text = omega arith; short = refl; fits = omega arith }

abbrev four : Option Text
four = some (codes "\n\t\n\t")

parse_answers-build_response_hostname_example :
    (w : Writer) × (build_response_hostname plain_net
        (some (codes "node"))
        four
        none
        (some (codes "k=v"))
        1500
      ≡ ok w)
    × (parse_answers plain_net (message w) 64
        ≡ ok (
            take 64 (
              map (result_of plain_net) (
                hostname_records plain_net
                  (labels_of (codes "node"))
                  four
                  none
                  (some (codes "k=v"))))))
unfolding normalize_local_name tokens split_dots has_local_suffix text_case_eq text_eq tolower
    copy_string
parse_answers-build_response_hostname_example =
    parse_answers-build_response_hostname plain_net (codes "node") four none (some (codes "k=v"))
      1500 64 plain_net-IsInet node-IsSendable (omega arith) (omega arith)
