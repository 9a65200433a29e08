-- ===== src/Tests/Servers.antt =====
-- The server.
use umdns.Answers.{parse_answers}
use umdns.Answers.Record.{result_of}
use umdns.Config.{ServerConfig, server_config_init}
use umdns.Header.{labels_of}
use umdns.Message.{Question, rr_aaaa}
use umdns.Name.Labels.{canonical}
use umdns.Name.{tokens, split_dots}
use umdns.Outcome.{ok}
use umdns.Prelude.{take, ◌≡◌, refl, inr, true, some, map, arith}
use umdns.Query.{build_query, parse_question}
use umdns.Query.RoundTrip.{message}
use umdns.Response.Identity.{hostname_records}
use umdns.Outcome.{Ensures}
use umdns.Response.Safety.{build_query-Ensures}
use umdns.Wire.Room.{InRoom}
use umdns.Server.Safety.{IsHandled, handle_question-Ensures}
use umdns.Server.Host.{handle_question-host}
use umdns.Server.{handle_question, server_local_name, name_matches}
use umdns.Tests.Responses.{plain_net, plain_net-IsInet, node-IsSendable}
use umdns.Text.{
  Bytes, codes, normalize_local_name, has_local_suffix, text_case_eq, text_eq, tolower, copy_string,
}
use umdns.Wire.{Writer}

abbrev pub node_config : ServerConfig
node_config = record server_config_init { hostname = codes "node"; host_txt = codes "k=v" }

handle_question-host_example :
    (w : Writer) × (q : Question) × (m : Bytes) × (build_query rr_aaaa
        (some (codes "NODE.local"))
        1500
      ≡ ok w)
    × (parse_question (message w) ≡ ok q)
    × (handle_question (λ b. true) plain_net node_config q
        ≡ ok (record { sent = some m; success = true }))
    × (parse_answers plain_net m 64
        ≡ ok (
            take 64 (
              map (result_of plain_net) (
                hostname_records plain_net
                  (labels_of (codes "node"))
                  (some (codes "0.0.0.0"))
                  (some (codes "::"))
                  (some (codes "k=v"))))))
unfolding normalize_local_name tokens canonical split_dots has_local_suffix text_case_eq text_eq
    tolower copy_string server_local_name name_matches
handle_question-host_example =
    handle_question-host (λ b. true) plain_net node_config (codes "NODE.local") rr_aaaa 1500 64
      plain_net-IsInet (inr refl) (omega arith) refl (omega arith) refl node-IsSendable
      (omega arith) (omega arith)

handle_question-Ensures_example : Ensures (IsHandled (λ b. true)) (
    handle_question
      (λ b. true)
      plain_net
      node_config
      (record { name = codes "node.local"; qtype = 255 }))
handle_question-Ensures_example =
    handle_question-Ensures (λ b. true) plain_net node_config
      (record { name = codes "node.local"; qtype = 255 }) plain_net-IsInet

build_query-Ensures_example :
    Ensures (InRoom 1500) (build_query 12 (some (codes "a..very.local")) 1500)
build_query-Ensures_example = build_query-Ensures 1500 12 (some (codes "a..very.local"))
