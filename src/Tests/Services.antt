-- ===== src/Tests/Services.antt =====
-- The responses for services.
use umdns.Answers.{parse_answers}
use umdns.Answers.Record.{result_of}
use umdns.Config.{service_init}
use umdns.Message.{Service}
use umdns.Name.Labels.{canonical}
use umdns.Name.{tokens, split_dots}
use umdns.Outcome.{ok}
use umdns.Prelude.{take, ◌≡◌, refl, some, [], ◌∷◌, map, arith}
use umdns.Query.RoundTrip.{message}
use umdns.Response.{build_response_service, build_response_service_enum}
use umdns.Response.Identity.{IsSendable}
use umdns.Response.Enum.{enum_records, parse_answers-build_response_service_enum}
use umdns.Response.ServiceReply.{
  IsSendableService, service_records, parse_answers-build_response_service,
}
use umdns.Tests.Responses.{plain_net}
use umdns.Text.{
  codes, normalize_local_name, has_local_suffix, text_case_eq, text_eq, tolower, copy_string,
}
use umdns.Wire.{Writer}

abbrev pub web : Service
web = record {
  instance = codes "web";
  type = codes "_http._tcp";
  host = [];
  port = 8080;
  txt = codes "k=v";
}

type-IsSendable : IsSendable (codes "_http._tcp")
unfolding normalize_local_name tokens canonical split_dots has_local_suffix text_case_eq text_eq
    tolower copy_string
type-IsSendable = record { text = omega arith; short = refl; fits = omega arith }

host-IsSendable : IsSendable (codes "localhost")
unfolding normalize_local_name tokens canonical split_dots has_local_suffix text_case_eq text_eq
    tolower copy_string
host-IsSendable = record { text = omega arith; short = refl; fits = omega arith }

pub web-IsSendableService : IsSendableService web
unfolding normalize_local_name tokens split_dots has_local_suffix text_case_eq text_eq tolower
    copy_string
web-IsSendableService = record {
  type_name = type-IsSendable;
  host_name = host-IsSendable;
  instance_text = omega arith;
  instance_short = refl;
  instance_fits = omega arith;
  port_fits = omega arith;
  txt_text = omega arith;
}

parse_answers-build_response_service_example :
    (w : Writer) × (build_response_service (some web) 1500 ≡ ok w)
    × (parse_answers plain_net (message w) 64
        ≡ ok (take 64 (map (result_of plain_net) (service_records web))))
unfolding normalize_local_name tokens split_dots has_local_suffix text_case_eq text_eq tolower
    copy_string
parse_answers-build_response_service_example =
    parse_answers-build_response_service plain_net web 1500 64 web-IsSendableService (omega arith)

parse_answers-build_response_service_enum_example :
    (w : Writer) × (build_response_service_enum (web ∷ service_init ∷ []) 1500 ≡ ok w)
    × (parse_answers plain_net (message w) 64
        ≡ ok (take 64 (map (result_of plain_net) (enum_records (web ∷ service_init ∷ [])))))
unfolding normalize_local_name tokens split_dots has_local_suffix text_case_eq text_eq tolower
    copy_string
parse_answers-build_response_service_enum_example =
    parse_answers-build_response_service_enum plain_net (web ∷ service_init ∷ []) 1500 64
      (type-IsSendable, (tt, tt)) (omega arith) (omega arith)
