-- ===== src/Tests/Arguments.antt =====
-- Arguments and levels.
use umdns.Options.Ranges.{parse_browser_args-Accepts, IsBrowserOptions}
use umdns.Config.{trim_start, isspace, digits}
use umdns.Log.{
  debug, warn, level_from_string, level_text, logger_start, stderr, log_write, set_level,
}
use umdns.Log.Levels.{level_from_string-level_text}
use umdns.Options.Bounds.{Accepts, IsClientOptions, parse_client_args-Accepts}
use umdns.Options.Browser.{browser_defaults, set_browser_option, parse_browser_args}
use umdns.Options.Client.{
  ClientOptions, client_defaults, query_service, set_client_option, parse_client_args,
}
use umdns.Options.Numbers.{numeral, horner, parse_int_lem}
use umdns.Options.Refusal.{is_client_option, parse_client_args-refused}
use umdns.Options.Server.{server_defaults, set_server_option, parse_server_args}
use umdns.Options.{accepted, helped, refused, is_help, parse_loop, parse_int, skip_digits}
use umdns.Prelude.{
  leb, ◌≤◌, ◌≡◌, refl, ◌⊎◌, true, false, ◌&&◌, none, some, List, [], ◌∷◌, ◌++◌, arith,
  if◌then◌else◌,
}
use umdns.Text.{Text, codes, text_eq, text_case_eq, tolower}

abbrev service_args : List Text
service_args = codes "-s" ∷ codes "_http._tcp" ∷ codes "-t" ∷ codes "05" ∷ []

abbrev service_options : ClientOptions
service_options = record (client_defaults none) {
  mode = query_service;
  target = codes "_http._tcp";
  timeout_seconds = 5;
  mode_count = 1;
}

service_args-accepted : parse_client_args none service_args ≡ accepted service_options
unfolding parse_client_args parse_loop set_client_option parse_int skip_digits digits trim_start
    isspace text_eq
service_args-accepted = refl

two_modes_run : parse_client_args none (codes "-H" ∷ codes "node" ∷ service_args) ≡ refused
unfolding parse_client_args parse_loop set_client_option parse_int skip_digits digits trim_start
    isspace text_eq
two_modes_run = refl

browser_run :
    parse_browser_args (codes "-n" ∷ codes "5" ∷ codes "--log-level" ∷ codes "Warning" ∷ [])
    ≡ accepted (record browser_defaults { interval_seconds = 5; log_level = warn })
unfolding parse_browser_args parse_loop set_browser_option parse_int skip_digits digits trim_start
    isspace text_eq text_case_eq tolower level_from_string
browser_run = refl

server_run :
    parse_server_args (codes "-c" ∷ codes "a.ini" ∷ [])
    ≡ accepted (record server_defaults { config_path = codes "a.ini" })
unfolding parse_server_args parse_loop set_server_option text_eq
server_run = refl

log_write_run :
    log_write (set_level warn logger_start) none warn (codes "x")
    ≡ some (stderr, codes "0000-00-00T00:00:00 [WARN] x\n")
unfolding log_write set_level level_text
log_write_run = refl

parse_int_lem_example : parse_int (numeral (0 ∷ 9 ∷ []) ++ []) 1 3600 ≡ (
    if true && leb 1 (horner 0 (0 ∷ 9 ∷ [])) && leb (horner 0 (0 ∷ 9 ∷ [])) 3600
    then some (horner 0 (0 ∷ 9 ∷ []))
    else none)
parse_int_lem_example = parse_int_lem 0 (9 ∷ []) [] 1 3600 (omega arith) refl

parse_client_args-Accepts_example :
    Accepts (λ o. IsClientOptions o × (o.mode_count ≤ 1)) (parse_client_args none service_args)
parse_client_args-Accepts_example = parse_client_args-Accepts none service_args

abbrev no_args : List Text
no_args = []

parse_client_args-refused_example :
    (is_help (codes "-v") ≡ true
      → parse_client_args none (service_args ++ (codes "-v" ∷ [])) ≡ helped)
    × (is_help (codes "-v") ≡ false
        → (is_client_option (codes "-v") ≡ false) ⊎ (no_args ≡ [])
        → parse_client_args none (service_args ++ (codes "-v" ∷ [])) ≡ refused)
parse_client_args-refused_example =
    parse_client_args-refused none service_args service_options (codes "-v") []
      service_args-accepted

level_from_string-level_text_example : level_from_string (some (codes "Debug")) ≡ (debug, true)
unfolding text_case_eq level_text text_eq tolower
level_from_string-level_text_example = level_from_string-level_text debug (codes "Debug") refl

parse_browser_args-Accepts_example :
    Accepts IsBrowserOptions (parse_browser_args (codes "-t" ∷ codes "86400" ∷ []))
parse_browser_args-Accepts_example = parse_browser_args-Accepts (codes "-t" ∷ codes "86400" ∷ [])
