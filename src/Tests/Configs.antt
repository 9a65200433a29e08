-- ===== src/Tests/Configs.antt =====
-- The configuration file.
use umdns.Config.{
  server_config_init, service_init, trim, trim_start, trim_end, isspace, find_service,
  find_or_create_service, split_at, digits, strtol, set_key, load_key, load_section, load_trimmed,
  load_lines, server_config_load,
}
use umdns.Config.Safety.{IsConfig, server_config_load-Ensures}
use umdns.Outcome.{ok, Ensures}
use umdns.Prelude.{◌≡◌, refl, List, [], ◌∷◌, arith}
use umdns.Text.{Text, codes, text_eq}

abbrev lines : List Text
lines =
    codes "; a web server\n"
    ∷ codes "type = dropped\n"
    ∷ codes "[service web]\n"
    ∷ codes "  type =  _http._tcp \n"
    ∷ codes "port= 8080\n"
    ∷ codes "port=70000\n"
    ∷ codes "[other]\n"
    ∷ codes "txt = dropped\n"
    ∷ []

server_config_load_run :
    server_config_load lines server_config_init
    ≡ ok (record server_config_init {
      services =
          record service_init { instance = codes "web"; type = codes "_http._tcp"; port = 8080 }
          ∷ [];
    })
unfolding server_config_load load_lines load_trimmed load_section load_key set_key strtol digits
    split_at find_or_create_service find_service trim trim_start trim_end isspace text_eq
server_config_load_run = refl

server_config_load-Ensures_example : Ensures IsConfig (server_config_load lines server_config_init)
server_config_load-Ensures_example =
    server_config_load-Ensures lines server_config_init (record { count = omega arith; fit = tt })
