-- ===== src/Options/Server.antt =====
-- The options of src/server/main.c.
use umdns.Log.{LogLevel, info}
use umdns.Options.{copy_text, ParsedArgs, parse_loop, named_level}
use umdns.Prelude.{Option, none, some, List, [], if◌then◌else◌}
use umdns.Text.{Text, codes, text_eq}

-- `server_options_t`.
pub record ServerOptions : Type 0 where
  pub interface_name : Text
  pub config_path : Text
  pub log_file : Text
  pub log_level : LogLevel

abbrev pub server_defaults : ServerOptions
server_defaults = record { interface_name = []; config_path = []; log_file = []; log_level = info }

abbrev pub set_server_log_level : ServerOptions → Option LogLevel → Option ServerOptions
set_server_log_level o none = none
set_server_log_level o (some l) = some (record o { log_level = l })

-- One round of the loop of `parse_args`, behind the test for help.
unfoldable pub set_server_option : Text → Text → ServerOptions → Option ServerOptions
set_server_option arg value o =
    if text_eq arg (codes "-i")
    then some (record o { interface_name = copy_text o.interface_name 64 value })
    else if text_eq arg (codes "-c")
    then some (record o { config_path = copy_text o.config_path 256 value })
    else if text_eq arg (codes "--log-file")
    then some (record o { log_file = copy_text o.log_file 256 value })
    else if text_eq arg (codes "--log-level")
    then set_server_log_level o (named_level value)
    else none

-- `parse_args`, on the arguments behind the program's name.
unfoldable pub parse_server_args : List Text → ParsedArgs ServerOptions
parse_server_args args = parse_loop set_server_option args server_defaults
