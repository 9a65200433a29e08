-- ===== src/Options/Client.antt =====
-- The options of src/client/main.c. `gethostname` is an argument of the parser: its text up to the first
-- NUL, or `none` for its failure.
use umdns.Log.{LogLevel, info}
use umdns.Name.{max_name}
use umdns.Options.{
  copy_text, parse_int, ParsedArgs, accepted, helped, refused, parse_loop, named_level,
}
use umdns.Prelude.{ltb, ℕ, ◌+◌, Option, none, some, List, [], if◌then◌else◌}
use umdns.Text.{Text, codes, text_eq}

-- `umdns_query_mode_t`.
pub data QueryMode : Type 0 where
  query_hostname query_service : QueryMode

-- `client_options_t`, and `mode_count`.
pub record ClientOptions : Type 0 where
  pub interface_name : Text
  pub timeout_seconds : ℕ
  pub target : Text
  pub mode : QueryMode
  pub log_file : Text
  pub log_level : LogLevel
  pub mode_count : ℕ

abbrev pub default_target : Option Text → Text
default_target none = copy_text [] max_name (codes "localhost")
default_target (some host) = copy_text [] max_name host

-- The options in front of the loop.
abbrev pub client_defaults : Option Text → ClientOptions
client_defaults host = record {
  interface_name = [];
  timeout_seconds = 3;
  target = default_target host;
  mode = query_hostname;
  log_file = [];
  log_level = info;
  mode_count = 0;
}

abbrev pub set_timeout : ClientOptions → Option ℕ → Option ClientOptions
set_timeout o none = none
set_timeout o (some n) = some (record o { timeout_seconds = n })

abbrev pub set_log_level : ClientOptions → Option LogLevel → Option ClientOptions
set_log_level o none = none
set_log_level o (some l) = some (record o { log_level = l })

abbrev pub set_mode : ClientOptions → QueryMode → Text → ClientOptions
set_mode o mode value = record o {
  mode = mode;
  target = copy_text o.target max_name value;
  mode_count = o.mode_count + 1;
}

-- One round of the loop of `parse_args`, behind the test for help.
unfoldable pub set_client_option : Text → Text → ClientOptions → Option ClientOptions
set_client_option arg value o =
    if text_eq arg (codes "-i")
    then some (record o { interface_name = copy_text o.interface_name 64 value })
    else if text_eq arg (codes "-t")
    then set_timeout o (parse_int value 0 3600)
    else if text_eq arg (codes "-H")
    then some (set_mode o query_hostname value)
    else if text_eq arg (codes "-s")
    then some (set_mode o query_service value)
    else if text_eq arg (codes "--log-file")
    then some (record o { log_file = copy_text o.log_file 256 value })
    else if text_eq arg (codes "--log-level")
    then set_log_level o (named_level value)
    else none

-- The test behind the loop.
abbrev pub one_mode : ParsedArgs ClientOptions → ParsedArgs ClientOptions
one_mode (accepted o) = if ltb 1 o.mode_count then refused else accepted o
one_mode helped = helped
one_mode refused = refused

-- `parse_args`, on the arguments behind the program's name.
unfoldable pub parse_client_args : Option Text → List Text → ParsedArgs ClientOptions
parse_client_args host args = one_mode (parse_loop set_client_option args (client_defaults host))
