-- ===== src/Options/Browser.antt =====
-- The options of src/browser/main.c.
use umdns.Log.{LogLevel, info}
use umdns.Options.{copy_text, parse_int, ParsedArgs, parse_loop, named_level}
use umdns.Prelude.{ℕ, Option, none, some, List, [], if◌then◌else◌}
use umdns.Text.{Text, codes, text_eq}

-- `browser_options_t`.
pub record BrowserOptions : Type 0 where
  pub interface_name : Text
  pub timeout_seconds : ℕ
  pub interval_seconds : ℕ
  pub log_file : Text
  pub log_level : LogLevel

abbrev pub browser_defaults : BrowserOptions
browser_defaults = record {
  interface_name = [];
  timeout_seconds = 10;
  interval_seconds = 3;
  log_file = [];
  log_level = info;
}

abbrev pub set_browser_timeout : BrowserOptions → Option ℕ → Option BrowserOptions
set_browser_timeout o none = none
set_browser_timeout o (some n) = some (record o { timeout_seconds = n })

abbrev pub set_browser_interval : BrowserOptions → Option ℕ → Option BrowserOptions
set_browser_interval o none = none
set_browser_interval o (some n) = some (record o { interval_seconds = n })

abbrev pub set_browser_log_level : BrowserOptions → Option LogLevel → Option BrowserOptions
set_browser_log_level o none = none
set_browser_log_level o (some l) = some (record o { log_level = l })

-- One round of the loop of `parse_args`, behind the test for help.
unfoldable pub set_browser_option : Text → Text → BrowserOptions → Option BrowserOptions
set_browser_option arg value o =
    if text_eq arg (codes "-i")
    then some (record o { interface_name = copy_text o.interface_name 64 value })
    else if text_eq arg (codes "-t")
    then set_browser_timeout o (parse_int value 0 86400)
    else if text_eq arg (codes "-n")
    then set_browser_interval o (parse_int value 1 3600)
    else if text_eq arg (codes "--log-file")
    then some (record o { log_file = copy_text o.log_file 256 value })
    else if text_eq arg (codes "--log-level")
    then set_browser_log_level o (named_level value)
    else none

-- `parse_args`, on the arguments behind the program's name.
unfoldable pub parse_browser_args : List Text → ParsedArgs BrowserOptions
parse_browser_args args = parse_loop set_browser_option args browser_defaults
