-- ===== src/Log.antt =====
-- Logging, src/common/log.c: the levels, the filter and the stream. Opening and closing files are calls
-- of System; the time and the formatted message of a line are arguments.
pub mod Levels
pub mod Files
use umdns.Prelude.{ltb, ℕ, Bool, true, false, ◌||◌, Option, none, some, ◌++◌, if◌then◌else◌}
use umdns.Text.{Text, codes, text_case_eq}

-- `umdns_log_level_t`, in the order of the values 0 to 3.
pub data LogLevel : Type 0 where
  debug info warn error : LogLevel

abbrev pub level_value : LogLevel → ℕ
level_value debug = 0
level_value info = 1
level_value warn = 2
level_value error = 3

-- `umdns_log_level_text`.
unfoldable pub level_text : LogLevel → Text
level_text debug = codes "DEBUG"
level_text info = codes "INFO"
level_text warn = codes "WARN"
level_text error = codes "ERROR"

-- `umdns_log_level_from_string`, with what it leaves in `ok`; `none` is a NULL `text`.
unfoldable pub level_from_string : Option Text → LogLevel × Bool
level_from_string none = (info, false)
level_from_string (some text) =
    if text_case_eq text (codes "debug")
    then (debug, true)
    else if text_case_eq text (codes "info")
    then (info, true)
    else if text_case_eq text (codes "warn") || text_case_eq text (codes "warning")
    then (warn, true)
    else if text_case_eq text (codes "error")
    then (error, true)
    else (info, false)

-- `g_log_stream`: NULL, stderr or an open file.
pub data Stream : Type 0 where
  null stderr : Stream
  file : ℕ → Stream

-- `g_log_stream` and `g_log_level`.
pub record Logger : Type 0 where
  pub stream : Stream
  pub level : LogLevel

-- The variables as the program starts.
abbrev pub logger_start : Logger
logger_start = record { stream = null; level = info }

-- `umdns_log_set_level`.
unfoldable pub set_level : LogLevel → Logger → Logger
set_level level logger = record logger { level = level }

abbrev pub stream_or_stderr : Stream → Stream
stream_or_stderr null = stderr
stream_or_stderr stderr = stderr
stream_or_stderr (file f) = file f

-- The time of a line; `none` is a failure of `localtime_r`.
abbrev pub time_text : Option Text → Text
time_text none = codes "0000-00-00T00:00:00"
time_text (some text) = text

-- `umdns_log_write`: the line, and the stream that it goes to.
unfoldable pub log_write : Logger → Option Text → LogLevel → Text → Option (Stream × Text)
log_write logger time level message =
    if ltb (level_value level) (level_value logger.level)
    then none
    else some (
      stream_or_stderr logger.stream,
      time_text time ++ codes " [" ++ level_text level ++ codes "] " ++ message ++ codes "\n",
    )
