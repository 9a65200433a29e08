-- ===== src/Options/Ranges.antt =====
-- The options that the browser's parser accepts, and the products and sums that src/browser/main.c makes
-- of them, against their ranges.
use umdns.Log.{LogLevel}
use umdns.Options.Bounds.{
  Accepts, Holds, Holds-if, length-copied, parse_loop-Accepts, parse_int-bounds,
}
use umdns.Options.Browser.{
  BrowserOptions, browser_defaults, set_browser_timeout, set_browser_interval,
  set_browser_log_level, set_browser_option, parse_browser_args,
}
use umdns.Options.{parse_loop, ParsedArgs, accepted, helped, refused, parse_int, named_level}
use umdns.Prelude.{length, ℕ, ◌+◌, ◌*◌, ◌^◌, ◌≤◌, ◌<◌, Option, none, some, List, arith}
use umdns.Text.{Text, codes, text_eq}

-- A cycle's milliseconds fit an `int`, and so does the time elapsed before the timeout with a cycle more.
pub record IsBrowserOptions (o : BrowserOptions) : Type 0 where
  pub interface_fits : length o.interface_name < 64
  pub log_file_fits : length o.log_file < 256
  pub interval_positive : 1 ≤ o.interval_seconds
  pub cycle_fits : o.interval_seconds * 1000 < 2 ^ 31
  pub elapsed_fits : o.timeout_seconds + o.interval_seconds < 2 ^ 31

-- The ranges that the bounds above rest on.
record IsInRange (o : BrowserOptions) : Type 0 where
  interface_fits : length o.interface_name < 64
  log_file_fits : length o.log_file < 256
  timeout_max : o.timeout_seconds ≤ 86400
  interval_min : 1 ≤ o.interval_seconds
  interval_max : o.interval_seconds ≤ 3600

set_browser_timeout-IsInRange :
    (o : BrowserOptions) (n : Option ℕ)
    → IsInRange o
    → Holds (λ n. (0 ≤ n) × (n ≤ 86400)) n
    → Holds IsInRange (set_browser_timeout o n)
set_browser_timeout-IsInRange o none h k = tt
set_browser_timeout-IsInRange o (some n) h k = record {
  interface_fits = h.interface_fits;
  log_file_fits = h.log_file_fits;
  timeout_max = k.1;
  interval_min = h.interval_min;
  interval_max = h.interval_max;
}

set_browser_interval-IsInRange :
    (o : BrowserOptions) (n : Option ℕ)
    → IsInRange o
    → Holds (λ n. (1 ≤ n) × (n ≤ 3600)) n
    → Holds IsInRange (set_browser_interval o n)
set_browser_interval-IsInRange o none h k = tt
set_browser_interval-IsInRange o (some n) h k = record {
  interface_fits = h.interface_fits;
  log_file_fits = h.log_file_fits;
  timeout_max = h.timeout_max;
  interval_min = k.0;
  interval_max = k.1;
}

set_browser_log_level-IsInRange :
    (o : BrowserOptions) (l : Option LogLevel)
    → IsInRange o
    → Holds IsInRange (set_browser_log_level o l)
set_browser_log_level-IsInRange o none h = tt
set_browser_log_level-IsInRange o (some l) h = record {
  interface_fits = h.interface_fits;
  log_file_fits = h.log_file_fits;
  timeout_max = h.timeout_max;
  interval_min = h.interval_min;
  interval_max = h.interval_max;
}

set_browser_option-Holds :
    (arg value : Text) (o : BrowserOptions)
    → IsInRange o
    → Holds IsInRange (set_browser_option arg value o)
unfolding set_browser_option
set_browser_option-Holds arg value o h =
    Holds-if IsInRange (text_eq arg (codes "-i")) (some _) _
      (record {
        interface_fits = length-copied 63 value;
        log_file_fits = h.log_file_fits;
        timeout_max = h.timeout_max;
        interval_min = h.interval_min;
        interval_max = h.interval_max;
      })
      (Holds-if IsInRange (text_eq arg (codes "-t"))
        (set_browser_timeout o (parse_int value 0 86400)) _
        (set_browser_timeout-IsInRange o (parse_int value 0 86400) h
          (parse_int-bounds value 0 86400))
        (Holds-if IsInRange (text_eq arg (codes "-n"))
          (set_browser_interval o (parse_int value 1 3600)) _
          (set_browser_interval-IsInRange o (parse_int value 1 3600) h
            (parse_int-bounds value 1 3600))
          (Holds-if IsInRange (text_eq arg (codes "--log-file")) (some _) _
            (record {
              interface_fits = h.interface_fits;
              log_file_fits = length-copied 255 value;
              timeout_max = h.timeout_max;
              interval_min = h.interval_min;
              interval_max = h.interval_max;
            })
            (Holds-if IsInRange (text_eq arg (codes "--log-level"))
              (set_browser_log_level o (named_level value)) none
              (set_browser_log_level-IsInRange o (named_level value) h) tt))))

-- Whatever the arguments are, options that the browser accepts fit their arrays; their interval is at least a
-- second; and neither a cycle in milliseconds nor the time elapsed goes above an `int`.
pub parse_browser_args-Accepts :
    (args : List Text) → Accepts IsBrowserOptions (parse_browser_args args)
unfolding parse_browser_args
parse_browser_args-Accepts args = bounds (parse_loop set_browser_option args browser_defaults) (
    parse_loop-Accepts IsInRange set_browser_option set_browser_option-Holds args browser_defaults
      (record {
        interface_fits = omega arith;
        log_file_fits = omega arith;
        timeout_max = omega arith;
        interval_min = omega arith;
        interval_max = omega arith;
      }))
  where
    bounds : (p : ParsedArgs BrowserOptions) → Accepts IsInRange p → Accepts IsBrowserOptions p
    bounds (accepted o) h = record {
      interface_fits = h.interface_fits;
      log_file_fits = h.log_file_fits;
      interval_positive = h.interval_min;
      cycle_fits = omega (arith, h.interval_max);
      elapsed_fits = omega (arith, h.interval_max, h.timeout_max);
    }
    bounds helped h = tt
    bounds refused h = tt
