-- ===== src/Browser/Cycle.antt =====
-- The cycles of the browser, and its main function. Log lines and messages for the user are left out. A
-- loop that runs until a signal comes has fuel for its rounds.
use umdns.Answers.{parse_answers}
use umdns.Browser.{append_results_unique, extract_service_types, merge_service_results, max_results}
use umdns.Message.{Result, rr_ptr}
use umdns.Options.Browser.{BrowserOptions, parse_browser_args}
use umdns.Options.{ParsedArgs, accepted, helped, refused}
use umdns.Prelude.{
  ltb, leb, length, take, ℕ, zero, suc, ◌+◌, ◌-◌, ◌*◌, ◌/◌, Bool, ◌&&◌, Option, none, some, List,
  [], ◌∷◌, if◌then◌else◌,
}
use umdns.Program.{
  packet_size, rows_of, send_if, print_rows, Listeners, finish_program, give_up, with_listeners,
  with_log,
}
use umdns.Query.{build_query}
use umdns.Response.{enum_name}
use umdns.Signal.{install_handlers, should_terminate}
use umdns.Socket.{recv_with_timeout}
use umdns.System.{Kernel, ipv4, ipv6, Received, Sys, stalled, pure, run_outcome, ◌>>=◌, ◌>>◌}
use umdns.Text.{Bytes, Text}
use umdns.Wire.{Writer}

-- The places in `cycle_results`.
abbrev pub max_cycle_results : ℕ
max_cycle_results = 64

-- The places in `service_types`.
abbrev pub max_types : ℕ
max_types = 32

abbrev pub browser_slice : ℕ → ℕ
browser_slice remaining = if ltb 250 remaining then 250 else remaining

-- The time is up behind this cycle.
abbrev pub time_is_up : BrowserOptions → ℕ → Bool
time_is_up o elapsed =
    ltb 0 o.timeout_seconds && leb o.timeout_seconds (elapsed + o.interval_seconds)

-- `elapsed` is left alone without a timeout.
abbrev pub next_elapsed : BrowserOptions → ℕ → ℕ
next_elapsed o elapsed = if ltb 0 o.timeout_seconds then elapsed + o.interval_seconds else elapsed

module _ (k : Kernel) where
  -- The rows of a message of at least one byte are added to those there.
  abbrev pub add_unique : List Result → Bytes → Sys (List Result)
  add_unique rows [] = pure rows
  add_unique rows (b ∷ bs) = do
    cycle ← run_outcome (parse_answers k.inet (b ∷ bs) max_cycle_results)
    pure (append_results_unique rows max_results (rows_of cycle))

  abbrev pub add_message : List Result → Option Received → Sys (List Result)
  add_message rows none = pure rows
  add_message rows (some m) = add_unique rows m.bytes

  -- One of the two receives of a round.
  unfoldable pub browser_receive : ℕ → Option ℕ → List Result → Sys (List Result)
  browser_receive slice none rows = pure rows
  browser_receive slice (some fd) rows = do
    m ← recv_with_timeout k fd packet_size slice
    add_message rows m

  -- `receive_responses`, with fuel for the rounds of its loop.
  unfoldable pub receive_responses : ℕ → Listeners → ℕ → List Result → Sys (List Result)
  receive_responses zero l remaining rows w = if ltb 0 remaining then stalled else pure rows w
  receive_responses (suc fuel) l remaining rows w =
      if ltb 0 remaining
      then (browser_receive (browser_slice remaining) l.fd4 rows >>= λ rows.
            browser_receive (browser_slice remaining) l.fd6 rows >>= λ rows.
            should_terminate k >>= λ stop.
            if stop
            then pure rows
            else receive_responses fuel l (remaining - browser_slice remaining) rows)
          w
      else pure rows w

  abbrev pub send_both : Listeners → Writer → Sys (Unit {0})
  send_both l q = do
    send_if k ipv4 l.fd4 (take q.offset q.out)
    send_if k ipv6 l.fd6 (take q.offset q.out)

  -- The round of `run_cycle` for one service type; a name without a query is skipped.
  abbrev pub ask_type : Listeners → ℕ → List Result → Option Writer → Sys (List Result)
  ask_type l cycle_ms rows none = pure rows
  ask_type l cycle_ms rows (some q) = do
    send_both l q
    receive_responses (cycle_ms / 2) l (cycle_ms / 2) rows

  unfoldable pub ask_types : Listeners → ℕ → List Text → List Result → Sys (List Result)
  ask_types l cycle_ms [] rows = pure rows
  ask_types l cycle_ms (type ∷ types) rows = do
    q ← run_outcome (build_query rr_ptr (some type) packet_size)
    rows ← ask_type l cycle_ms rows q
    ask_types l cycle_ms types rows

  -- From the first query on; `none` is a return value of -1.
  abbrev pub cycle_with : Listeners → ℕ → List Result → Option Writer → Sys (Option (List Result))
  cycle_with l cycle_ms rows none = pure none
  cycle_with l cycle_ms rows (some q) = do
    send_both l q
    rows ← receive_responses cycle_ms l cycle_ms rows
    rows ← ask_types l cycle_ms (extract_service_types rows [] max_types) rows
    pure (some rows)

  -- `run_cycle`.
  unfoldable pub run_cycle : Listeners → ℕ → List Result → Sys (Option (List Result))
  run_cycle l cycle_ms rows = do
    q ← run_outcome (build_query rr_ptr (some enum_name) packet_size)
    cycle_with l cycle_ms rows q

  -- The loop of `main`, with fuel for its rounds, and `elapsed`; a cycle that fails ends it.
  unfoldable pub browser_loop : ℕ → BrowserOptions → Listeners → ℕ → List Result → Sys (List Result)
  browser_loop zero o l elapsed rows =
      should_terminate k >>= λ stop. if stop then pure rows else (λ w. stalled)
  browser_loop (suc fuel) o l elapsed rows = should_terminate k >>= λ stop.
      if stop
      then pure rows
      else (run_cycle l (o.interval_seconds * 1000) rows >>= λ cycled. elim cycled [
        | none ↦ pure rows
        | some rows ↦
            if time_is_up o elapsed
            then pure rows
            else browser_loop fuel o l (next_elapsed o elapsed) rows
      ])

  -- From the loop on: the table, if there are rows, and the exit status.
  unfoldable pub browser_report : Listeners → List Result → Sys ℕ
  browser_report l [] = finish_program k l 0
  browser_report l (r ∷ rs) = do
    let m = merge_service_results (r ∷ rs) (length (r ∷ rs))
    print_rows (take m.merged_count m.results)
    finish_program k l 0

  unfoldable pub browse : ℕ → BrowserOptions → Listeners → Sys ℕ
  browse fuel o l = do rows ← browser_loop fuel o l 0 []; browser_report l rows

  -- Behind the parser.
  unfoldable pub run_browser : ℕ → ParsedArgs BrowserOptions → Sys ℕ
  run_browser fuel refused = pure 1
  run_browser fuel helped = pure 0
  run_browser fuel (accepted o) = with_log k o.log_level o.log_file (
      install_handlers k >>= λ installed.
      if installed then with_listeners k o.interface_name (browse fuel o) else give_up)

  -- `main`, on the arguments behind the program's name: the exit status.
  unfoldable pub browser_main : ℕ → List Text → Sys ℕ
  browser_main fuel args = run_browser fuel (parse_browser_args args)
