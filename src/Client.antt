-- ===== src/Client.antt =====
-- The client, src/client/main.c: the query, the receive loop, and the table of the results. Log lines and
-- messages for the user are left out.
pub mod Run
pub mod Safety
pub mod Silent
use umdns.Answers.{parse_answers}
use umdns.Browser.{max_results}
use umdns.Message.{Result, rr_a, rr_ptr}
use umdns.Options.Client.{
  ClientOptions, QueryMode, query_hostname, query_service, parse_client_args,
}
use umdns.Options.{ParsedArgs, accepted, helped, refused}
use umdns.Prelude.{
  ltb, length, take, ℕ, zero, suc, ◌-◌, ◌*◌, Bool, ◌&&◌, Option, none, some, List, [], ◌∷◌, ◌++◌,
  if◌then◌else◌,
}
use umdns.Program.{
  packet_size, rows_of, print_rows, send_if, Listeners, finish_program, with_listeners, with_log,
}
use umdns.Query.{build_query}
use umdns.Socket.{send_query, recv_with_timeout}
use umdns.System.{
  Kernel, Family, ipv4, ipv6, Received, Sys, stalled, pure, run_outcome, record_event, gethostname,
  print_results, ◌>>=◌, ◌>>◌,
}
use umdns.Table.{Kept, deduplicate_results}
use umdns.Text.{Bytes, Text}
use umdns.Wire.{Writer}

abbrev pub query_type : QueryMode → ℕ
query_type query_hostname = rr_a
query_type query_service = rr_ptr

-- The condition of the loop.
abbrev pub waits : ℕ → List Result → Bool
waits timeout_ms rows = ltb 0 timeout_ms && ltb (length rows) max_results

abbrev pub client_slice : ℕ → ℕ
client_slice timeout_ms = if ltb 200 timeout_ms then 200 else timeout_ms

-- The rows that are left of the array.
abbrev pub kept_rows : Option Kept → List Result
kept_rows none = []
kept_rows (some d) = take d.write_idx d.results

module _ (k : Kernel) where
  -- A message of at least one byte is parsed into the places behind the rows.
  abbrev pub add_answers : List Result → Bytes → Sys (List Result)
  add_answers rows [] = pure rows
  add_answers rows (b ∷ bs) = do
    more ← run_outcome (parse_answers k.inet (b ∷ bs) (max_results - length rows))
    pure (rows ++ rows_of more)

  abbrev pub add_received : List Result → Option Received → Sys (List Result)
  add_received rows none = pure rows
  add_received rows (some m) = add_answers rows m.bytes

  -- One of the two receives of a round.
  unfoldable pub client_receive : ℕ → Option ℕ → List Result → Sys (List Result)
  client_receive slice none rows = pure rows
  client_receive slice (some fd) rows = do
    m ← recv_with_timeout k fd packet_size slice
    add_received rows m

  -- One round of the loop; the second receive needs room.
  unfoldable pub client_round : Listeners → ℕ → List Result → Sys (List Result)
  client_round l slice rows = do
    rows ← client_receive slice l.fd4 rows
    (if ltb (length rows) max_results then client_receive slice l.fd6 rows else pure rows)

  -- The loop, with fuel for its rounds.
  unfoldable pub client_loop : ℕ → Listeners → ℕ → List Result → Sys (List Result)
  client_loop zero l timeout_ms rows w = if waits timeout_ms rows then stalled else pure rows w
  client_loop (suc fuel) l timeout_ms rows w =
      if waits timeout_ms rows
      then (client_round l (client_slice timeout_ms) rows >>= λ rows.
            client_loop fuel l (timeout_ms - client_slice timeout_ms) rows)
          w
      else pure rows w

  -- From the loop on: the table, and the exit status.
  unfoldable pub report : Listeners → List Result → Sys ℕ
  report l [] = finish_program k l 1
  report l (r ∷ rs) = do
    kept ← run_outcome (deduplicate_results (r ∷ rs) (length (r ∷ rs)))
    print_rows (kept_rows kept)
    finish_program k l (if ltb 0 (length (kept_rows kept)) then 0 else 1)

  -- The query, sent on both sockets, and the rest; `none` is a length of 0.
  unfoldable pub ask : ClientOptions → Listeners → Option Writer → Sys ℕ
  ask o l none = finish_program k l 1
  ask o l (some q) = do
    send_if k ipv4 l.fd4 (take q.offset q.out)
    send_if k ipv6 l.fd6 (take q.offset q.out)
    rows ← client_loop (o.timeout_seconds * 1000) l (o.timeout_seconds * 1000) []
    report l rows

  unfoldable pub query_and_report : ClientOptions → Listeners → Sys ℕ
  query_and_report o l = do
    q ← run_outcome (build_query (query_type o.mode) (some o.target) packet_size)
    ask o l q

  -- Behind the parser.
  unfoldable pub run_client : ParsedArgs ClientOptions → Sys ℕ
  run_client refused = pure 1
  run_client helped = pure 0
  run_client (accepted o) =
      with_log k o.log_level o.log_file (with_listeners k o.interface_name (query_and_report o))

  -- `main`, on the arguments behind the program's name: the exit status.
  unfoldable pub client_main : List Text → Sys ℕ
  client_main args = do
    host ← record_event (λ h. k.gethostname_answer h 255) gethostname
    run_client (parse_client_args host args)
