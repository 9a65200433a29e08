-- ===== src/Server/Main.antt =====
-- The main function of src/server/main.c, and `handle_question` with the sending as a call of System. Log
-- lines are left out. The loop, which runs until a signal comes, has fuel for its rounds.
use umdns.Config.Files.{load_file}
use umdns.Config.{ServerConfig, server_config_init}
use umdns.Message.{Question}
use umdns.Options.Server.{ServerOptions, parse_server_args}
use umdns.Options.{ParsedArgs, accepted, helped, refused}
use umdns.Prelude.{ℕ, zero, suc, Bool, true, Option, none, some, List, [], ◌∷◌, if◌then◌else◌}
use umdns.Program.{Listeners, packet_size, finish_program, give_up, with_listeners, with_log}
use umdns.Query.{parse_question}
use umdns.Server.Discovery.{apply_runtime_identity}
use umdns.Server.{Reaction, react}
use umdns.Signal.{install_handlers, should_terminate}
use umdns.Socket.{recv_with_timeout, send_response}
use umdns.System.{Kernel, Received, Sys, stalled, pure, run_outcome, ◌>>=◌, ◌>>◌}
use umdns.Text.{Bytes, Text}

module _ (k : Kernel) where
  -- From the test of `response_len` on: whether 0 is returned.
  abbrev pub respond : ℕ → Bytes → Bytes → Sys Bool
  respond fd src [] = pure true
  respond fd src (b ∷ bs) = send_response k fd src (b ∷ bs)

  abbrev pub respond_with : ℕ → Bytes → Option Reaction → Sys Bool
  respond_with fd src none = pure true
  respond_with fd src (some r) = respond fd src r.response

  -- `handle_question`, with its calls.
  unfoldable pub answer_question : ℕ → Bytes → ServerConfig → Question → Sys Bool
  answer_question fd src config q = do
    r ← run_outcome (react k.inet config q)
    respond_with fd src r

  abbrev pub answer_parsed : ℕ → Bytes → ServerConfig → Option Question → Sys (Unit {0})
  answer_parsed fd src config none = pure tt
  answer_parsed fd src config (some q) = do sent ← answer_question fd src config q; pure tt

  -- A message of at least one byte that has a question is answered.
  abbrev pub answer_bytes : ℕ → Bytes → ServerConfig → Bytes → Sys (Unit {0})
  answer_bytes fd src config [] = pure tt
  answer_bytes fd src config (b ∷ bs) = do
    q ← run_outcome (parse_question (b ∷ bs))
    answer_parsed fd src config q

  abbrev pub answer_received : ℕ → ServerConfig → Option Received → Sys (Unit {0})
  answer_received fd config none = pure tt
  answer_received fd config (some m) = answer_bytes fd m.src config m.bytes

  -- One of the two receives of a round.
  unfoldable pub serve : ServerConfig → Option ℕ → Sys (Unit {0})
  serve config none = pure tt
  serve config (some fd) = do
    m ← recv_with_timeout k fd packet_size 250
    answer_received fd config m

  -- The loop, with fuel for its rounds.
  unfoldable pub server_loop : ℕ → ServerConfig → Listeners → Sys (Unit {0})
  server_loop zero config l =
      should_terminate k >>= λ stop. if stop then pure tt else (λ w. stalled)
  server_loop (suc fuel) config l = should_terminate k >>= λ stop.
      if stop
      then pure tt
      else (serve config l.fd4 >> (serve config l.fd6 >> server_loop fuel config l))

  unfoldable pub serve_all : ℕ → ServerConfig → Listeners → Sys ℕ
  serve_all fuel config l = do server_loop fuel config l; finish_program k l 0

  -- From the configuration on.
  unfoldable pub start_server : ℕ → ServerOptions → ServerConfig → Sys ℕ
  start_server fuel o config = apply_runtime_identity k o.interface_name config >>= λ config.
      install_handlers k >>= λ installed.
      if installed then with_listeners k o.interface_name (serve_all fuel config) else give_up

  abbrev pub configured_with : ℕ → ServerOptions → Option ServerConfig → Sys ℕ
  configured_with fuel o none = give_up
  configured_with fuel o (some config) = start_server fuel o config

  -- A file that cannot be opened ends the program.
  abbrev pub read_config : ℕ → ServerOptions → Text → Sys ℕ
  read_config fuel o [] = start_server fuel o server_config_init
  read_config fuel o (c ∷ cs) = load_file k (c ∷ cs) server_config_init >>= configured_with fuel o

  -- Behind the parser.
  unfoldable pub run_server : ℕ → ParsedArgs ServerOptions → Sys ℕ
  run_server fuel refused = pure 1
  run_server fuel helped = pure 0
  run_server fuel (accepted o) =
      with_log k o.log_level o.log_file (read_config fuel o o.config_path)

  -- `main`, on the arguments behind the program's name: the exit status.
  unfoldable pub server_main : ℕ → List Text → Sys ℕ
  server_main fuel args = run_server fuel (parse_server_args args)
