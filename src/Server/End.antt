-- ===== src/Server/End.antt =====
-- `main` of src/server/main.c from its start to its end, on any kernel.
use umdns.Config.Resources.{load_file-Quiet}
use umdns.Config.Files.{load_file}
use umdns.Server.Run.{server_loop-Quiet, apply_runtime_identity-Quiet}
use umdns.Signal.{install_handlers}
use umdns.Server.Discovery.{apply_runtime_identity}
use umdns.Options.{ParsedArgs, accepted, helped, refused}
use umdns.System.Resources.{IsFlagged, IsSame, last_printed}
use umdns.Program.{finish_program, give_up, with_listeners, Listeners}
use umdns.System.Laws.{Post-bind, Post}
use umdns.Program.Resources.{
  finish_program-IsClean, InProgram-IsSame, with_listeners-Ends, with_log-Ends, give_up-IsClean,
  InProgram, Ends, Said,
}
use umdns.Options.Server.{parse_server_args, ServerOptions}
use umdns.Config.{server_config_init, ServerConfig}
use umdns.Signal.Laws.{install_handlers-Quiet, IsSignalled}
use umdns.Log.{null}
use umdns.Text.{Text}
use umdns.Socket.Resources.{descriptors}
use umdns.Socket.Messages.{IsKernel}
use umdns.System.{◌>>=◌, Sys, World, Kernel}
use umdns.Server.Main.{
  server_loop, configured_with, read_config, start_server, serve_all, run_server, server_main,
}
use umdns.Message.{Result}
use umdns.Prelude.{
  if_lem, ℕ, ◌≤◌, ◌≡◌, refl, ◌∙◌, Bool, Option, none, some, List, [], ◌∷◌, ◌++◌, arith,
  if◌then◌else◌,
}

-- The status is 0 or 1, and nothing is printed but text.
abbrev pub ServerSays : Option (List Result) → ℕ → Option (List Result) → Type 0
ServerSays before status printed = (status ≤ 1) × (printed ≡ before)

module _ (k : Kernel) (n fuel : ℕ) (w : World) (good : IsKernel k) (s : IsSignalled k n)
    (flag : IsFlagged w) (few : n ≤ fuel) where
  abbrev P : Said
  P = ServerSays (last_printed w.history)

  serve_all-Ends :
      (config : ServerConfig) (l : Listeners) (v : World)
      → InProgram (descriptors l.fd6 ++ descriptors l.fd4) w v
      → last_printed v.history ≡ last_printed w.history
      → Post (Ends P w) (serve_all k fuel config l v)
  unfolding serve_all
  serve_all-Ends config l v h e =
      Post-bind (λ u v'. Unit {0} × IsSame v v') (Ends P w) (server_loop k fuel config l v)
        (λ u. finish_program k l 0)
        (server_loop-Quiet k good n fuel config l v s (h.flagged flag) (omega (arith, few)))
        (λ u v' q.
          finish_program-IsClean k P l 0 w v'
            (InProgram-IsSame (descriptors l.fd6 ++ descriptors l.fd4) w v v' h q.1)
            (omega arith, q.1.printed ∙ e))

  listen-Ends :
      (name : Text) (config : ServerConfig) (installed : Bool) (v : World)
      → InProgram [] w v
      → last_printed v.history ≡ last_printed w.history
      → Post
          (Ends P w)
          ((if installed then with_listeners k name (serve_all k fuel config) else give_up) v)
  listen-Ends name config installed v h e =
      if_lem (λ (m : Sys ℕ). Post (Ends P w) (m v)) installed
        (with_listeners k name (serve_all k fuel config)) give_up
        (λ yes.
          with_listeners-Ends k P name (serve_all k fuel config) w v h (omega arith, e)
            (λ l u g f. serve_all-Ends config l u g (f ∙ e)))
        (λ no. give_up-IsClean P w v h (omega arith, e))

  start_server-Ends :
      (o : ServerOptions) (config : ServerConfig) (v : World)
      → InProgram [] w v
      → last_printed v.history ≡ last_printed w.history
      → Post (Ends P w) (start_server k fuel o config v)
  unfolding start_server
  start_server-Ends o config v h e =
      Post-bind (λ c u. Unit {0} × IsSame v u) (Ends P w)
        (apply_runtime_identity k o.interface_name config v)
        (λ c. install_handlers k >>= λ installed.
          if installed then with_listeners k o.interface_name (serve_all k fuel c) else give_up)
        (apply_runtime_identity-Quiet k good o.interface_name config v)
        (λ c u p.
          let h2 = InProgram-IsSame [] w v u h p.1 in
          Post-bind (λ b t. Unit {0} × IsSame u t) (Ends P w) (install_handlers k u)
            (λ installed.
              if installed then with_listeners k o.interface_name (serve_all k fuel c) else give_up)
            (install_handlers-Quiet k u)
            (λ b t q.
              listen-Ends o.interface_name c b t (InProgram-IsSame [] w u t h2 q.1)
                (q.1.printed ∙ p.1.printed ∙ e)))

  configured_with-Ends :
      (o : ServerOptions) (c : Option ServerConfig) (v : World)
      → InProgram [] w v
      → last_printed v.history ≡ last_printed w.history
      → Post (Ends P w) (configured_with k fuel o c v)
  configured_with-Ends o none v h e = give_up-IsClean P w v h (omega arith, e)
  configured_with-Ends o (some c) v h e = start_server-Ends o c v h e

  read_config-Ends :
      (o : ServerOptions) (path : Text) (v : World)
      → InProgram [] w v
      → last_printed v.history ≡ last_printed w.history
      → Post (Ends P w) (read_config k fuel o path v)
  read_config-Ends o [] v h e = start_server-Ends o server_config_init v h e
  read_config-Ends o (c ∷ cs) v h e =
      Post-bind (λ loaded u. Unit {0} × IsSame v u) (Ends P w)
        (load_file k (c ∷ cs) server_config_init v) (configured_with k fuel o)
        (load_file-Quiet k (c ∷ cs) server_config_init (record { count = omega arith; fit = tt }) v)
        (λ loaded u q.
          configured_with-Ends o loaded u (InProgram-IsSame [] w v u h q.1) (q.1.printed ∙ e))

-- Whatever the arguments are, and whatever the kernel answers, the server ends in at most `n` rounds if a
-- signal comes before `n` calls, which a look at the flag has seen from then on, or the next one sees. It
-- touches no memory outside of its arrays, leaves no descriptor and no file open, neither the log nor the
-- configuration, and its status is 0 or 1. It starts without a log stream, and with the flag set if a look has
-- seen a signal before.
pub server_main-Ends :
    (k : Kernel) (n fuel : ℕ) (args : List Text) (w : World)
    → IsKernel k
    → w.logger.stream ≡ null
    → IsFlagged w
    → IsSignalled k n
    → n ≤ fuel
    → Post (Ends (ServerSays (last_printed w.history)) w) (server_main k fuel args w)
unfolding server_main run_server
server_main-Ends k n fuel args w good e flag s few = go (parse_server_args args)
  where
    go :
        (p : ParsedArgs ServerOptions)
        → Post (Ends (ServerSays (last_printed w.history)) w) (run_server k fuel p w)
    go helped = (record { fds = refl; files = refl; stream = e }, (omega arith, refl))
    go refused = (record { fds = refl; files = refl; stream = e }, (omega arith, refl))
    go (accepted o) =
        with_log-Ends k (ServerSays (last_printed w.history)) o.log_level o.log_file
          (read_config k fuel o o.config_path) w (omega arith, refl)
          (λ v h f. read_config-Ends k n fuel w good s flag few o o.config_path v h f)
