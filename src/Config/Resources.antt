-- ===== src/Config/Resources.antt =====
-- The files that `umdns_server_config_load` of src/common/config.c leaves open.
use umdns.System.Laws.{Post-run_outcome, Post-bind, Post}
use umdns.System.Resources.{open_files, remove_cons, IsSame, Quiet}
use umdns.Config.Safety.{server_config_load-Ensures, IsConfig}
use umdns.Config.{server_config_load, ServerConfig}
use umdns.Text.{Text}
use umdns.System.{pure, ◌>>=◌, fclose, record_event, run_outcome, fgets, World, fopen, Kernel}
use umdns.Config.Files.{load_opened, load_file}
use umdns.Prelude.{ℕ, ◌≡◌, refl, Option, none, some, ◌∷◌, arith}

-- The configuration file is closed again on every path.
pub load_file-Quiet :
    (k : Kernel) (path : Text) (config : ServerConfig)
    → IsConfig config
    → Quiet (λ o. Unit {0}) (load_file k path config)
unfolding load_file
load_file-Quiet k path config good w = go (k.fopen_answer w.history path)
  where
    go :
        (o : Option ℕ)
        → Post
            (λ c w'. Unit {0} × IsSame w w')
            (load_opened k config o (record w { history = fopen path o ∷ w.history }))
    go none = (
      tt,
      record {
        fds = refl;
        files = refl;
        logger = refl;
        printed = refl;
        later = omega arith;
        flagged = λ f. f;
      },
    )
    go (some f) =
        let h = fopen path (some f) ∷ w.history in
        let lines = k.fgets_answer h f in
        let v : World = record w { history = fgets f lines ∷ h } in
        Post-bind (λ c u. u ≡ v) (λ c w'. Unit {0} × IsSame w w')
          (run_outcome (server_config_load lines config) v)
          (λ loaded. record_event (λ h. tt) (λ _. fclose f) >>= λ _. pure loaded)
          (Post-run_outcome IsConfig (server_config_load lines config) (λ c u. u ≡ v) v
            (server_config_load-Ensures lines config good) (λ c p. refl) refl)
          (λ loaded u same. rw same (
            tt,
            record {
              fds = refl;
              files = remove_cons f (open_files w.history);
              logger = refl;
              printed = refl;
              later = omega arith;
              flagged = λ f. f;
            },
          ))
