-- ===== src/Config/Files.antt =====
-- `umdns_server_config_load` of src/common/config.c with its calls: the file is opened, read to its end and
-- closed. The loop of `fgets` is one call, which answers with the lines.
use umdns.Text.{Text}
use umdns.Config.{server_config_load, ServerConfig}
use umdns.System.{Kernel, Sys, pure, fopen, fgets, fclose, record_event, run_outcome, ◌>>=◌, ◌>>◌}
use umdns.Prelude.{ℕ, Option, none, some}

module _ (k : Kernel) where
  -- Behind the test of `fp`.
  abbrev pub load_opened : ServerConfig → Option ℕ → Sys (Option ServerConfig)
  load_opened config none = pure none
  load_opened config (some f) = do
    lines ← record_event (λ h. k.fgets_answer h f) (fgets f)
    loaded ← run_outcome (server_config_load lines config)
    record_event (λ h. tt) (λ _. fclose f)
    pure loaded

  -- `umdns_server_config_load`; `none` is its -1.
  unfoldable pub load_file : Text → ServerConfig → Sys (Option ServerConfig)
  load_file path config = do
    f ← record_event (λ h. k.fopen_answer h path) (fopen path)
    load_opened config f
