-- ===== src/Log/Files.antt =====
-- `umdns_log_init` and `umdns_log_close` of src/common/log.c, on the files of System.
use umdns.Log.{LogLevel, Stream, null, stderr, file, Logger}
use umdns.Prelude.{ℕ, Bool, true, false, Option, none, some, [], ◌∷◌}
use umdns.System.{Kernel, Sys, returned, pure, record_event, ◌>>=◌, ◌>>◌, fopen, fclose}
use umdns.Text.{Text}

abbrev pub set_logger : Logger → Sys (Unit {0})
set_logger logger w = returned tt (record w { logger = logger })

abbrev pub stream_of : Option ℕ → Stream
stream_of none = null
stream_of (some f) = file f

abbrev pub is_open : Option ℕ → Bool
is_open none = false
is_open (some f) = true

-- `umdns_log_init`; an empty path is as good as NULL.
unfoldable pub log_init : Kernel → LogLevel → Text → Sys Bool
log_init k level [] = do set_logger (record { stream = stderr; level = level }); pure true
log_init k level (c ∷ cs) = do
  f ← record_event (λ h. k.fopen_answer h (c ∷ cs)) (fopen (c ∷ cs))
  set_logger (record { stream = stream_of f; level = level })
  pure (is_open f)

abbrev pub close_stream : Stream → Sys (Unit {0})
close_stream null = pure tt
close_stream stderr = pure tt
close_stream (file f) = record_event (λ h. tt) (λ _. fclose f)

-- `umdns_log_close`.
unfoldable pub log_close : Sys (Unit {0})
log_close w =
    (close_stream w.logger.stream >>= λ _ v.
    returned tt (record v { logger = record v.logger { stream = null } }))
      w
