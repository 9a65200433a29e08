-- ===== src/Signal.antt =====
-- Signals, src/common/signal.c. A handler that has run since the last look at the flag has set it.
pub mod Laws
use umdns.Prelude.{Bool, true, false, ◌||◌, if◌then◌else◌}
use umdns.System.{Kernel, Sys, returned, pure, record_event, ◌>>=◌, sigaction, signalled}

module _ (k : Kernel) where
  -- `umdns_signal_install_handlers`, for SIGINT and then for SIGTERM.
  unfoldable pub install_handlers : Sys Bool
  install_handlers = do
    interrupts ← record_event k.sigaction_answer sigaction
    if interrupts then record_event k.sigaction_answer sigaction else pure false

  -- `umdns_signal_handler`, if it has run.
  abbrev pub after_handler : Bool → Sys Bool
  after_handler ran w = returned (ran || w.terminate) (record w { terminate = ran || w.terminate })

  -- `umdns_signal_should_terminate`.
  unfoldable pub should_terminate : Sys Bool
  should_terminate = do ran ← record_event k.signalled_answer signalled; after_handler ran

-- `umdns_signal_request_terminate`.
abbrev pub request_terminate : Sys (Unit {0})
request_terminate w = returned tt (record w { terminate = true })
