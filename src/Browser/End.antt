-- ===== src/Browser/End.antt =====
-- `main` of src/browser/main.c from its start to its end, on any kernel.
use umdns.Browser.Cycle.{browser_loop, browser_report, browse, run_browser, browser_main}
use umdns.Browser.Merge.{HasOnce, merge_service_results-summary}
use umdns.Browser.Rows.{AreRows}
use umdns.Browser.{max_results}
use umdns.Message.{Result}
use umdns.Options.Bounds.{Accepts}
use umdns.Options.Browser.{BrowserOptions, parse_browser_args}
use umdns.Options.Ranges.{IsBrowserOptions, parse_browser_args-Accepts}
use umdns.Options.{ParsedArgs, accepted, helped, refused}
use umdns.Prelude.{
  if_lem, length, take, length-take, ℕ, ◌≤◌, ◌≡◌, refl, ◌∙◌, ◌⊎◌, inl, inr, Option, some, List, [],
  ◌∷◌, ◌++◌, arith, if◌then◌else◌,
}
use umdns.Program.Resources.{
  InProgram, Said, Ends, InProgram-IsSame, finish_program-IsClean, give_up-IsClean,
  with_listeners-Ends, with_log-Ends,
}
use umdns.Program.{Listeners, with_listeners, give_up}
use umdns.Signal.Laws.{IsSignalled, install_handlers-Quiet}
use umdns.Signal.{install_handlers}
use umdns.Socket.Resources.{descriptors}
use umdns.Socket.Messages.{IsKernel}
use umdns.System.Laws.{Post, Post-bind}
use umdns.System.Resources.{IsFlagged, IsSame, last_printed}
use umdns.System.{Kernel, World, Sys, print_results, ◌>>=◌}
use umdns.Log.{null}
use umdns.Text.{Text}
use umdns.Browser.Loop.{Enough, browser_loop-Quiet}

-- The status is 0 or 1. No table is printed, or one with at most 256 rows, each of another instance, and
-- then the status is 0.
abbrev pub BrowserSays : Option (List Result) → ℕ → Option (List Result) → Type 0
BrowserSays before status printed =
    (status ≤ 1)
    × ((printed ≡ before)
        ⊎ ((rows : List Result) × (printed ≡ some rows)
            × (status ≡ 0)
            × (length rows ≤ max_results)
            × HasOnce rows))

browser_report-Ends :
    (k : Kernel) (w : World) (l : Listeners) (rows : List Result) (v : World)
    → AreRows rows
    → InProgram (descriptors l.fd6 ++ descriptors l.fd4) w v
    → last_printed v.history ≡ last_printed w.history
    → Post (Ends (BrowserSays (last_printed w.history)) w) (browser_report k l rows v)
unfolding browser_report
browser_report-Ends k w l [] v a h e =
    finish_program-IsClean k (BrowserSays (last_printed w.history)) l 0 w v h (omega arith, inl e)
browser_report-Ends k w l (r ∷ rs) v a h e =
    let rows = r ∷ rs in
    let (m, run, few, size, once, each) =
      merge_service_results-summary rows (length rows) (omega arith) a.fit.0 in
    let shown = take m.merged_count m.results in
    rw run (
      finish_program-IsClean k (BrowserSays (last_printed w.history)) l 0 w
        (record v { history = print_results shown ∷ v.history })
        (record { fds = h.fds; files = h.files; flagged = h.flagged })
        (
          omega arith,
          inr (
            shown,
            refl,
            refl,
            omega (arith, length-take m.merged_count m.results, size, a.fit.0),
            once,
          ),
        ))

browse-Ends :
    (k : Kernel) (w : World) (fuel : ℕ) (o : BrowserOptions) (l : Listeners) (v : World)
    → IsKernel k
    → IsBrowserOptions o
    → ((n : ℕ) × IsSignalled k n × IsFlagged w × (n ≤ fuel))
      ⊎ ((1 ≤ o.timeout_seconds) × (o.timeout_seconds ≤ fuel))
    → InProgram (descriptors l.fd6 ++ descriptors l.fd4) w v
    → last_printed v.history ≡ last_printed w.history
    → Post (Ends (BrowserSays (last_printed w.history)) w) (browse k fuel o l v)
unfolding browse
browse-Ends k w fuel o l v good options enough h e =
    Post-bind (λ rs u. AreRows rs × IsSame v u) (Ends (BrowserSays (last_printed w.history)) w)
      (browser_loop k fuel o l 0 [] v) (browser_report k l)
      (browser_loop-Quiet k good o options fuel l 0 [] v (at_start enough)
        (record { fit = (omega arith, tt); once = tt }))
      (λ rs u p.
        browser_report-Ends k w l rs u p.0
          (InProgram-IsSame (descriptors l.fd6 ++ descriptors l.fd4) w v u h p.1) (p.1.printed ∙ e))
  where
    at_start :
        ((n : ℕ) × IsSignalled k n × IsFlagged w × (n ≤ fuel))
          ⊎ ((1 ≤ o.timeout_seconds) × (o.timeout_seconds ≤ fuel))
        → Enough k o fuel 0 v
    at_start (inl (n, s, f, few)) = inl (n, s, h.flagged f, omega arith)
    at_start (inr (some_time, few)) = inr (some_time, omega arith)

-- Whatever the arguments are, and whatever the kernel answers, the browser ends in at most `n` rounds if a
-- signal comes before `n` calls, which a look at the flag has seen from then on, or the next one sees; or in as
-- many rounds as its timeout has seconds, if it has one. It touches no memory outside of its arrays, and leaves
-- no descriptor and no file open; its status is 0 or 1; and it prints no table, or one of at most 256 rows, each
-- of another instance, and then the status is 0. It starts without a log stream, and for the signal with the
-- flag set if a look has seen one before.
pub browser_main-Ends :
    (k : Kernel) (fuel : ℕ) (args : List Text) (w : World)
    → IsKernel k
    → w.logger.stream ≡ null
    → ((n : ℕ) × IsSignalled k n × IsFlagged w × (n ≤ fuel))
      ⊎ Accepts
          (λ o. (1 ≤ o.timeout_seconds) × (o.timeout_seconds ≤ fuel))
          (parse_browser_args args)
    → Post (Ends (BrowserSays (last_printed w.history)) w) (browser_main k fuel args w)
unfolding browser_main run_browser
browser_main-Ends k fuel args w good s enough =
    go (parse_browser_args args) (parse_browser_args-Accepts args) enough
  where
    P : Said
    P = BrowserSays (last_printed w.history)

    go :
        (p : ParsedArgs BrowserOptions)
        → Accepts IsBrowserOptions p
        → ((n : ℕ) × IsSignalled k n × IsFlagged w × (n ≤ fuel))
          ⊎ Accepts (λ o. (1 ≤ o.timeout_seconds) × (o.timeout_seconds ≤ fuel)) p
        → Post (Ends P w) (run_browser k fuel p w)
    go helped a t = (record { fds = refl; files = refl; stream = s }, (omega arith, inl refl))
    go refused a t = (record { fds = refl; files = refl; stream = s }, (omega arith, inl refl))
    go (accepted o) a t =
        with_log-Ends k P o.log_level o.log_file
          (install_handlers k >>= λ installed.
            if installed then with_listeners k o.interface_name (browse k fuel o) else give_up)
          w (omega arith, inl refl)
          (λ v h e.
            Post-bind (λ b u. Unit {0} × IsSame v u) (Ends P w) (install_handlers k v)
              (λ installed.
                if installed then with_listeners k o.interface_name (browse k fuel o) else give_up)
              (install_handlers-Quiet k v)
              (λ b u q.
                let g = InProgram-IsSame [] w v u h q.1 in
                let f = q.1.printed ∙ e in
                if_lem (λ (m : Sys ℕ). Post (Ends P w) (m u)) b
                  (with_listeners k o.interface_name (browse k fuel o)) give_up
                  (λ yes.
                    with_listeners-Ends k P o.interface_name (browse k fuel o) w u g
                      (omega arith, inl f)
                      (λ l t' g' f'. browse-Ends k w fuel o l t' good a t g' (f' ∙ f)))
                  (λ no. give_up-IsClean P w u g (omega arith, inl f))))
