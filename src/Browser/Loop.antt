-- ===== src/Browser/Loop.antt =====
-- The main loop of src/browser/main.c on any kernel, with fuel for its rounds.
use umdns.Browser.Cycle.{run_cycle, time_is_up, next_elapsed, browser_loop}
use umdns.Browser.Rows.{AreRows}
use umdns.Browser.Run.{Cycled, run_cycle-Quiet}
use umdns.Message.{Result}
use umdns.Options.Browser.{BrowserOptions}
use umdns.Options.Ranges.{IsBrowserOptions}
use umdns.Prelude.{
  if_lem, length, ℕ, zero, suc, ◌+◌, ◌*◌, ◌≤◌, ◌<◌, ◌≡◌, ◌⊎◌, inl, inr, Bool, true, false, Option,
  none, some, List, arith, if◌then◌else◌,
}
use umdns.Program.{Listeners}
use umdns.Signal.Laws.{IsSignalled, IsLook, should_terminate-IsLook}
use umdns.Signal.{should_terminate}
use umdns.Socket.Messages.{IsKernel}
use umdns.System.Laws.{Post, Post-bind, Post-weaken}
use umdns.System.Resources.{IsFlagged, IsSame, IsSame-trans}
use umdns.System.{Kernel, World, Sys, pure, stalled, ◌>>=◌}

-- The fuel is enough: a signal comes before so many calls, or the timeout before so many rounds.
abbrev pub Enough : Kernel → BrowserOptions → ℕ → ℕ → World → Type 0
Enough k o fuel elapsed w =
    ((n : ℕ) × IsSignalled k n × IsFlagged w × (n ≤ fuel + length w.history))
    ⊎ ((elapsed < o.timeout_seconds) × (o.timeout_seconds ≤ fuel + elapsed))

module _ (k : Kernel) (good : IsKernel k) (o : BrowserOptions) (options : IsBrowserOptions o) where
  -- A look at the flag uses up the fuel of a round.
  Enough-look :
      (fuel elapsed : ℕ) (w v u : World)
      → Enough k o (suc fuel) elapsed w
      → length v.history ≡ length w.history + 1
      → length v.history ≤ length u.history
      → (IsFlagged w → IsFlagged u)
      → time_is_up o elapsed ≡ false
      → Enough k o fuel (next_elapsed o elapsed) u
  Enough-look fuel elapsed w v u (inl (n, s, f, h)) one more keep on =
      inl (n, s, keep f, omega arith)
  Enough-look fuel elapsed w v u (inr h) one more keep on =
      inr (ground (arith, h.0, h.1, on, options.interval_positive))

  -- Without fuel, the flag is set.
  stopped :
      (elapsed : ℕ) (w v : World) (stop : Bool)
      → Enough k o 0 elapsed w
      → IsLook k w stop v
      → stop ≡ true
  stopped elapsed w v stop (inl (n, s, f, h)) look = look.seen f (s w.history (omega (arith, h)))
  stopped elapsed w v stop (inr h) look = absurd (omega (arith, h.0, h.1))

  pub browser_loop-Quiet :
      (fuel : ℕ) (l : Listeners) (elapsed : ℕ) (rows : List Result) (w : World)
      → Enough k o fuel elapsed w
      → AreRows rows
      → Post (λ rs w'. AreRows rs × IsSame w w') (browser_loop k fuel o l elapsed rows w)
  unfolding browser_loop
  browser_loop-Quiet zero l elapsed rows w enough h =
      Post-bind (IsLook k w) (λ rs w'. AreRows rs × IsSame w w') (should_terminate k w)
        (λ stop. if stop then pure rows else (λ w. stalled)) (should_terminate-IsLook k w)
        (λ stop v look. rw (stopped elapsed w v stop enough look) (h, look.same))
  browser_loop-Quiet (suc n) l elapsed rows w enough h =
      Post-bind (IsLook k w) Done (should_terminate k w)
        (λ stop. if stop then pure rows else (run_cycle k l cycle_ms rows >>= after_cycle))
        (should_terminate-IsLook k w)
        (λ stop v look.
          if_lem (λ (m : Sys (List Result)). Post Done (m v)) stop (pure rows)
            (run_cycle k l cycle_ms rows >>= after_cycle) (λ e. (h, look.same))
            (λ e.
              Post-bind (λ c u. Cycled c × IsSame v u) Done (run_cycle k l cycle_ms rows v)
                after_cycle (run_cycle-Quiet k good l cycle_ms rows h v)
                (λ c u p.
                  behind v look
                    (λ rows u e q. browser_loop-Quiet n l (next_elapsed o elapsed) rows u e q) c u
                    p.0 p.1)))
    where
      cycle_ms : ℕ
      cycle_ms = o.interval_seconds * 1000

      Done : List Result → World → Type 0
      Done rs w' = AreRows rs × IsSame w w'

      after_cycle : Option (List Result) → Sys (List Result)
      after_cycle none = pure rows
      after_cycle (some rows) =
          if time_is_up o elapsed
          then pure rows
          else browser_loop k n o l (next_elapsed o elapsed) rows

      behind :
          {stop : Bool} (v : World)
          → IsLook k w stop v
          → ((rows : List Result) (u : World)
              → Enough k o n (next_elapsed o elapsed) u
              → AreRows rows
              → Post
                  (λ rs w'. AreRows rs × IsSame u w')
                  (browser_loop k n o l (next_elapsed o elapsed) rows u))
          → (c : Option (List Result)) (u : World) → Cycled c
          → IsSame v u
          → Post Done (after_cycle c u)
      behind v look ih none u p s = (h, IsSame-trans w v u look.same s)
      behind v look ih (some rows) u p s =
          let same = IsSame-trans w v u look.same s in
          if_lem (λ (m : Sys (List Result)). Post Done (m u)) (time_is_up o elapsed) (pure rows)
            (browser_loop k n o l (next_elapsed o elapsed) rows) (λ e. (p, same))
            (λ on.
              Post-weaken (λ rs w'. AreRows rs × IsSame u w') Done
                (browser_loop k n o l (next_elapsed o elapsed) rows u)
                (ih rows u (Enough-look n elapsed w v u enough look.looked s.later same.flagged on)
                  p)
                (λ rs t q. (q.0, IsSame-trans w u t same q.1)))
