-- ===== src/Signal/Laws.antt =====
-- The look at the flag of src/common/signal.c, and a kernel on which a signal comes.
use umdns.Prelude.{
  inr, inl, ◌∷◌, ◌⊎◌, ◌||◌, length, ℕ, ◌+◌, ◌≤◌, ◌≡◌, refl, Bool, true, false, arith, if◌then◌else◌,
}
use umdns.Signal.{signalled, install_handlers, should_terminate}
use umdns.System.Laws.{Post}
use umdns.System.Resources.{
  saw_signal, IsFlagged, IsSame, Quiet, Quiet-bind, Quiet-event, Quiet-pure,
}
use umdns.System.{signalled, Kernel, World, History, sigaction, record_event, pure}

-- A signal comes before `n` calls have been made: from then on, a look at the flag has seen it, or it comes
-- with the next look.
abbrev pub IsSignalled : Kernel → ℕ → Type 0
IsSignalled k n =
    (h : History) → n ≤ length h → (saw_signal h ≡ true) ⊎ (k.signalled_answer h ≡ true)

-- The look at the flag is a call, and it sees a signal that has come, then or before.
pub record IsLook (k : Kernel) (w : World) (stop : Bool) (w' : World) : Type 0 where
  pub same : IsSame w w'
  pub looked : length w'.history ≡ length w.history + 1
  pub seen :
      IsFlagged w
      → (saw_signal w.history ≡ true) ⊎ (k.signalled_answer w.history ≡ true)
      → stop ≡ true

pub should_terminate-IsLook : (k : Kernel) (w : World) → Post (IsLook k w) (should_terminate k w)
unfolding should_terminate
should_terminate-IsLook k w = go (k.signalled_answer w.history) refl
  where
    go :
        (ran : Bool)
        → k.signalled_answer w.history ≡ ran
        → IsLook k w
            (ran || w.terminate)
            (record w { history = signalled ran ∷ w.history; terminate = ran || w.terminate })
    go true e = record {
      same = record {
        fds = refl;
        files = refl;
        logger = refl;
        printed = refl;
        later = omega arith;
        flagged = λ f h. refl;
      };
      looked = omega arith;
      seen = λ f h. refl;
    }
    go false e = record {
      same = record {
        fds = refl;
        files = refl;
        logger = refl;
        printed = refl;
        later = omega arith;
        flagged = λ f. f;
      };
      looked = omega arith;
      seen = λ f h. elim h [ inl before ↦ f before | inr now ↦ absurd cc ];
    }

pub install_handlers-Quiet : (k : Kernel) → Quiet (λ b. Unit {0}) (install_handlers k)
unfolding install_handlers
install_handlers-Quiet k =
    Quiet-bind (λ b. Unit {0}) (λ b. Unit {0}) (record_event k.sigaction_answer sigaction) _ call
      (λ b u. second b)
  where
    call : Quiet (λ b. Unit {0}) (record_event k.sigaction_answer sigaction)
    call =
        Quiet-event (λ b. Unit {0}) k.sigaction_answer sigaction (λ h. tt) (λ a h. refl)
          (λ a h. refl) (λ a h. refl) (λ a h. refl)

    second :
        (b : Bool)
        → Quiet
            (λ b. Unit {0})
            (if b then record_event k.sigaction_answer sigaction else pure false)
    second true = call
    second false = Quiet-pure (λ b. Unit {0}) false tt
