-- ===== src/System/Resources.antt =====
-- The descriptors and files that are open after a history, and the parts of a program that leave them,
-- the logger and what was printed as they were.
use umdns.Message.{Result}
use umdns.Outcome.{Outcome, Ensures}
use umdns.Prelude.{
  false, true, sym, Bool, ◌≤◌, length, arith, ◌==◌, ℕ, ◌≡◌, refl, ◌∙◌, Option, none, some, List, [],
  ◌∷◌, if◌then◌else◌,
}
use umdns.System.{
  signalled, World, History, Event, Sys, socket, close, fopen, fclose, print_results, record_event,
  pure, ◌>>=◌, run_outcome,
}
use umdns.System.Laws.{Post, Post-bind, Post-weaken, Post-run_outcome}

-- The list without the first place where the number stands.
unfoldable pub remove : ℕ → List ℕ → List ℕ
remove n [] = []
remove n (m ∷ ms) = if m == n then ms else m ∷ remove n ms

pub remove_cons : (n : ℕ) (l : List ℕ) → remove n (n ∷ l) ≡ l
unfolding remove
remove_cons n l = ground arith

-- The second of two descriptors is removed as well as the first.
pub remove_second : (n m : ℕ) (l : List ℕ) → remove n (m ∷ n ∷ l) ≡ m ∷ l
unfolding remove
remove_second n m l = ground arith

-- The descriptors that are open, the newest first.
abbrev pub open_fds : History → List ℕ
open_fds [] = []
open_fds (socket family (some fd) ∷ h) = fd ∷ open_fds h
open_fds (close fd ∷ h) = remove fd (open_fds h)
open_fds (_ ∷ h) = open_fds h

abbrev pub open_files : History → List ℕ
open_files [] = []
open_files (fopen path (some f) ∷ h) = f ∷ open_files h
open_files (fclose f ∷ h) = remove f (open_files h)
open_files (_ ∷ h) = open_files h

-- The rows of the table printed last.
abbrev pub last_printed : History → Option (List Result)
last_printed [] = none
last_printed (print_results rows ∷ h) = some rows
last_printed (_ ∷ h) = last_printed h

-- A look at the flag has seen a signal.
abbrev pub saw_signal : History → Bool
saw_signal [] = false
saw_signal (signalled true ∷ h) = true
saw_signal (_ ∷ h) = saw_signal h

-- The flag is set if a look has seen a signal.
abbrev pub IsFlagged : World → Type 0
IsFlagged w = saw_signal w.history ≡ true → w.terminate ≡ true

-- Nothing was opened or closed, and nothing printed, by the calls in between, and no signal was lost.
pub record IsSame (w w' : World) : Type 0 where
  pub fds : open_fds w'.history ≡ open_fds w.history
  pub files : open_files w'.history ≡ open_files w.history
  pub logger : w'.logger ≡ w.logger
  pub printed : last_printed w'.history ≡ last_printed w.history
  pub later : length w.history ≤ length w'.history
  pub flagged : IsFlagged w → IsFlagged w'

pub IsSame-refl : (w : World) → IsSame w w
IsSame-refl w = record {
  fds = refl;
  files = refl;
  logger = refl;
  printed = refl;
  later = omega arith;
  flagged = λ f. f;
}

pub IsSame-trans : (u v w : World) → IsSame u v → IsSame v w → IsSame u w
IsSame-trans u v w h k = record {
  fds = k.fds ∙ h.fds;
  files = k.files ∙ h.files;
  logger = k.logger ∙ h.logger;
  printed = k.printed ∙ h.printed;
  later = omega (arith, h.later, k.later);
  flagged = λ f. k.flagged (h.flagged f);
}

-- From any world the part returns, with a value that satisfies `P` and the resources as they were.
abbrev pub Quiet : {A : Type 0} → (A → Type 0) → Sys A → Type 0
Quiet P m = (w : World) → Post (λ a w'. P a × IsSame w w') (m w)

pub Quiet-pure : {A : Type 0} (P : A → Type 0) (a : A) → P a → Quiet P (pure a)
Quiet-pure P a h w = (h, IsSame-refl w)

pub Quiet-bind :
    {A B : Type 0} (P : A → Type 0) (Q : B → Type 0) (m : Sys A) (f : A → Sys B)
    → Quiet P m
    → ((a : A) → P a → Quiet Q (f a))
    → Quiet Q (m >>= f)
Quiet-bind P Q m f h k w =
    Post-bind (λ a w'. P a × IsSame w w') (λ b w'. Q b × IsSame w w') (m w) f (h w)
      (λ a v p.
        Post-weaken (λ b w'. Q b × IsSame v w') (λ b w'. Q b × IsSame w w') (f a v) (k a p.0 v)
          (λ b u q. (q.0, IsSame-trans w v u p.1 q.1)))

pub Quiet-run_outcome :
    {A : Type 0} (P : A → Type 0) (Q : Option A → Type 0) (m : Outcome A)
    → Ensures P m
    → ((a : A) → P a → Q (some a))
    → Q none
    → Quiet Q (run_outcome m)
Quiet-run_outcome P Q m h k n w =
    Post-run_outcome P m (λ o w'. Q o × IsSame w w') w h (λ a p. (k a p, IsSame-refl w))
      (n, IsSame-refl w)

-- A call that opens and closes nothing, does not print and is not a look at the flag.
pub Quiet-event :
    {A : Type 0} (P : A → Type 0) (answer : History → A) (event : A → Event)
    → ((h : History) → P (answer h))
    → ((a : A) (h : History) → open_fds (event a ∷ h) ≡ open_fds h)
    → ((a : A) (h : History) → open_files (event a ∷ h) ≡ open_files h)
    → ((a : A) (h : History) → last_printed (event a ∷ h) ≡ last_printed h)
    → ((a : A) (h : History) → saw_signal (event a ∷ h) ≡ saw_signal h)
    → Quiet P (record_event answer event)
Quiet-event P answer event p fds files printed saw w =
    let a = answer w.history in
    (
      p w.history,
      record {
        fds = fds a w.history;
        files = files a w.history;
        logger = refl;
        printed = printed a w.history;
        later = omega arith;
        flagged = λ f e. f (sym (saw a w.history) ∙ e);
      },
    )
