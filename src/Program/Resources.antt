-- ===== src/Program/Resources.antt =====
-- The descriptors and files that a program has open, from the opening of the log to the end.
use umdns.Log.Files.{log_init, log_close, close_stream, stream_of, is_open}
use umdns.Log.{LogLevel, Logger, Stream, null, stderr, file}
use umdns.Message.{Result}
use umdns.Prelude.{
  ◌&&◌, if◌then◌else◌, append_assoc, ℕ, ◌≡◌, refl, sym, ap, ◌∙◌, ◌&&◌, Option, none, some, List, [],
  ◌∷◌, ◌++◌, append_assoc, if◌then◌else◌,
}
use umdns.Program.{
  send_query, send_if, Bytes, Family, is_none, Listeners, close_if, finish_program, give_up,
  with_listeners, with_log,
}
use umdns.Socket.{send_query, create_ipv4_listener, create_ipv6_listener}
use umdns.Socket.Resources.{
  descriptors, Leaves, create_ipv4_listener-Leaves, create_ipv6_listener-Leaves,
}
use umdns.Socket.Messages.{send_query-Quiet}
use umdns.System.{Family, and_then, Kernel, World, Sys, returned, pure, close, fopen, ◌>>=◌}
use umdns.System.Laws.{Post, Post-bind}
use umdns.System.Resources.{
  IsFlagged, Quiet-bind, Quiet-pure, Quiet, open_fds, open_files, last_printed, IsSame, remove_cons,
  remove_second,
}
use umdns.Text.{Bytes, Text}

abbrev pub stream_files : Stream → List ℕ
stream_files null = []
stream_files stderr = []
stream_files (file f) = f ∷ []

-- Behind the start in world `w`: these descriptors and the log are open besides what was.
pub record InProgram (left : List ℕ) (w v : World) : Type 0 where
  pub fds : open_fds v.history ≡ left ++ open_fds w.history
  pub files : open_files v.history ≡ stream_files v.logger.stream ++ open_files w.history
  pub flagged : IsFlagged w → IsFlagged v

-- Nothing is open that was not at the start.
pub record IsClean (w v : World) : Type 0 where
  pub fds : open_fds v.history ≡ open_fds w.history
  pub files : open_files v.history ≡ open_files w.history
  pub stream : v.logger.stream ≡ null

-- What the status says and what was printed last, at the end.
abbrev pub Said : Type 1
Said = ℕ → Option (List Result) → Type 0

abbrev pub Ends : Said → World → ℕ → World → Type 0
Ends P w status v = IsClean w v × P status (last_printed v.history)

pub InProgram-IsSame :
    (left : List ℕ) (u v w : World) → InProgram left u v → IsSame v w → InProgram left u w
InProgram-IsSame left u v w h k = record {
  fds = k.fds ∙ h.fds;
  files =
      k.files
      ∙ h.files
      ∙ ap (λ (l : Logger). stream_files l.stream ++ open_files u.history) (sym k.logger);
  flagged = λ f. k.flagged (h.flagged f);
}

log_close-IsClean :
    (P : Said) (status : ℕ) (w v : World)
    → InProgram [] w v
    → P status (last_printed v.history)
    → Post (Ends P w) ((log_close >>= λ _. pure status) v)
unfolding log_close
log_close-IsClean P status w v k p = go v.logger.stream k.files
  where
    go :
        (s : Stream)
        → open_files v.history ≡ stream_files s ++ open_files w.history
        → Post (Ends P w) (
            and_then
              (and_then
                (close_stream s v)
                (λ _ u. returned tt (record u { logger = record u.logger { stream = null } })))
              (λ _. pure status))
    go null e = (record { fds = k.fds; files = e; stream = refl }, p)
    go stderr e = (record { fds = k.fds; files = e; stream = refl }, p)
    go (file f) e = (
      record { fds = k.fds; files = rw e (remove_cons f (open_files w.history)); stream = refl },
      p,
    )

pub give_up-IsClean :
    (P : Said) (w v : World)
    → InProgram [] w v
    → P 1 (last_printed v.history)
    → Post (Ends P w) (give_up v)
unfolding give_up
give_up-IsClean P w v h p = log_close-IsClean P 1 w v h p

-- Both descriptors are closed, then the log.
pub finish_program-IsClean :
    (k : Kernel) (P : Said) (l : Listeners) (status : ℕ) (w v : World)
    → InProgram (descriptors l.fd6 ++ descriptors l.fd4) w v
    → P status (last_printed v.history)
    → Post (Ends P w) (finish_program k l status v)
unfolding finish_program
finish_program-IsClean k P l status w v h p = go l.fd4 l.fd6 h.fds
  where
    go :
        (fd4 fd6 : Option ℕ)
        → open_fds v.history ≡ (descriptors fd6 ++ descriptors fd4) ++ open_fds w.history
        → Post (Ends P w) (
            and_then
              (close_if k fd4 v)
              (λ _. close_if k fd6 >>= λ _. log_close >>= λ _. pure status))
    go none none e =
        log_close-IsClean P status w v (record { fds = e; files = h.files; flagged = h.flagged }) p
    go none (some b) e =
        log_close-IsClean P status w (record v { history = close b ∷ v.history })
          (record {
            fds = rw e (remove_cons b (open_fds w.history));
            files = h.files;
            flagged = h.flagged;
          })
          p
    go (some a) none e =
        log_close-IsClean P status w (record v { history = close a ∷ v.history })
          (record {
            fds = rw e (remove_cons a (open_fds w.history));
            files = h.files;
            flagged = h.flagged;
          })
          p
    go (some a) (some b) e =
        log_close-IsClean P status w (record v { history = close b ∷ close a ∷ v.history })
          (record {
            fds =
                rw (e, remove_second a b (open_fds w.history)) (remove_cons b (open_fds w.history));
            files = h.files;
            flagged = h.flagged;
          })
          p

-- The listeners are made, or the program gives up.
pub with_listeners-Ends :
    (k : Kernel) (P : Said) (name : Text) (run : Listeners → Sys ℕ) (w v : World)
    → InProgram [] w v
    → P 1 (last_printed v.history)
    → ((l : Listeners) (u : World)
        → InProgram (descriptors l.fd6 ++ descriptors l.fd4) w u
        → last_printed u.history ≡ last_printed v.history
        → Post (Ends P w) (run l u))
    → Post (Ends P w) (with_listeners k name run v)
unfolding with_listeners
with_listeners-Ends k P name run w v h p next =
    Post-bind (λ o u. Leaves (descriptors o ++ open_fds v.history) v u) (Ends P w)
      (create_ipv4_listener k name v) (λ fd4. create_ipv6_listener k name >>= pick fd4)
      (create_ipv4_listener-Leaves k name v)
      (λ fd4 u m.
        Post-bind (λ o t. Leaves (descriptors o ++ open_fds u.history) u t) (Ends P w)
          (create_ipv6_listener k name u) (pick fd4) (create_ipv6_listener-Leaves k name u)
          (λ fd6 t n.
            pick-Ends fd4 fd6 t
              (record {
                fds =
                    n.fds
                    ∙ ap (λ (l : List ℕ). descriptors fd6 ++ l)
                        (m.fds ∙ ap (λ (l : List ℕ). descriptors fd4 ++ l) h.fds)
                    ∙ sym (append_assoc (descriptors fd6) (descriptors fd4) (open_fds w.history));
                files =
                    n.files
                    ∙ m.files
                    ∙ h.files
                    ∙ ap (λ (l : Logger). stream_files l.stream ++ open_files w.history)
                        (sym (n.logger ∙ m.logger));
                flagged = λ f. n.flagged (m.flagged (h.flagged f));
              })
              (n.printed ∙ m.printed)))
  where
    pick : Option ℕ → Option ℕ → Sys ℕ
    pick fd4 fd6 =
        if is_none fd4 && is_none fd6 then give_up else run (record { fd4 = fd4; fd6 = fd6 })

    pick-Ends :
        (fd4 fd6 : Option ℕ) (u : World)
        → InProgram (descriptors fd6 ++ descriptors fd4) w u
        → last_printed u.history ≡ last_printed v.history
        → Post (Ends P w) (pick fd4 fd6 u)
    pick-Ends none none u g e = give_up-IsClean P w u g (rw e p)
    pick-Ends none (some b) u g e = next (record { fd4 = none; fd6 = some b }) u g e
    pick-Ends (some a) fd6 u g e = next (record { fd4 = some a; fd6 = fd6 }) u g e

-- The log is opened, or the program ends.
pub with_log-Ends :
    (k : Kernel) (P : Said) (level : LogLevel) (path : Text) (run : Sys ℕ) (w : World)
    → P 1 (last_printed w.history)
    → ((v : World)
        → InProgram [] w v
        → last_printed v.history ≡ last_printed w.history
        → Post (Ends P w) (run v))
    → Post (Ends P w) (with_log k level path run w)
unfolding with_log log_init
with_log-Ends k P level [] run w p next =
    next _ (record { fds = refl; files = refl; flagged = λ f. f }) refl
with_log-Ends k P level (c ∷ cs) run w p next = go (k.fopen_answer w.history (c ∷ cs))
  where
    go :
        (f : Option ℕ)
        → Post (Ends P w) (
            (if is_open f then run else pure 1) (record w {
              history = fopen (c ∷ cs) f ∷ w.history;
              logger = record { stream = stream_of f; level = level };
            }))
    go none = (record { fds = refl; files = refl; stream = refl }, p)
    go (some f) = next _ (record { fds = refl; files = refl; flagged = λ f. f }) refl

pub send_if-Quiet :
    (k : Kernel) (family : Family) (fd : Option ℕ) (bytes : Bytes)
    → Quiet (λ u. Unit {0}) (send_if k family fd bytes)
send_if-Quiet k family none bytes = Quiet-pure {A = Unit {0}} (λ u. Unit {0}) tt tt
send_if-Quiet k family (some fd) bytes =
    Quiet-bind (λ b. Unit {0}) (λ u. Unit {0}) (send_query k family fd bytes) (λ b. pure tt)
      (send_query-Quiet k family fd bytes) (λ b p. Quiet-pure {A = Unit {0}} (λ u. Unit {0}) tt tt)
