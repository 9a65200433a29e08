-- ===== src/Client/Run.antt =====
-- The receive loop of src/client/main.c on any kernel.
use umdns.Answers.Rows.{AreResults}
use umdns.Answers.Safety.{parse_answers-Results}
use umdns.Answers.{parse_answers}
use umdns.Browser.{max_results}
use umdns.Client.{
  waits, client_slice, add_answers, add_received, client_receive, client_round, client_loop,
}
use umdns.Message.{Result}
use umdns.Prelude.{
  ltb, if_lem, All-append, append-nil, length-append, ◌++◌, ltb, length, All, length-append, ℕ,
  zero, suc, ◌-◌, ◌≤◌, ◌≡◌, Bool, true, false, Option, none, some, List, [], ◌∷◌, ◌++◌, append-nil,
  arith, if◌then◌else◌, All-append,
}
use umdns.Program.{packet_size, rows_of, Listeners}
use umdns.Socket.Messages.{IsKernel, IsReceived, recv_with_timeout-Quiet}
use umdns.Socket.{recv_with_timeout}
use umdns.System.Laws.{Post}
use umdns.System.Resources.{IsSame-refl, Quiet, Quiet-pure, Quiet-bind, Quiet-run_outcome, IsSame}
use umdns.System.{Kernel, Received, Sys, pure, run_outcome}
use umdns.Text.{Bytes}
use umdns.Wire.{IsByte}

-- The rows fit the array of the client, and each fits its struct.
abbrev pub IsFit : List Result → Type 0
IsFit rows = AreResults max_results rows

abbrev OptionFits : ℕ → Option (List Result) → Type 0
OptionFits room none = Unit {0}
OptionFits room (some rows) = AreResults room rows

rows_of-IsFit :
    (rows : List Result) (o : Option (List Result))
    → IsFit rows
    → OptionFits (max_results - length rows) o
    → IsFit (rows ++ rows_of o)
rows_of-IsFit rows none h r = rw append-nil h
rows_of-IsFit rows (some more) h r =
    (omega (arith, length-append rows more, h.0, r.0), All-append _ rows more h.1 r.1)

module _ (k : Kernel) (good : IsKernel k) where
  add_answers-Quiet :
      (rows : List Result) (bytes : Bytes)
      → IsFit rows
      → All IsByte bytes
      → Quiet IsFit (add_answers k rows bytes)
  add_answers-Quiet rows [] h a = Quiet-pure IsFit rows h
  add_answers-Quiet rows (b ∷ bs) h a =
      let room = max_results - length rows in
      Quiet-bind (OptionFits room) IsFit (run_outcome (parse_answers k.inet (b ∷ bs) room))
        (λ more. pure (rows ++ rows_of more))
        (Quiet-run_outcome (AreResults room) (OptionFits room) (parse_answers k.inet (b ∷ bs) room)
          (parse_answers-Results k.inet (b ∷ bs) a room) (λ rs r. r) tt)
        (λ more r. Quiet-pure IsFit (rows ++ rows_of more) (rows_of-IsFit rows more h r))

  add_received-Quiet :
      (rows : List Result) (m : Option Received)
      → IsFit rows
      → IsReceived packet_size m
      → Quiet IsFit (add_received k rows m)
  add_received-Quiet rows none h r = Quiet-pure IsFit rows h
  add_received-Quiet rows (some m) h r = add_answers-Quiet rows m.bytes h r.1

  client_receive-Quiet :
      (slice : ℕ) (fd : Option ℕ) (rows : List Result)
      → IsFit rows
      → Quiet IsFit (client_receive k slice fd rows)
  unfolding client_receive
  client_receive-Quiet slice none rows h = Quiet-pure IsFit rows h
  client_receive-Quiet slice (some fd) rows h =
      Quiet-bind (IsReceived packet_size) IsFit (recv_with_timeout k fd packet_size slice)
        (add_received k rows) (recv_with_timeout-Quiet k good fd packet_size slice)
        (λ m r. add_received-Quiet rows m h r)

  Quiet-if :
      (b : Bool) (m n : Sys (List Result))
      → Quiet IsFit m
      → Quiet IsFit n
      → Quiet IsFit (if b then m else n)
  Quiet-if true m n h g = h
  Quiet-if false m n h g = g

  client_round-Quiet :
      (l : Listeners) (slice : ℕ) (rows : List Result)
      → IsFit rows
      → Quiet IsFit (client_round k l slice rows)
  unfolding client_round
  client_round-Quiet l slice rows h =
      Quiet-bind IsFit IsFit (client_receive k slice l.fd4 rows) _
        (client_receive-Quiet slice l.fd4 rows h)
        (λ rows' h'.
          Quiet-if (ltb (length rows') max_results) (client_receive k slice l.fd6 rows')
            (pure rows') (client_receive-Quiet slice l.fd6 rows' h') (Quiet-pure IsFit rows' h'))

  -- As many rounds as there are milliseconds are enough.
  pub client_loop-Quiet :
      (fuel : ℕ) (l : Listeners) (timeout_ms : ℕ) (rows : List Result)
      → timeout_ms ≤ fuel
      → IsFit rows
      → Quiet IsFit (client_loop k fuel l timeout_ms rows)
  unfolding client_loop
  client_loop-Quiet zero l t rows f h w =
      let over : waits t rows ≡ false = ground arith in rw over (h, IsSame-refl w)
  client_loop-Quiet (suc n) l t rows f h w =
      if_lem (Post (λ rs w'. IsFit rs × IsSame w w')) (waits t rows) _ (pure rows w)
        (λ more.
          Quiet-bind IsFit IsFit (client_round k l (client_slice t) rows)
            (λ rows'. client_loop k n l (t - client_slice t) rows')
            (client_round-Quiet l (client_slice t) rows h)
            (λ rows' h'. client_loop-Quiet n l (t - client_slice t) rows' (ground (arith, more)) h')
            w)
        (λ done. (h, IsSame-refl w))
