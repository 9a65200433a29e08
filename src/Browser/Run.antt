-- ===== src/Browser/Run.antt =====
-- `receive_responses` and `run_cycle` of src/browser/main.c on any kernel.
use umdns.Answers.Rows.{AreResults, IsResult}
use umdns.Answers.Safety.{parse_answers-Results}
use umdns.Answers.{parse_answers}
use umdns.Browser.Cycle.{
  max_cycle_results, max_types, browser_slice, add_unique, add_message, browser_receive,
  receive_responses, send_both, ask_type, ask_types, cycle_with, run_cycle,
}
use umdns.Browser.Rows.{AreRows, append_results_unique-AreRows}
use umdns.Browser.{append_results_unique, extract_service_types, max_results}
use umdns.Message.{Result, rr_ptr}
use umdns.Prelude.{
  if_lem, ltb, take, All, ℕ, zero, suc, ◌-◌, ◌/◌, ◌≤◌, ◌≡◌, Bool, true, false, Option, none, some,
  List, [], ◌∷◌, arith, if◌then◌else◌,
}
use umdns.Program.Resources.{send_if-Quiet}
use umdns.Program.{Listeners, packet_size, rows_of, send_if}
use umdns.Query.{build_query}
use umdns.Response.Safety.{build_query-Ensures}
use umdns.Response.{enum_name}
use umdns.Signal.Laws.{IsLook, should_terminate-IsLook}
use umdns.Signal.{should_terminate}
use umdns.Socket.Messages.{IsKernel, IsReceived, recv_with_timeout-Quiet}
use umdns.Socket.{recv_with_timeout}
use umdns.System.Laws.{Post, Post-weaken}
use umdns.System.Resources.{Quiet, Quiet-pure, Quiet-bind, Quiet-run_outcome, IsSame, IsSame-refl}
use umdns.System.{Kernel, ipv4, ipv6, Received, Sys, pure, run_outcome, ◌>>=◌}
use umdns.Text.{Bytes, Text}
use umdns.Wire.Room.{InRoom}
use umdns.Wire.{IsByte, Writer}

abbrev CycleFits : Option (List Result) → Type 0
CycleFits none = Unit {0}
CycleFits (some rows) = All IsResult rows

rows_of-All : (o : Option (List Result)) → CycleFits o → All IsResult (rows_of o)
rows_of-All none h = tt
rows_of-All (some rows) h = h

-- A cycle fails, or leaves good rows.
abbrev pub Cycled : Option (List Result) → Type 0
Cycled none = Unit {0}
Cycled (some rows) = AreRows rows

module _ (k : Kernel) (good : IsKernel k) where
  add_unique-Quiet :
      (rows : List Result) (bytes : Bytes)
      → AreRows rows
      → All IsByte bytes
      → Quiet AreRows (add_unique k rows bytes)
  add_unique-Quiet rows [] h a = Quiet-pure AreRows rows h
  add_unique-Quiet rows (b ∷ bs) h a =
      let parsed = parse_answers k.inet (b ∷ bs) max_cycle_results in
      Quiet-bind CycleFits AreRows (run_outcome parsed)
        (λ cycle. pure (append_results_unique rows max_results (rows_of cycle)))
        (Quiet-run_outcome (AreResults max_cycle_results) CycleFits parsed
          (parse_answers-Results k.inet (b ∷ bs) a max_cycle_results) (λ rs r. r.1) tt)
        (λ cycle r.
          Quiet-pure AreRows (append_results_unique rows max_results (rows_of cycle))
            (append_results_unique-AreRows rows (rows_of cycle) h (rows_of-All cycle r)))

  add_message-Quiet :
      (rows : List Result) (m : Option Received)
      → AreRows rows
      → IsReceived packet_size m
      → Quiet AreRows (add_message k rows m)
  add_message-Quiet rows none h r = Quiet-pure AreRows rows h
  add_message-Quiet rows (some m) h r = add_unique-Quiet rows m.bytes h r.1

  browser_receive-Quiet :
      (slice : ℕ) (fd : Option ℕ) (rows : List Result)
      → AreRows rows
      → Quiet AreRows (browser_receive k slice fd rows)
  unfolding browser_receive
  browser_receive-Quiet slice none rows h = Quiet-pure AreRows rows h
  browser_receive-Quiet slice (some fd) rows h =
      Quiet-bind (IsReceived packet_size) AreRows (recv_with_timeout k fd packet_size slice)
        (add_message k rows) (recv_with_timeout-Quiet k good fd packet_size slice)
        (λ m r. add_message-Quiet rows m h r)

  should_terminate-Quiet : Quiet (λ b. Unit {0}) (should_terminate k)
  should_terminate-Quiet w =
      Post-weaken (IsLook k w) (λ b w'. Unit {0} × IsSame w w') (should_terminate k w)
        (should_terminate-IsLook k w) (λ b w' h. (tt, h.same))

  Quiet-if :
      {A : Type 0} (P : A → Type 0) (b : Bool) (m n : Sys A)
      → Quiet P m
      → Quiet P n
      → Quiet P (if b then m else n)
  Quiet-if P true m n h g = h
  Quiet-if P false m n h g = g

  -- As many rounds as there are milliseconds are enough.
  receive_responses-Quiet :
      (fuel : ℕ) (l : Listeners) (remaining : ℕ) (rows : List Result)
      → remaining ≤ fuel
      → AreRows rows
      → Quiet AreRows (receive_responses k fuel l remaining rows)
  unfolding receive_responses
  receive_responses-Quiet zero l t rows f h w =
      let over : ltb 0 t ≡ false = ground arith in rw over (h, IsSame-refl w)
  receive_responses-Quiet (suc n) l t rows f h w =
      let slice = browser_slice t in
      if_lem (Post (λ rs w'. AreRows rs × IsSame w w')) (ltb 0 t) _ (pure rows w)
        (λ more.
          Quiet-bind AreRows AreRows (browser_receive k slice l.fd4 rows)
            (λ rows. browser_receive k slice l.fd6 rows >>= λ rows. should_terminate k >>= λ stop.
              if stop then pure rows else receive_responses k n l (t - slice) rows)
            (browser_receive-Quiet slice l.fd4 rows h)
            (λ rows h.
              Quiet-bind AreRows AreRows (browser_receive k slice l.fd6 rows)
                (λ rows. should_terminate k >>= λ stop.
                  if stop then pure rows else receive_responses k n l (t - slice) rows)
                (browser_receive-Quiet slice l.fd6 rows h)
                (λ rows h.
                  Quiet-bind (λ b. Unit {0}) AreRows (should_terminate k)
                    (λ stop. if stop then pure rows else receive_responses k n l (t - slice) rows)
                    should_terminate-Quiet
                    (λ stop u.
                      Quiet-if AreRows stop (pure rows) (receive_responses k n l (t - slice) rows)
                        (Quiet-pure AreRows rows h)
                        (receive_responses-Quiet n l (t - slice) rows (ground (arith, more)) h))))
            w)
        (λ done. (h, IsSame-refl w))

  send_both-Quiet : (l : Listeners) (q : Writer) → Quiet (λ u. Unit {0}) (send_both k l q)
  send_both-Quiet l q =
      Quiet-bind (λ u. Unit {0}) (λ u. Unit {0}) (send_if k ipv4 l.fd4 (take q.offset q.out))
        (λ _. send_if k ipv6 l.fd6 (take q.offset q.out))
        (send_if-Quiet k ipv4 l.fd4 (take q.offset q.out))
        (λ _ _. send_if-Quiet k ipv6 l.fd6 (take q.offset q.out))

  ask_type-Quiet :
      (l : Listeners) (cycle_ms : ℕ) (rows : List Result) (q : Option Writer)
      → AreRows rows
      → Quiet AreRows (ask_type k l cycle_ms rows q)
  ask_type-Quiet l cycle_ms rows none h = Quiet-pure AreRows rows h
  ask_type-Quiet l cycle_ms rows (some q) h =
      Quiet-bind (λ u. Unit {0}) AreRows (send_both k l q)
        (λ _. receive_responses k (cycle_ms / 2) l (cycle_ms / 2) rows) (send_both-Quiet l q)
        (λ _ _. receive_responses-Quiet (cycle_ms / 2) l (cycle_ms / 2) rows (omega arith) h)

  query-Quiet :
      (name : Text)
      → Quiet (λ q. Unit {0}) (run_outcome (build_query rr_ptr (some name) packet_size))
  query-Quiet name =
      Quiet-run_outcome (InRoom packet_size) (λ q. Unit {0})
        (build_query rr_ptr (some name) packet_size)
        (build_query-Ensures packet_size rr_ptr (some name)) (λ q h. tt) tt

  ask_types-Quiet :
      (l : Listeners) (cycle_ms : ℕ) (types : List Text) (rows : List Result)
      → AreRows rows
      → Quiet AreRows (ask_types k l cycle_ms types rows)
  unfolding ask_types
  ask_types-Quiet l cycle_ms [] rows h = Quiet-pure AreRows rows h
  ask_types-Quiet l cycle_ms (type ∷ types) rows h =
      Quiet-bind (λ q. Unit {0}) AreRows (run_outcome (build_query rr_ptr (some type) packet_size))
        (λ q. ask_type k l cycle_ms rows q >>= ask_types k l cycle_ms types) (query-Quiet type)
        (λ q u.
          Quiet-bind AreRows AreRows (ask_type k l cycle_ms rows q) (ask_types k l cycle_ms types)
            (ask_type-Quiet l cycle_ms rows q h)
            (λ rows h. ask_types-Quiet l cycle_ms types rows h))

  cycle_with-Quiet :
      (l : Listeners) (cycle_ms : ℕ) (rows : List Result) (q : Option Writer)
      → AreRows rows
      → Quiet Cycled (cycle_with k l cycle_ms rows q)
  cycle_with-Quiet l cycle_ms rows none h = Quiet-pure Cycled none tt
  cycle_with-Quiet l cycle_ms rows (some q) h =
      let asks = λ (rows : List Result).
        ask_types k l cycle_ms (extract_service_types rows [] max_types) rows in
      Quiet-bind (λ u. Unit {0}) Cycled (send_both k l q)
        (λ _. receive_responses k cycle_ms l cycle_ms rows >>= λ rows.
          asks rows >>= λ rows. pure (some rows))
        (send_both-Quiet l q)
        (λ _ _.
          Quiet-bind AreRows Cycled (receive_responses k cycle_ms l cycle_ms rows)
            (λ rows. asks rows >>= λ rows. pure (some rows))
            (receive_responses-Quiet cycle_ms l cycle_ms rows (omega arith) h)
            (λ rows h.
              Quiet-bind AreRows Cycled (asks rows) (λ rows. pure (some rows))
                (ask_types-Quiet l cycle_ms (extract_service_types rows [] max_types) rows h)
                (λ rows h. Quiet-pure Cycled (some rows) h)))

  -- A cycle ends, and its rows fit their array and stand there once.
  pub run_cycle-Quiet :
      (l : Listeners) (cycle_ms : ℕ) (rows : List Result)
      → AreRows rows
      → Quiet Cycled (run_cycle k l cycle_ms rows)
  unfolding run_cycle
  run_cycle-Quiet l cycle_ms rows h =
      Quiet-bind (λ q. Unit {0}) Cycled
        (run_outcome (build_query rr_ptr (some enum_name) packet_size))
        (cycle_with k l cycle_ms rows) (query-Quiet enum_name)
        (λ q u. cycle_with-Quiet l cycle_ms rows q h)
