-- ===== src/Client/Silent.antt =====
-- `main` of src/client/main.c where no message comes.
use umdns.Response.Safety.{build_query-Ensures}
use umdns.Wire.Room.{InRoom}
use umdns.Query.{build_query}
use umdns.System.Laws.{Post-run_outcome, Post-weaken, Post-bind, Post}
use umdns.Options.{accepted}
use umdns.Socket.Resources.{descriptors}
use umdns.Wire.{Writer}
use umdns.Log.{null}
use umdns.Options.Client.{parse_client_args, ClientOptions}
use umdns.Text.{Text}
use umdns.System.Resources.{
  IsSame-trans, IsSame, IsSame-refl, last_printed, Quiet-pure, Quiet-bind, Quiet,
}
use umdns.Program.{with_listeners, send_if, packet_size, Listeners}
use umdns.Program.Resources.{
  InProgram-IsSame, send_if-Quiet, with_listeners-Ends, with_log-Ends, finish_program-IsClean, Ends,
  InProgram, Said,
}
use umdns.Socket.{receive_if, recv_with_timeout}
use umdns.System.{
  poll_in, Polled, ◌>>=◌, ipv6, ipv4, run_outcome, pure, gethostname, poll, poll_nothing, World,
  History, Kernel, poll_failed, poll_other,
}
use umdns.Message.{Result}
use umdns.Client.{
  with_listeners, query_type, ipv6, ipv4, build_query, send_if, run_outcome, client_slice, pure,
  gethostname, accepted, parse_client_args, add_received, packet_size, Writer, waits, report,
  ClientOptions, query_and_report, ask, Text, Listeners, run_client, recv_with_timeout,
  client_round, client_receive, client_loop, client_main,
}
use umdns.Prelude.{
  if_lem, take, ℕ, zero, suc, ◌-◌, ◌*◌, ◌≤◌, ◌≡◌, refl, ◌∙◌, false, Option, none, some, List, [],
  ◌∷◌, ◌++◌, arith,
}

-- No message ever comes: where `poll` has one announced, `recvfrom` gives none.
abbrev pub IsSilent : Kernel → Type 0
IsSilent k =
    (h : History) (fd timeout_ms n : ℕ)
    → k.poll_answer h fd timeout_ms ≡ poll_in
    → k.recvfrom_answer (poll fd timeout_ms poll_in ∷ h) fd n ≡ none

abbrev IsEmpty : List Result → Type 0
IsEmpty rows = rows ≡ []

-- The failure, with nothing printed.
abbrev pub SaysNothing : Option (List Result) → ℕ → Option (List Result) → Type 0
SaysNothing before status printed = (status ≡ 1) × (printed ≡ before)

module _ (k : Kernel) (silent : IsSilent k) where
  receive-silent :
      (fd n timeout_ms : ℕ) → Quiet (λ m. m ≡ none) (recv_with_timeout k fd n timeout_ms)
  unfolding recv_with_timeout
  receive-silent fd n timeout_ms w = go (k.poll_answer w.history fd timeout_ms) refl
    where
      asked : Polled → World
      asked p = record w { history = poll fd timeout_ms p ∷ w.history }

      same : (p : Polled) → IsSame w (asked p)
      same p = record {
        fds = refl;
        files = refl;
        logger = refl;
        printed = refl;
        later = omega arith;
        flagged = λ f. f;
      }

      go :
          (p : Polled)
          → k.poll_answer w.history fd timeout_ms ≡ p
          → Post (λ m w'. (m ≡ none) × IsSame w w') (receive_if k fd n p (asked p))
      go poll_failed e = (refl, same poll_failed)
      go poll_nothing e = (refl, same poll_nothing)
      go poll_other e = (refl, same poll_other)
      go poll_in e = (
        silent w.history fd timeout_ms n e,
        record {
          fds = refl;
          files = refl;
          logger = refl;
          printed = refl;
          later = omega arith;
          flagged = λ f. f;
        },
      )

  client_receive-silent : (slice : ℕ) (fd : Option ℕ) → Quiet IsEmpty (client_receive k slice fd [])
  unfolding client_receive
  client_receive-silent slice none = Quiet-pure IsEmpty [] refl
  client_receive-silent slice (some fd) =
      Quiet-bind (λ m. m ≡ none) IsEmpty (recv_with_timeout k fd packet_size slice)
        (add_received k []) (receive-silent fd packet_size slice)
        (λ m e. rw e (Quiet-pure IsEmpty [] refl))

  client_round-silent : (l : Listeners) (slice : ℕ) → Quiet IsEmpty (client_round k l slice [])
  unfolding client_round
  client_round-silent l slice =
      Quiet-bind IsEmpty IsEmpty (client_receive k slice l.fd4 []) _
        (client_receive-silent slice l.fd4) (λ rows e. rw e (client_receive-silent slice l.fd6))

  client_loop-silent :
      (fuel : ℕ) (l : Listeners) (timeout_ms : ℕ)
      → timeout_ms ≤ fuel
      → Quiet IsEmpty (client_loop k fuel l timeout_ms [])
  unfolding client_loop
  client_loop-silent zero l t f w =
      let over : waits t [] ≡ false = ground arith in rw over (refl, IsSame-refl w)
  client_loop-silent (suc n) l t f w =
      if_lem (Post (λ rs w'. IsEmpty rs × IsSame w w')) (waits t []) _ (pure [] w)
        (λ more.
          Quiet-bind IsEmpty IsEmpty (client_round k l (client_slice t) [])
            (λ rows'. client_loop k n l (t - client_slice t) rows')
            (client_round-silent l (client_slice t))
            (λ rows' e. rw e (client_loop-silent n l (t - client_slice t) (ground (arith, more))))
            w)
        (λ done. (refl, IsSame-refl w))

  module _ (w : World) where
    abbrev P : Said
    P = SaysNothing (last_printed w.history)

    ask-silent :
        (o : ClientOptions) (l : Listeners) (q : Option Writer) (v : World)
        → InProgram (descriptors l.fd6 ++ descriptors l.fd4) w v
        → last_printed v.history ≡ last_printed w.history
        → Post (Ends P w) (ask k o l q v)
    unfolding ask report
    ask-silent o l none v h e = finish_program-IsClean k P l 1 w v h (refl, e)
    ask-silent o l (some q) v h e =
        let left = descriptors l.fd6 ++ descriptors l.fd4 in
        let bytes = take q.offset q.out in
        let loop = client_loop k (o.timeout_seconds * 1000) l (o.timeout_seconds * 1000) [] in
        Post-bind (λ u v'. Unit {0} × IsSame v v') (Ends P w) (send_if k ipv4 l.fd4 bytes v)
          (λ _. send_if k ipv6 l.fd6 bytes >>= λ _. loop >>= report k l)
          (send_if-Quiet k ipv4 l.fd4 bytes v)
          (λ _ v1 s1.
            Post-bind (λ u v'. Unit {0} × IsSame v1 v') (Ends P w) (send_if k ipv6 l.fd6 bytes v1)
              (λ _. loop >>= report k l) (send_if-Quiet k ipv6 l.fd6 bytes v1)
              (λ _ v2 s2.
                Post-bind (λ rows v'. IsEmpty rows × IsSame v2 v') (Ends P w) (loop v2) (report k l)
                  (client_loop-silent (o.timeout_seconds * 1000) l (o.timeout_seconds * 1000)
                    (omega arith) v2)
                  (λ rows v3 s3.
                    let same = IsSame-trans v v2 v3 (IsSame-trans v v1 v2 s1.1 s2.1) s3.1 in
                    rw s3.0 (
                      finish_program-IsClean k P l 1 w v3 (InProgram-IsSame left w v v3 h same)
                        (refl, same.printed ∙ e)))))

    query_and_report-silent :
        (o : ClientOptions) (l : Listeners) (v : World)
        → InProgram (descriptors l.fd6 ++ descriptors l.fd4) w v
        → last_printed v.history ≡ last_printed w.history
        → Post (Ends P w) (query_and_report k o l v)
    unfolding query_and_report
    query_and_report-silent o l v h e =
        Post-bind (λ q v'. v' ≡ v) (Ends P w)
          (run_outcome (build_query (query_type o.mode) (some o.target) packet_size) v) (ask k o l)
          (Post-run_outcome (InRoom packet_size) _ (λ q v'. v' ≡ v) v
            (build_query-Ensures packet_size (query_type o.mode) (some o.target)) (λ q p. refl)
            refl)
          (λ q v' same. rw same (ask-silent o l q v h e))

-- If no message ever comes (where `poll` announces one, `recvfrom` gives none) and the arguments are accepted,
-- the client ends with status 1 and prints no table, whatever else the kernel answers and wherever a call fails,
-- polling and receiving among them; it leaves no descriptor and no file open. It starts without a log stream.
pub client_main-silent :
    (k : Kernel) (args : List Text) (o : ClientOptions) (w : World)
    → IsSilent k
    → w.logger.stream ≡ null
    → parse_client_args (k.gethostname_answer w.history 255) args ≡ accepted o
    → Post (Ends (SaysNothing (last_printed w.history)) w) (client_main k args w)
unfolding client_main run_client
client_main-silent k args o w silent s parsed =
    let host = k.gethostname_answer w.history 255 in
    let v : World = record w { history = gethostname host ∷ w.history } in
    let P = SaysNothing (last_printed w.history) in
    rw parsed (
      Post-weaken (Ends P v) (Ends P w) (run_client k (accepted o) v)
        (with_log-Ends k P o.log_level o.log_file
          (with_listeners k o.interface_name (query_and_report k o)) v (refl, refl)
          (λ u h e.
            with_listeners-Ends k P o.interface_name (query_and_report k o) v u h (refl, e)
              (λ l t g f. query_and_report-silent k silent v o l t g (f ∙ e))))
        (λ status u c. (record { fds = c.0.fds; files = c.0.files; stream = c.0.stream }, c.1)))
