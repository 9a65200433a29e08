-- ===== src/Server/Run.antt =====
-- The main loop of src/server/main.c on any kernel.
use umdns.Config.{ServerConfig}
use umdns.Message.{Question}
use umdns.Prelude.{
  if_lem, length, All, ℕ, zero, suc, ◌+◌, ◌≤◌, ◌≡◌, refl, true, Option, none, some, [], ◌∷◌, arith,
  if◌then◌else◌,
}
use umdns.Program.{Listeners, packet_size}
use umdns.Query.Safety.{parse_question-Ensures}
use umdns.Query.{parse_question}
use umdns.Server.Discovery.{apply_runtime_identity, identified}
use umdns.Server.Main.{
  respond, respond_with, answer_question, answer_parsed, answer_bytes, answer_received, serve,
  server_loop,
}
use umdns.Server.Safety.{IsReaction, react-Ensures}
use umdns.Server.{Reaction, react}
use umdns.Signal.Laws.{IsSignalled, IsLook, should_terminate-IsLook}
use umdns.Signal.{should_terminate}
use umdns.Socket.Messages.{IsKernel, IsReceived, send_response-Quiet, recv_with_timeout-Quiet}
use umdns.Socket.{recv_with_timeout}
use umdns.System.Laws.{Post, Post-bind, Post-weaken}
use umdns.System.Resources.{
  IsFlagged, IsSame, IsSame-trans, Quiet, Quiet-pure, Quiet-bind, Quiet-event, Quiet-run_outcome,
}
use umdns.System.{
  Kernel, World, Sys, Received, pure, stalled, run_outcome, record_event, gethostname, getifaddrs,
  ◌>>=◌, ◌>>◌,
}
use umdns.Text.{Bytes, Text}
use umdns.Wire.{IsByte}

abbrev Any : {A : Type 0} → A → Type 0
Any a = Unit {0}

module _ (k : Kernel) (good : IsKernel k) where
  respond-Quiet : (fd : ℕ) (src m : Bytes) → Quiet Any (respond k fd src m)
  respond-Quiet fd src [] = Quiet-pure Any true tt
  respond-Quiet fd src (b ∷ bs) = send_response-Quiet k fd src (b ∷ bs)

  respond_with-Quiet :
      (fd : ℕ) (src : Bytes) (r : Option Reaction) → Quiet Any (respond_with k fd src r)
  respond_with-Quiet fd src none = Quiet-pure Any true tt
  respond_with-Quiet fd src (some r) = respond-Quiet fd src r.response

  pub answer_question-Quiet :
      (fd : ℕ) (src : Bytes) (config : ServerConfig) (q : Question)
      → Quiet Any (answer_question k fd src config q)
  unfolding answer_question
  answer_question-Quiet fd src config q =
      Quiet-bind Any Any (run_outcome (react k.inet config q)) (respond_with k fd src)
        (Quiet-run_outcome IsReaction Any (react k.inet config q)
          (react-Ensures k.inet config q good.converts) (λ r h. tt) tt)
        (λ r u. respond_with-Quiet fd src r)

  answer_parsed-Quiet :
      (fd : ℕ) (src : Bytes) (config : ServerConfig) (q : Option Question)
      → Quiet Any (answer_parsed k fd src config q)
  answer_parsed-Quiet fd src config none = Quiet-pure {A = Unit {0}} Any tt tt
  answer_parsed-Quiet fd src config (some q) =
      Quiet-bind Any Any (answer_question k fd src config q) (λ _. pure tt)
        (answer_question-Quiet fd src config q) (λ b u. Quiet-pure {A = Unit {0}} Any tt tt)

  answer_bytes-Quiet :
      (fd : ℕ) (src : Bytes) (config : ServerConfig) (m : Bytes)
      → All IsByte m
      → Quiet Any (answer_bytes k fd src config m)
  answer_bytes-Quiet fd src config [] a = Quiet-pure {A = Unit {0}} Any tt tt
  answer_bytes-Quiet fd src config (b ∷ bs) a =
      Quiet-bind Any Any (run_outcome (parse_question (b ∷ bs))) (answer_parsed k fd src config)
        (Quiet-run_outcome _ Any (parse_question (b ∷ bs)) (parse_question-Ensures (b ∷ bs) a)
          (λ q h. tt) tt)
        (λ q u. answer_parsed-Quiet fd src config q)

  answer_received-Quiet :
      (fd : ℕ) (config : ServerConfig) (m : Option Received)
      → IsReceived packet_size m
      → Quiet Any (answer_received k fd config m)
  answer_received-Quiet fd config none r = Quiet-pure {A = Unit {0}} Any tt tt
  answer_received-Quiet fd config (some m) r = answer_bytes-Quiet fd m.src config m.bytes r.1

  serve-Quiet : (config : ServerConfig) (fd : Option ℕ) → Quiet Any (serve k config fd)
  unfolding serve
  serve-Quiet config none = Quiet-pure {A = Unit {0}} Any tt tt
  serve-Quiet config (some fd) =
      Quiet-bind (IsReceived packet_size) Any (recv_with_timeout k fd packet_size 250)
        (answer_received k fd config) (recv_with_timeout-Quiet k good fd packet_size 250)
        (λ m r. answer_received-Quiet fd config m r)

  -- A look at the flag uses up the fuel of a round.
  pub server_loop-Quiet :
      (n fuel : ℕ) (config : ServerConfig) (l : Listeners) (w : World)
      → IsSignalled k n
      → IsFlagged w
      → n ≤ fuel + length w.history
      → Post (λ u w'. Any u × IsSame w w') (server_loop k fuel config l w)
  unfolding server_loop
  server_loop-Quiet n zero config l w s flag enough =
      Post-bind (IsLook k w) (λ u w'. Any u × IsSame w w') (should_terminate k w)
        (λ stop. if stop then pure tt else (λ w. stalled)) (should_terminate-IsLook k w)
        (λ stop v look.
          let set : stop ≡ true = look.seen flag (s w.history (omega (arith, enough))) in
          rw set (tt, look.same))
  server_loop-Quiet n (suc fuel) config l w s flag enough =
      let rest = server_loop k fuel config l in
      let round = serve k config l.fd4 >> (serve k config l.fd6 >> rest) in
      let Done = λ (u : Unit {0}) (w' : World). Any u × IsSame w w' in
      Post-bind (IsLook k w) Done (should_terminate k w) (λ stop. if stop then pure tt else round)
        (should_terminate-IsLook k w)
        (λ stop v look.
          if_lem (λ (m : Sys (Unit {0})). Post Done (m v)) stop (pure tt) round
            (λ e. (tt, look.same))
            (λ e.
              Post-bind (λ u v'. Any u × IsSame v v') Done (serve k config l.fd4 v)
                (λ _. serve k config l.fd6 >> rest) (serve-Quiet config l.fd4 v)
                (λ _ v1 s1.
                  Post-bind (λ u v'. Any u × IsSame v1 v') Done (serve k config l.fd6 v1)
                    (λ _. rest) (serve-Quiet config l.fd6 v1)
                    (λ _ v2 s2.
                      let same = IsSame-trans w v v2 look.same (IsSame-trans v v1 v2 s1.1 s2.1) in
                      Post-weaken (λ u w'. Any u × IsSame v2 w') Done (rest v2)
                        (server_loop-Quiet n fuel config l v2 s (same.flagged flag)
                          (omega (arith, enough, look.looked, s1.1.later, s2.1.later)))
                        (λ u t q. (tt, IsSame-trans w v2 t same q.1))))))

  pub apply_runtime_identity-Quiet :
      (name : Text) (config : ServerConfig) → Quiet Any (apply_runtime_identity k name config)
  unfolding apply_runtime_identity
  apply_runtime_identity-Quiet name config =
      Quiet-bind Any Any (record_event (λ h. k.gethostname_answer h 255) gethostname)
        (λ host. record_event k.getifaddrs_answer getifaddrs >>= λ interfaces.
          pure (identified k.inet name host interfaces config))
        (Quiet-event Any (λ h. k.gethostname_answer h 255) gethostname (λ h. tt) (λ a h. refl)
          (λ a h. refl) (λ a h. refl) (λ a h. refl))
        (λ host u.
          Quiet-bind Any Any (record_event k.getifaddrs_answer getifaddrs)
            (λ interfaces. pure (identified k.inet name host interfaces config))
            (Quiet-event Any k.getifaddrs_answer getifaddrs (λ h. tt) (λ a h. refl) (λ a h. refl)
              (λ a h. refl) (λ a h. refl))
            (λ interfaces u. Quiet-pure Any (identified k.inet name host interfaces config) tt))
