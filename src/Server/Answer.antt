-- ===== src/Server/Answer.antt =====
-- `handle_question` of src/server/main.c: with its calls, and as a function on values.
use umdns.Server.Safety.{react-Ensures, IsReaction}
use umdns.Response.{build_response_service, build_response_service_enum}
use umdns.Name.{max_name}
use umdns.Config.{ServerConfig}
use umdns.Wire.{Writer}
use umdns.Text.{Text, Bytes}
use umdns.Message.{Service, Question}
use umdns.Inet.{IsInet, Inet}
use umdns.System.{and_then, run_outcome, returned, source, sendto, World, History, Kernel}
use umdns.Socket.{send_response}
use umdns.Server.{
  asks_instance, service, no_response, asks_type, hostname, asks_host, deliver, service_enum,
  server_local_name, response_size, asks_enum, built, Reaction, react_named, handle_question, react,
  react_typed, react_services, ResponseKind,
}
use umdns.Server.Main.{respond_with, respond, answer_question}
use umdns.Outcome.{Outcome, ok, err, fault, stuck, ◌>>=◌, Ensures}
use umdns.Prelude.{
  if_lem, leb, length, Bool-cases, ℕ, ◌≤◌, ◌≡◌, refl, inl, inr, Bool, true, false, some, List, [],
  ◌∷◌, ◌++◌, if◌then◌else◌,
}

-- The function has no error return.
abbrev pub Completes : {A : Type 0} → Outcome A → Type 0
Completes (ok a) = Unit {0}
Completes err = ⊥
Completes fault = Unit {0}
Completes stuck = Unit {0}

Completes-bind :
    {A B : Type 0} (m : Outcome A) (f : A → Outcome B)
    → Completes m
    → ((a : A) → Completes (f a))
    → Completes (m >>= f)
Completes-bind (ok a) f h k = k a
Completes-bind fault f h k = tt
Completes-bind stuck f h k = tt
Completes-bind err f h k = absurd h

built-Completes : (kind : ResponseKind) (m : Outcome Writer) → Completes (built kind m)
built-Completes kind (ok w) = tt
built-Completes kind err = tt
built-Completes kind fault = tt
built-Completes kind stuck = tt

pub built_or-Completes :
    (b : Bool) (kind : ResponseKind) (m : Outcome Writer) (r : Reaction)
    → Completes (if b then built kind m else ok r)
built_or-Completes true kind m r = built-Completes kind m
built_or-Completes false kind m r = tt

pub react_typed-Completes :
    (q : Question) (svc : Service) (type : Text) (r : Reaction)
    → Completes (react_typed q svc type r)
unfolding react_typed react_named
react_typed-Completes q svc [] r = tt
react_typed-Completes q svc (c ∷ cs) r =
    let type_fqdn = server_local_name (c ∷ cs) max_name in
    let instance_fqdn = svc.instance ++ (b'.' ∷ type_fqdn) in
    let reply = build_response_service (some svc) response_size in
    if_lem Completes (leb max_name (length instance_fqdn)) (ok r)
      (react_named q svc type_fqdn instance_fqdn r) (λ e. tt)
      (λ e.
        Completes-bind (if asks_type q type_fqdn then built service reply else ok r)
          (λ r. if asks_instance q instance_fqdn then built service reply else ok r)
          (built_or-Completes (asks_type q type_fqdn) service reply r)
          (λ r. built_or-Completes (asks_instance q instance_fqdn) service reply r))

react_services-Completes :
    (q : Question) (services : List Service) (r : Reaction)
    → Completes (react_services q services r)
unfolding react_services
react_services-Completes q [] r = tt
react_services-Completes q (svc ∷ rest) r =
    Completes-bind (react_typed q svc svc.type r) (react_services q rest)
      (react_typed-Completes q svc svc.type r) (react_services-Completes q rest)

react-Completes :
    (net : Inet) (config : ServerConfig) (q : Question) → Completes (react net config q)
unfolding react
react-Completes net config q =
    Completes-bind _
      (λ r.
        (if asks_enum q
          then built service_enum (build_response_service_enum config.services response_size)
          else ok r)
        >>= react_services q config.services)
      (built_or-Completes (asks_host q (server_local_name config.hostname max_name)) hostname _
        (record { response = []; kind = no_response }))
      (λ r.
        Completes-bind _ (react_services q config.services)
          (built_or-Completes (asks_enum q) service_enum _ r)
          (react_services-Completes q config.services))

-- The calls of the sending of a response: none for an empty one.
abbrev pub sent_calls : Kernel → ℕ → Bytes → Bytes → History → History
sent_calls k fd src [] h = h
sent_calls k fd src (b ∷ bs) h =
    sendto fd (source src) (b ∷ bs) (k.sendto_answer h fd (source src) (b ∷ bs)) ∷ h

abbrev pub sends : Kernel → ℕ → Bytes → History → Bytes → Bool
sends k fd src h m = k.sendto_answer h fd (source src) m

pub respond_lem :
    (k : Kernel) (fd : ℕ) (src m : Bytes) (w : World)
    → respond k fd src m w
      ≡ returned
          (deliver (sends k fd src w.history) m).success
          (record w { history = sent_calls k fd src m w.history })
unfolding send_response
respond_lem k fd src [] w = refl
respond_lem k fd src (b ∷ bs) w = elim (Bool-cases (sends k fd src w.history (b ∷ bs))) [
  | inl sent ↦ rw sent refl
  | inr lost ↦ rw lost refl
]

-- On every question and whatever the kernel answers, the handler with its calls runs to its end: it makes
-- the one call that sends the response of `handle_question` back to the source, or no call if the response
-- is empty, and returns what `handle_question` returns if sending succeeds as the kernel says.
pub answer_question-handle_question :
    (k : Kernel) (fd : ℕ) (src : Bytes) (config : ServerConfig) (q : Question) (w : World)
    → IsInet k.inet
    → (m : Bytes) × (length m ≤ response_size)
      × (handle_question (sends k fd src w.history) k.inet config q
          ≡ ok (deliver (sends k fd src w.history) m))
      × (answer_question k fd src config q w
          ≡ returned
              (deliver (sends k fd src w.history) m).success
              (record w { history = sent_calls k fd src m w.history }))
unfolding answer_question handle_question
answer_question-handle_question k fd src config q w inet =
    go (react k.inet config q) (react-Ensures k.inet config q inet)
      (react-Completes k.inet config q)
  where
    go :
        (o : Outcome Reaction)
        → Ensures IsReaction o
        → Completes o
        → (m : Bytes) × (length m ≤ response_size)
          × ((o >>= λ r. ok (deliver (sends k fd src w.history) r.response))
              ≡ ok (deliver (sends k fd src w.history) m))
          × (and_then (run_outcome o w) (respond_with k fd src)
              ≡ returned
                  (deliver (sends k fd src w.history) m).success
                  (record w { history = sent_calls k fd src m w.history }))
    go (ok r) h c = (r.response, h, refl, respond_lem k fd src r.response w)
    go err h c = absurd c
    go fault h c = absurd h
    go stuck h c = absurd h
