-- ===== src/Server/Safety.antt =====
-- `handle_question` of src/server/main.c on any configuration and question.
use umdns.Config.{ServerConfig}
use umdns.Inet.{Inet, IsInet}
use umdns.Message.{Question, Service}
use umdns.Name.{max_name}
use umdns.Outcome.{Outcome, ok, attempt, Ensures, Ensures-bind, Ensures-if, Ensures-attempt}
use umdns.Prelude.{
  leb, length, Bool-cases, length-take, ◌≤◌, ◌≡◌, refl, ◌⊎◌, inl, inr, Bool, true, Option, none,
  some, List, [], ◌∷◌, ◌++◌, arith, if◌then◌else◌,
}
use umdns.Response.Safety.{
  build_response_hostname-Ensures, build_response_service-Ensures,
  build_response_service_enum-Ensures,
}
use umdns.Response.{build_response_service}
use umdns.Server.{
  response_size, ResponseKind, service_enum, service, Reaction, reaction_of, built, asks_host,
  asks_enum, asks_type, asks_instance, react_named, react_typed, react_services, react, Handled,
  deliver, handle_question, server_local_name,
}
use umdns.Text.{Bytes, Text}
use umdns.Wire.Room.{InRoom}
use umdns.Wire.{Writer}

-- The response fits the 1500 bytes of its array.
abbrev pub IsReaction : Reaction → Type 0
IsReaction r = length r.response ≤ response_size

pub built-Ensures :
    (kind : ResponseKind) (m : Outcome Writer)
    → Ensures (InRoom response_size) m
    → Ensures IsReaction (built kind m)
built-Ensures kind m h =
    let Fits = λ (o : Option Writer). IsReaction (reaction_of kind o) in
    Ensures-bind Fits IsReaction (attempt m) (λ w. ok (reaction_of kind w))
      (Ensures-attempt (InRoom response_size) Fits m h
        (λ w k. omega (arith, length-take w.offset w.out, k.inside)) (omega arith))
      (λ o k. k)

react_named-Ensures :
    (q : Question) (svc : Service) (t i : Text) (r : Reaction)
    → IsReaction r
    → Ensures IsReaction (react_named q svc t i r)
unfolding react_named
react_named-Ensures q svc t i r h =
    let builds =
      built-Ensures service (build_response_service (some svc) response_size)
        (build_response_service-Ensures response_size (some svc)) in
    Ensures-bind IsReaction IsReaction
      (if asks_type q t
        then built service (build_response_service (some svc) response_size)
        else ok r)
      (λ r.
        if asks_instance q i
        then built service (build_response_service (some svc) response_size)
        else ok r)
      (Ensures-if IsReaction (asks_type q t) _ _ (λ e. builds) (λ e. h))
      (λ r k. Ensures-if IsReaction (asks_instance q i) _ _ (λ e. builds) (λ e. k))

pub react_typed-Ensures :
    (q : Question) (svc : Service) (type : Text) (r : Reaction)
    → IsReaction r
    → Ensures IsReaction (react_typed q svc type r)
unfolding react_typed
react_typed-Ensures q svc [] r h = h
react_typed-Ensures q svc (c ∷ cs) r h =
    let t = server_local_name (c ∷ cs) max_name in
    let i = svc.instance ++ (b'.' ∷ t) in
    Ensures-if IsReaction (leb max_name (length i)) _ _ (λ e. h)
      (λ e. react_named-Ensures q svc t i r h)

react_services-Ensures :
    (q : Question) (services : List Service) (r : Reaction)
    → IsReaction r
    → Ensures IsReaction (react_services q services r)
unfolding react_services
react_services-Ensures q [] r h = h
react_services-Ensures q (svc ∷ rest) r h =
    Ensures-bind IsReaction IsReaction (react_typed q svc svc.type r) (react_services q rest)
      (react_typed-Ensures q svc svc.type r h) (react_services-Ensures q rest)

pub react-Ensures :
    (net : Inet) (config : ServerConfig) (q : Question)
    → IsInet net
    → Ensures IsReaction (react net config q)
unfolding react
react-Ensures net config q inet =
    let host = server_local_name config.hostname max_name in
    Ensures-bind IsReaction IsReaction _ _
      (Ensures-if IsReaction (asks_host q host) _ _
        (λ e. built-Ensures _ _ (
          build_response_hostname-Ensures response_size net (some config.hostname)
            (some config.ipv4) (some config.ipv6) (some config.host_txt) inet))
        (λ e. omega arith))
      (λ r h.
        Ensures-bind IsReaction IsReaction _ (react_services q config.services)
          (Ensures-if IsReaction (asks_enum q) _ (ok r)
            (λ e.
              built-Ensures service_enum _
                (build_response_service_enum-Ensures response_size config.services))
            (λ e. h))
          (react_services-Ensures q config.services))

-- What is sent, if anything, is not empty and fits the array, and 0 is returned then.
abbrev pub IsHandled : (Bytes → Bool) → Handled → Type 0
IsHandled send h =
    (h.sent ≡ none)
    ⊎ ((m : Bytes) × (h ≡ record { sent = some m; success = true })
        × (send m ≡ true)
        × (1 ≤ length m)
        × (length m ≤ response_size))

deliver-IsHandled :
    (send : Bytes → Bool) (m : Bytes) → length m ≤ response_size → IsHandled send (deliver send m)
deliver-IsHandled send [] h = inl refl
deliver-IsHandled send (b ∷ bs) h = elim (Bool-cases (send (b ∷ bs))) [
  | inl sent ↦ inr (b ∷ bs, rw sent refl, sent, omega arith, h)
  | inr lost ↦ inl (rw lost refl)
]

-- Whatever the configuration and the question are, the handler ends and touches no memory outside of
-- its arrays; it sends nothing, or one response of 1 to 1500 bytes and then returns 0.
pub handle_question-Ensures :
    (send : Bytes → Bool) (net : Inet) (config : ServerConfig) (q : Question)
    → IsInet net
    → Ensures (IsHandled send) (handle_question send net config q)
unfolding handle_question
handle_question-Ensures send net config q inet =
    Ensures-bind IsReaction (IsHandled send) (react net config q)
      (λ r. ok (deliver send r.response)) (react-Ensures net config q inet)
      (λ r h. deliver-IsHandled send r.response h)
