-- ===== src/Server/Services.antt =====
-- `handle_question` of src/server/main.c on a question for a type of service.
use umdns.Server.Host.{deliver_lem}
use umdns.Response.Safety.{build_response_service_enum-Ensures}
use umdns.Answers.Record.{result_of}
use umdns.Answers.RoundTrip.{rrs_bytes}
use umdns.Response.ServiceReply.{
  parse_answers-build_response_service, service_records, IsSendableService,
}
use umdns.Config.{ServerConfig}
use umdns.Inet.{IsInet, Inet}
use umdns.Answers.{parse_answers}
use umdns.Query.RoundTrip.{message}
use umdns.Response.{build_response_service_enum, build_response_service}
use umdns.Server.Safety.{IsReaction, react_typed-Ensures, built-Ensures}
use umdns.Wire.{Writer}
use umdns.Name.{max_name}
use umdns.Server.Answer.{Completes, react_typed-Completes, built_or-Completes}
use umdns.Message.{rr_ptr, Service, Question}
use umdns.Text.{Bytes, Text}
use umdns.Server.{
  ServerConfig, Inet, Bytes, response_size, service, name_matches, built, server_local_name,
  Reaction, react_services, react_named, react_typed, asks_enum, service_enum, no_response, deliver,
  handle_question, react,
}
use umdns.Outcome.{Outcome, ok, err, fault, stuck, ◌>>=◌, Ensures, Ensures-if}
use umdns.Prelude.{
  sym, leb, length, take, Bool-cases, ℕ, ◌+◌, ◌≤◌, ◌≡◌, refl, ap, ◌∙◌, inl, inr, Bool, true, false,
  not, ◌&&◌, Option, none, some, List, [], ◌∷◌, ◌++◌, map, arith, if◌then◌else◌,
}

-- The service has the type that is asked for, and its names fit their arrays.
abbrev pub has_type : Text → Service → Bool
has_type name svc = elim svc.type [
  | [] ↦ false
  | c ∷ cs ↦
      (let type_fqdn = server_local_name (c ∷ cs) max_name in
        not (leb max_name (length (svc.instance ++ (b'.' ∷ type_fqdn))))
        && name_matches name type_fqdn)
]

-- The last service of the type.
abbrev pub last_of_type : Text → List Service → Option Service
last_of_type name [] = none
last_of_type name (s ∷ ss) = elim (last_of_type name ss) [
  | none ↦ if has_type name s then some s else none
  | some t ↦ some t
]

completed :
    {A : Type 0} (P : A → Type 0) (o : Outcome A)
    → Ensures P o
    → Completes o
    → (a : A) × (o ≡ ok a) × P a
completed P (ok a) h c = (a, refl, h)
completed P err h c = absurd c
completed P fault h c = absurd h
completed P stuck h c = absurd h

bind_ok : {A : Type 0} (m : Outcome A) → (m >>= λ a. ok a) ≡ m
bind_ok (ok a) = refl
bind_ok err = refl
bind_ok fault = refl
bind_ok stuck = refl

react_typed-pointer :
    (name : Text) (svc : Service) (r : Reaction)
    → react_typed (record { name = name; qtype = rr_ptr }) svc svc.type r ≡ (
        if has_type name svc
        then built service (build_response_service (some svc) response_size)
        else ok r)
unfolding react_typed react_named
react_typed-pointer name svc r = go svc.type
  where
    go :
        (type : Text)
        → react_typed (record { name = name; qtype = rr_ptr }) svc type r ≡ (
            if elim type [
              | [] ↦ false
              | c ∷ cs ↦
                  (let type_fqdn = server_local_name (c ∷ cs) max_name in
                    not (leb max_name (length (svc.instance ++ (b'.' ∷ type_fqdn))))
                    && name_matches name type_fqdn)
            ]
            then built service (build_response_service (some svc) response_size)
            else ok r)
    go [] = refl
    go (c ∷ cs) =
        let type_fqdn = server_local_name (c ∷ cs) max_name in
        let long = leb max_name (length (svc.instance ++ (b'.' ∷ type_fqdn))) in
        elim (Bool-cases long) [
          | inl yes_long ↦ rw yes_long refl
          | inr not_long ↦ elim (Bool-cases (name_matches name type_fqdn)) [
            | inl same ↦ rw (not_long, same) (bind_ok _)
            | inr other ↦ rw (not_long, other) refl
          ]
        ]

module _ (name : Text) where
  abbrev q : Question
  q = record { name = name; qtype = rr_ptr }

  -- No service of the type changes the response.
  react_services-none :
      (services : List Service) (r : Reaction)
      → last_of_type name services ≡ none
      → react_services q services r ≡ ok r
  unfolding react_services
  react_services-none [] r e = refl
  react_services-none (s ∷ ss) r e =
      go (last_of_type name ss) (has_type name s) refl refl e (λ n. react_services-none ss r n)
    where
      go :
          (o : Option Service) (b : Bool)
          → last_of_type name ss ≡ o
          → has_type name s ≡ b
          → elim o [ none ↦ if b then some s else none | some t ↦ some t ] ≡ none
          → (last_of_type name ss ≡ none → react_services q ss r ≡ ok r)
          → (react_typed q s s.type r >>= react_services q ss) ≡ ok r
      go none true o b h rest = absurd cc
      go none false o b h rest = rw (react_typed-pointer name s r, b) (rest o)
      go (some t) c o b h rest = absurd cc

  react_services-last :
      (services : List Service) (r : Reaction) (svc : Service) (w : Writer)
      → IsReaction r
      → last_of_type name services ≡ some svc
      → build_response_service (some svc) response_size ≡ ok w
      → react_services q services r ≡ ok (record { response = message w; kind = service })
  unfolding react_services
  react_services-last [] r svc w h e b = absurd cc
  react_services-last (s ∷ ss) r svc w h e b =
      go (last_of_type name ss) (has_type name s) refl refl e
        (λ r0 fits later. react_services-last ss r0 svc w fits later b)
    where
      answer : Reaction
      answer = record { response = message w; kind = service }

      go :
          (o : Option Service) (c : Bool)
          → last_of_type name ss ≡ o
          → has_type name s ≡ c
          → elim o [ none ↦ if c then some s else none | some t ↦ some t ] ≡ some svc
          → ((r0 : Reaction)
              → IsReaction r0
              → last_of_type name ss ≡ some svc
              → react_services q ss r0 ≡ ok answer)
          → (react_typed q s s.type r >>= react_services q ss) ≡ ok answer
      go none true o c f rest =
          let one : s ≡ svc = cc in
          rw (react_typed-pointer name s r, c, one, b) (react_services-none ss answer o)
      go none false o c f rest = absurd cc
      go (some t) c o d f rest =
          let (r0, typed, fits) =
            completed IsReaction (react_typed q s s.type r) (react_typed-Ensures q s s.type r h)
              (react_typed-Completes q s s.type r) in
          rw typed (rest r0 fits (o ∙ f))

-- A response of which the client reads a row is not empty.
deliver-rows :
    (send : Bytes → Bool) (net : Inet) (svc : Service) (m : Bytes)
    → parse_answers net m 1 ≡ ok (take 1 (map (result_of net) (service_records svc)))
    → deliver send m ≡ record { sent = if send m then some m else none; success = send m }
unfolding parse_answers
deliver-rows send net svc [] p = absurd cc
deliver-rows send net svc (b ∷ bs) p = deliver_lem send b bs

-- A client asks for the services of a type. If the configuration has such a service, the last of them whose
-- names fit is answered, provided its names can be sent and its records fit the array: one response is
-- sent, 0 is returned exactly if that succeeds, and the client reads from the response the rows of that
-- service, and of no other.
pub handle_question-service :
    (send : Bytes → Bool) (net : Inet) (config : ServerConfig) (name : Text) (svc : Service)
    → (max_rows : ℕ) → IsInet net
    → last_of_type name config.services ≡ some svc
    → IsSendableService svc
    → 12 + length (rrs_bytes (service_records svc)) ≤ response_size
    → (m : Bytes) × (handle_question send net config (record { name = name; qtype = rr_ptr })
        ≡ ok (record { sent = if send m then some m else none; success = send m }))
      × (parse_answers net m max_rows
          ≡ ok (take max_rows (map (result_of net) (service_records svc))))
unfolding handle_question react
handle_question-service send net config name svc max_rows inet last sendable room =
    let (w, built, rows) =
      parse_answers-build_response_service net svc response_size max_rows sendable room in
    let (v, again, first_row) =
      parse_answers-build_response_service net svc response_size 1 sendable room in
    let one : v ≡ w = cc in
    let (r, first, fits) = before_services in
    (
      message w,
      rw (first, react_services-last name config.services r svc w fits last built)
          (ap ok (deliver-rows send net svc (message w) (rw (sym one) first_row))),
      rows,
    )
  where
    q : Question
    q = record { name = name; qtype = rr_ptr }

    before_services :
        (r : Reaction) × ((if asks_enum q
            then built service_enum (build_response_service_enum config.services response_size)
            else ok (record { response = []; kind = no_response }))
          ≡ ok r)
        × IsReaction r
    before_services =
        completed IsReaction _
          (Ensures-if IsReaction (asks_enum q) _ (ok (record { response = []; kind = no_response }))
            (λ e.
              built-Ensures service_enum _
                (build_response_service_enum-Ensures response_size config.services))
            (λ e. omega arith))
          (built_or-Completes (asks_enum q) service_enum _
            (record { response = []; kind = no_response }))
