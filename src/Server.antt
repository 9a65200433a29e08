-- ===== src/Server.antt =====
-- The server's answer to a question: `handle_question` of src/server/main.c with its helpers. The log
-- lines are left out; sending is the argument `send`, true where `umdns_socket_send_response` returns 0.
pub mod Discovery
pub mod Main
pub mod Addresses
pub mod Run
pub mod End
pub mod Answer
pub mod Exchange
pub mod Services
pub mod Host
pub mod Safety
use umdns.Config.{ServerConfig}
use umdns.Inet.{Inet}
use umdns.Message.{rr_a, rr_ptr, rr_txt, rr_aaaa, rr_srv, Question, Service}
use umdns.Name.{max_name}
use umdns.Outcome.{Outcome, ok, attempt, ◌>>=◌}
use umdns.Prelude.{
  ◌==◌, leb, length, take, drop, ℕ, ◌-◌, Bool, true, false, ◌&&◌, ◌||◌, Option, none, some, List,
  [], ◌∷◌, ◌++◌, if◌then◌else◌,
}
use umdns.Response.{
  enum_name, build_response_hostname, build_response_service, build_response_service_enum,
}
use umdns.Text.{Bytes, Text, codes, dot_local, snprintf, text_case_eq}
use umdns.Wire.{Writer}

-- `name_matches`.
unfoldable pub name_matches : Text → Text → Bool
name_matches left right = text_case_eq left right

-- `normalize_local_name` of the server, which has its own.
unfoldable pub server_local_name : Text → ℕ → Text
server_local_name [] output_len = snprintf output_len (codes "localhost.local")
server_local_name (c ∷ cs) output_len =
    if leb 6 (length (c ∷ cs)) && text_case_eq (drop (length (c ∷ cs) - 6) (c ∷ cs)) dot_local
    then snprintf output_len (c ∷ cs)
    else snprintf output_len ((c ∷ cs) ++ dot_local)

-- `sizeof(response)`.
abbrev pub response_size : ℕ
response_size = 1500

pub data ResponseKind : Type 0 where
  no_response hostname service_enum service : ResponseKind

-- `response` up to `response_len`, and `response_kind`.
pub record Reaction : Type 0 where
  pub response : Bytes
  pub kind : ResponseKind

-- A builder that returns 0 leaves no bytes to send.
abbrev pub reaction_of : ResponseKind → Option Writer → Reaction
reaction_of kind none = record { response = []; kind = kind }
reaction_of kind (some w) = record { response = take w.offset w.out; kind = kind }

abbrev pub built : ResponseKind → Outcome Writer → Outcome Reaction
built kind m = attempt m >>= λ w. ok (reaction_of kind w)

-- The question is for the host, and of a type that the host answers.
abbrev pub asks_host : Question → Text → Bool
asks_host q host_fqdn =
    (q.qtype == rr_a || q.qtype == rr_aaaa || q.qtype == rr_txt || q.qtype == 255)
    && name_matches q.name host_fqdn

abbrev pub asks_enum : Question → Bool
asks_enum q = q.qtype == rr_ptr && name_matches q.name enum_name

abbrev pub asks_type : Question → Text → Bool
asks_type q type_fqdn = q.qtype == rr_ptr && name_matches q.name type_fqdn

abbrev pub asks_instance : Question → Text → Bool
asks_instance q instance_fqdn =
    (q.qtype == rr_srv || q.qtype == rr_txt || q.qtype == 255) && name_matches q.name instance_fqdn

-- The two tests of a round, each of which builds the response anew.
unfoldable pub react_named : Question → Service → Text → Text → Reaction → Outcome Reaction
react_named q svc type_fqdn instance_fqdn r =
    (if asks_type q type_fqdn
      then built service (build_response_service (some svc) response_size)
      else ok r)
    >>= λ r.
        if asks_instance q instance_fqdn
        then built service (build_response_service (some svc) response_size)
        else ok r

-- One round of the loop over the services, on the service's type.
unfoldable pub react_typed : Question → Service → Text → Reaction → Outcome Reaction
react_typed q svc [] r = ok r
react_typed q svc (c ∷ cs) r =
    let type_fqdn = server_local_name (c ∷ cs) max_name in
    let instance_fqdn = svc.instance ++ (b'.' ∷ type_fqdn) in
    if leb max_name (length instance_fqdn)
    then ok r
    else react_named q svc type_fqdn instance_fqdn r

unfoldable pub react_services : Question → List Service → Reaction → Outcome Reaction
react_services q [] r = ok r
react_services q (svc ∷ rest) r = react_typed q svc svc.type r >>= react_services q rest

-- The response of `handle_question`.
unfoldable pub react : Inet → ServerConfig → Question → Outcome Reaction
react net config q =
    (if asks_host q (server_local_name config.hostname max_name)
      then built hostname (
          build_response_hostname net (some config.hostname) (some config.ipv4) (some config.ipv6)
            (some config.host_txt) response_size)
      else ok (record { response = []; kind = no_response }))
    >>= λ r.
        (if asks_enum q
          then built service_enum (build_response_service_enum config.services response_size)
          else ok r)
        >>= react_services q config.services

-- What went out, and whether the function returns 0.
pub record Handled : Type 0 where
  pub sent : Option Bytes
  pub success : Bool

abbrev pub deliver : (Bytes → Bool) → Bytes → Handled
deliver send [] = record { sent = none; success = true }
deliver send (b ∷ bs) =
    if send (b ∷ bs)
    then record { sent = some (b ∷ bs); success = true }
    else record { sent = none; success = false }

-- `handle_question`.
unfoldable pub handle_question : (Bytes → Bool) → Inet → ServerConfig → Question → Outcome Handled
handle_question send net config q = react net config q >>= λ r. ok (deliver send r.response)
