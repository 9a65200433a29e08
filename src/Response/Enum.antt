-- ===== src/Response/Enum.antt =====
-- The answer to a question for the types of the services, from
-- `umdns_mdns_build_response_service_enum` to the rows that the asking side gets.
use umdns.Answers.Record.{Rr, ptr, IsName, IsRr, result_of}
use umdns.Answers.RoundTrip.{rrs_bytes, parse_answers-response_bytes}
use umdns.Answers.{parse_answers}
use umdns.Header.{blank, labels_of}
use umdns.Inet.{Inet}
use umdns.Message.{Service}
use umdns.Name.Labels.{length-encode-join}
use umdns.Name.{max_name, tokens, split_dots}
use umdns.Outcome.{bind_assoc, Outcome, ok, ◌>>=◌, bind_assoc}
use umdns.Prelude.{
  ltb, length, take, All, length-append, le→ltb_false, ℕ, ◌+◌, ◌≤◌, ◌<◌, ◌≡◌, refl, ap, false, some,
  List, [], ◌∷◌, ◌++◌, map, append_assoc, arith, All-append,
}
use umdns.Query.RoundTrip.{message}
use umdns.Response.Identity.{IsSendable, IsSendable-IsName}
use umdns.Response.Messages.{
  Replies, rrs_bytes-append, blank-Replies, counted-Replies, finish-Replies, same-Replies,
}
use umdns.Response.Records.{labels, append_ptr-Appends}
use umdns.Response.{
  Reply, append_ptr, add_service_type, add_service_types, enum_name, build_response_service_enum,
}
use umdns.Text.{Text, normalize_local_name}
use umdns.Wire.{Writer}

-- The record for a service, if it has a type.
abbrev pub type_records : Text → List Rr
type_records [] = []
type_records (c ∷ cs) = record { owner = labels enum_name; rdata = ptr (labels_of (c ∷ cs)) } ∷ []

-- What the server has to say of the types of its services.
abbrev pub enum_records : List Service → List Rr
enum_records [] = []
enum_records (s ∷ ss) = type_records s.type ++ enum_records ss

-- The type can be sent, or is empty.
abbrev pub IsSendableType : Text → Type 0
IsSendableType [] = Unit {0}
IsSendableType (c ∷ cs) = IsSendable (c ∷ cs)

enum_name-IsName : IsName (labels enum_name)
unfolding tokens split_dots
enum_name-IsName = record { tokens = omega arith; short = refl; fits = omega arith }

type_records-All : (type : Text) → IsSendableType type → All IsRr (type_records type)
type_records-All [] h = tt
type_records-All (c ∷ cs) h =
    (record { owner_name = enum_name-IsName; good_data = IsSendable-IsName (c ∷ cs) h }, tt)

enum_records-All :
    (services : List Service)
    → All (λ s. IsSendableType s.type) services
    → All IsRr (enum_records services)
enum_records-All [] h = tt
enum_records-All (s ∷ ss) h =
    All-append _ (type_records s.type) (enum_records ss) (type_records-All s.type h.0)
      (enum_records-All ss h.1)

length-type_records : (type : Text) → length (type_records type) ≤ 1
length-type_records [] = omega arith
length-type_records (c ∷ cs) = omega arith

length-enum_records : (services : List Service) → length (enum_records services) ≤ length services
length-enum_records [] = omega arith
length-enum_records (s ∷ ss) = omega (
  arith,
  length-append (type_records s.type) (enum_records ss),
  length-type_records s.type,
  length-enum_records ss,
)

add_service_type-Replies :
    (out_len : ℕ) (type : Text) (s : Outcome Reply) (rs : List Rr)
    → IsSendableType type
    → length rs + 1 < 65536
    → 12 + length (rrs_bytes (rs ++ type_records type)) ≤ out_len
    → Replies out_len s rs
    → Replies out_len (s >>= add_service_type out_len type) (rs ++ type_records type)
unfolding add_service_type
add_service_type-Replies out_len [] s rs h few room r =
    same-Replies out_len (add_service_type out_len []) s rs (λ r. refl) r
add_service_type-Replies out_len (c ∷ cs) s rs h few room r =
    let type = normalize_local_name (some (c ∷ cs)) max_name in
    counted-Replies out_len (append_ptr out_len enum_name type) s rs
      (record { owner = labels enum_name; rdata = ptr (labels type) })
      (append_ptr-Appends out_len enum_name enum_name-IsName.short type h.short
        (omega (arith, length-encode-join (labels type), (IsSendable-IsName (c ∷ cs) h).fits)))
      few room r

add_service_types-Replies :
    (out_len : ℕ) (services : List Service) (s : Outcome Reply) (rs : List Rr)
    → All (λ (v : Service). IsSendableType v.type) services
    → length rs + length services < 65536
    → 12 + length (rrs_bytes (rs ++ enum_records services)) ≤ out_len
    → Replies out_len s rs
    → Replies out_len (s >>= add_service_types out_len services) (rs ++ enum_records services)
unfolding add_service_types
add_service_types-Replies out_len [] s rs h few room r =
    same-Replies out_len (add_service_types out_len []) s rs (λ r. refl) r
add_service_types-Replies out_len (v ∷ vs) s rs h few room r =
    let f = add_service_type out_len v.type in
    let g = add_service_types out_len vs in
    let now = type_records v.type in
    let later = enum_records vs in
    let assoc : (rs ++ now) ++ later ≡ rs ++ (now ++ later) = append_assoc rs now later in
    let split = rrs_bytes-append (rs ++ now) later in
    let sizes = length-append (rrs_bytes (rs ++ now)) (rrs_bytes later) in
    let room' : 12 + length (rrs_bytes ((rs ++ now) ++ later)) ≤ out_len = rw assoc room in
    let step =
      add_service_type-Replies out_len v.type s rs h.0 (omega (arith, few))
        (omega (arith, ap length split, sizes, room')) r in
    let rest =
      add_service_types-Replies out_len vs (s >>= f) (rs ++ now) h.1
        (omega (arith, length-append rs now, length-type_records v.type, few)) room' step in
    rw (assoc, bind_assoc s f g) at rest

-- The types of the services, those that are not empty and can be sent, are answered with a PTR record each
-- under the enumeration name, and the asking side reads exactly their rows, as many as it has room for.
pub parse_answers-build_response_service_enum :
    (net : Inet) (services : List Service) (out_len max_results : ℕ)
    → All (λ (s : Service). IsSendableType s.type) services
    → length services < 65536
    → 12 + length (rrs_bytes (enum_records services)) ≤ out_len
    → (w : Writer) × (build_response_service_enum services out_len ≡ ok w)
      × (parse_answers net (message w) max_results
          ≡ ok (take max_results (map (result_of net) (enum_records services))))
unfolding build_response_service_enum
parse_answers-build_response_service_enum net services out_len max_results h few room =
    let start : Outcome Reply = ok (record { writer = blank out_len; ancount = 0 }) in
    let all =
      add_service_types-Replies out_len services start [] h (omega (arith, few)) room
        (blank-Replies out_len (omega (arith, room))) in
    let (w, built, sent) =
      finish-Replies out_len (start >>= add_service_types out_len services) (enum_records services)
        all in
    let big : ltb out_len 12 ≡ false = le→ltb_false _ _ (omega (arith, room)) in
    (
      w,
      rw big built,
      rw sent (
          parse_answers-response_bytes net (enum_records services) max_results
            (enum_records-All services h) (omega (arith, length-enum_records services, few))),
    )
