-- ===== src/Server/Host.antt =====
-- A host that is asked for its address: from the query of src/client/main.c, over `handle_question` of
-- src/server/main.c, to the rows that the client reads.
use umdns.Response.Identity.{IsSendable-IsName}
use umdns.Answers.Record.{type_of}
use umdns.Response.Records.{fixed_bytes}
use umdns.Response.{flush_class, ttl_seconds, address_of, cut_len}
use umdns.Response.Identity.{address_records, txt_records, address_of_len}
use umdns.Response.Messages.{rrs_bytes-append}
use umdns.Message.{Service}
use umdns.Name.{max_name}
use umdns.Answers.Record.{Rr, RData, a, aaaa, txt, rr_bytes, result_of, IsName, bytes_of}
use umdns.Answers.RoundTrip.{rrs_bytes, parse_answers-response_bytes}
use umdns.Answers.{parse_answers}
use umdns.Header.{labels_of}
use umdns.Inet.{Inet, IsInet}
use umdns.Message.{Service, rr_a, rr_aaaa, Question}
use umdns.Name.Encode.{encode, all_short}
use umdns.Name.Labels.{length-encode-join}
use umdns.Outcome.{ok}
use umdns.Prelude.{
  length, take, Bool-cases, length-append, length-take, ℕ, ◌+◌, ◌≤◌, ◌≡◌, refl, ap, ◌⊎◌, inl, inr,
  Bool, true, Option, none, some, List, [], ◌∷◌, ◌++◌, map, append-nil, arith, if◌then◌else◌,
}
use umdns.Query.{build_query, parse_question}
use umdns.Query.RoundTrip.{asked_name, message, parse_question-build_query}
use umdns.Response.{build_response_hostname}
use umdns.Response.Hostname.{build_response_hostname-bytes}
use umdns.Response.Identity.{
  hostname_records, hostname_records-All, length-hostname_records, IsSendable,
}
use umdns.Config.{ServerConfig}
use umdns.Server.{
  hostname, name_matches, server_local_name, response_size, Reaction, built, react_named,
  react_typed, react_services, react, deliver, handle_question,
}
use umdns.Text.{Text, Bytes, IsText}
use umdns.Wire.{Writer}

-- The name, a fixed head of 10 bytes, and the data.
length-rr_bytes :
    (r : Rr) → IsName r.owner → length (rrs_bytes (r ∷ [])) ≤ 266 + length (bytes_of r.rdata)
length-rr_bytes r h = omega (
  arith,
  ap length (append-nil (rr_bytes r)),
  length-append (encode r.owner) (
      fixed_bytes (type_of r.rdata) flush_class ttl_seconds (length (bytes_of r.rdata))
      ++ bytes_of r.rdata),
  length-encode-join r.owner,
  h.fits,
)

length-address_bytes :
    (d : Bytes → RData) (owner : List Text) (o : Option Bytes)
    → IsName owner
    → ((addr : Bytes) → o ≡ some addr → length (bytes_of (d addr)) ≤ 16)
    → length (rrs_bytes (address_records d owner o)) ≤ 282
length-address_bytes d owner none named h = omega arith
length-address_bytes d owner (some addr) named h =
    omega (arith, length-rr_bytes (record { owner = owner; rdata = d addr }) named, h addr refl)

length-txt_bytes :
    (owner : List Text) (o : Option Text)
    → IsName owner
    → length (rrs_bytes (txt_records owner o)) ≤ 522
length-txt_bytes owner none named = omega arith
length-txt_bytes owner (some []) named = omega arith
length-txt_bytes owner (some (c ∷ cs)) named =
    let text = take (cut_len (c ∷ cs)) (c ∷ cs) in
    let size : length text ≤ 255 = ground (arith, length-take (cut_len (c ∷ cs)) (c ∷ cs)) in
    omega (arith, length-rr_bytes (record { owner = owner; rdata = txt text }) named, size)

-- The three records of a host fit the 1500 bytes of `response`.
length-hostname_bytes :
    (net : Inet) (owner : List Text) (ipv4 ipv6 text : Option Text)
    → IsInet net
    → IsName owner
    → 12 + length (rrs_bytes (hostname_records net owner ipv4 ipv6 text)) ≤ 1500
length-hostname_bytes net owner ipv4 ipv6 text inet named =
    let xs = address_records a owner (address_of net.pton4 ipv4) in
    let ys = address_records aaaa owner (address_of net.pton6 ipv6) in
    let zs = txt_records owner text in
    omega (
      arith,
      ap length (rrs_bytes-append (xs ++ ys) zs),
      length-append (rrs_bytes (xs ++ ys)) (rrs_bytes zs),
      ap length (rrs_bytes-append xs ys),
      length-append (rrs_bytes xs) (rrs_bytes ys),
      length-address_bytes a owner (address_of net.pton4 ipv4) named
          (λ addr e. omega (arith, address_of_len net.pton4 4 ipv4 addr inet.pton4_len e)),
      length-address_bytes aaaa owner (address_of net.pton6 ipv6) named
          (λ addr e. omega (arith, address_of_len net.pton6 16 ipv6 addr inet.pton6_len e)),
      length-txt_bytes owner text named,
    )

react_named-address :
    (q : Question) (svc : Service) (t i : Text) (r : Reaction)
    → (q.qtype ≡ rr_a) ⊎ (q.qtype ≡ rr_aaaa)
    → react_named q svc t i r ≡ ok r
unfolding react_named
react_named-address q svc t i r (inl e) = rw e refl
react_named-address q svc t i r (inr e) = rw e refl

react_typed-address :
    (q : Question) (svc : Service) (type : Text) (r : Reaction)
    → (q.qtype ≡ rr_a) ⊎ (q.qtype ≡ rr_aaaa)
    → react_typed q svc type r ≡ ok r
unfolding react_typed
react_typed-address q svc [] r h = refl
react_typed-address q svc (c ∷ cs) r h = ground (
  arith,
  react_named-address q svc (server_local_name (c ∷ cs) max_name)
      (svc.instance ++ (b'.' ∷ server_local_name (c ∷ cs) max_name)) r h,
)

-- No service answers a question for an address.
react_services-address :
    (q : Question) (services : List Service) (r : Reaction)
    → (q.qtype ≡ rr_a) ⊎ (q.qtype ≡ rr_aaaa)
    → react_services q services r ≡ ok r
unfolding react_services
react_services-address q [] r h = refl
react_services-address q (svc ∷ rest) r h =
    rw (react_typed-address q svc svc.type r h) (react_services-address q rest r h)

-- A question for an address of the host gets what the builder makes of the configuration.
react-address :
    (net : Inet) (config : ServerConfig) (name : Text) (qtype : ℕ) (w : Writer)
    → (qtype ≡ rr_a) ⊎ (qtype ≡ rr_aaaa)
    → name_matches name (server_local_name config.hostname max_name) ≡ true
    → build_response_hostname net
        (some config.hostname)
        (some config.ipv4)
        (some config.ipv6)
        (some config.host_txt)
        response_size
      ≡ ok w
    → react net config (record { name = name; qtype = qtype })
      ≡ ok (record { response = message w; kind = hostname })
unfolding react
react-address net config name qtype w (inl e) m b =
    rw (e, m, b)
      (react_services-address (record { name = name; qtype = rr_a }) config.services
        (record { response = message w; kind = hostname }) (inl refl))
react-address net config name qtype w (inr e) m b =
    rw (e, m, b)
      (react_services-address (record { name = name; qtype = rr_aaaa }) config.services
        (record { response = message w; kind = hostname }) (inr refl))

pub deliver_lem :
    (send : Bytes → Bool) (b : ℕ) (bs : Bytes)
    → deliver send (b ∷ bs)
      ≡ record { sent = if send (b ∷ bs) then some (b ∷ bs) else none; success = send (b ∷ bs) }
deliver_lem send b bs = elim (Bool-cases (send (b ∷ bs))) [
  | inl sent ↦ rw sent refl
  | inr lost ↦ rw lost refl
]

-- A client asks for an A or AAAA record of a name that is the server's host in any case of the letters:
-- the query is built in a buffer of 272 bytes, the server reads it and sends one response, returning 0
-- exactly if that can be sent, and the client reads from it the rows of the host's addresses and text.
pub handle_question-host :
    (send : Bytes → Bool) (net : Inet) (config : ServerConfig) (name : Text)
    → (qtype out_len max_rows : ℕ) → IsInet net
    → (qtype ≡ rr_a) ⊎ (qtype ≡ rr_aaaa)
    → IsText name
    → all_short (labels_of name) ≡ true
    → length (asked_name name) ≤ 254
    → name_matches (asked_name name) (server_local_name config.hostname max_name) ≡ true
    → IsSendable config.hostname
    → IsText config.host_txt
    → 272 ≤ out_len
    → (w : Writer) × (q : Question) × (m : Bytes) × (build_query qtype (some name) out_len ≡ ok w)
      × (parse_question (message w) ≡ ok q)
      × (handle_question send net config q
          ≡ ok (record { sent = if send m then some m else none; success = send m }))
      × (parse_answers net m max_rows
          ≡ ok (
              take max_rows (
                map (result_of net) (
                  hostname_records net
                    (labels_of config.hostname)
                    (some config.ipv4)
                    (some config.ipv6)
                    (some config.host_txt)))))
unfolding handle_question
handle_question-host send net config name qtype out_len max_rows inet type text short fits matches
      sendable host_text room =
    let four = some config.ipv4 in
    let six = some config.ipv6 in
    let says = some config.host_txt in
    let (w, asked, read) =
      parse_question-build_query qtype name out_len text (ground arith) short fits room in
    let q : Question = record { name = asked_name name; qtype = qtype } in
    let (v, built, bytes) =
      build_response_hostname-bytes net config.hostname four six says response_size inet sendable
        host_text
        (length-hostname_bytes net (labels_of config.hostname) four six says inet
          (IsSendable-IsName config.hostname sendable)) in
    let reacted = react-address net config (asked_name name) qtype v type matches built in
    (
      w,
      q,
      message v,
      asked,
      read,
      rw reacted (rw bytes (ap ok (deliver_lem send _ _))),
      rw bytes (
          parse_answers-response_bytes net _ max_rows
            (hostname_records-All net config.hostname four six says inet sendable host_text)
            (omega (arith, length-hostname_records net (labels_of config.hostname) four six says))),
    )
