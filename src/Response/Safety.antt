-- ===== src/Response/Safety.antt =====
-- The builders of src/common/mdns.c on any input.
use umdns.Header.{blank}
use umdns.Inet.{Inet, IsInet}
use umdns.Message.{Service, rr_a, rr_aaaa, header_len}
use umdns.Name.{max_name}
use umdns.Outcome.{Outcome, Ensures, Ensures-bind, Ensures-require, ◌>>=◌}
use umdns.Prelude.{
  length-replicate, leb, ◌≡◌, Option, none, some, ltb, leb, length, ℕ, ◌≤◌, ◌≡◌, refl, not, Option,
  none, some, List, [], ◌∷◌, arith, length-replicate,
}
use umdns.Query.{append_question, build_query}
use umdns.Response.{
  append_address, append_txt, append_ptr, append_srv, Reply, counted, finish, add_address, add_txt,
  add_service_type, add_service_types, address_of, build_response_hostname, build_response_service,
  build_response_service_enum,
}
use umdns.Response.{enum_name, instance_name, host_or_localhost}
use umdns.Response.Identity.{address_of_len}
use umdns.Text.{normalize_local_name, Bytes, Text}
use umdns.Wire.{Writer, write_u16, u16_bytes}
use umdns.Wire.Room.{InRoom, Stays, copy_to-Ensures}
use umdns.Response.Stays.{
  append_question-Stays, append_address-Stays, append_txt-Stays, append_ptr-Stays, append_srv-Stays,
}

module _ (out_len : ℕ) where
  -- The reply stays in the buffer.
  abbrev Keeps : (Reply → Outcome Reply) → Type 0
  Keeps f = (r : Reply) → InRoom out_len r.writer → Ensures (λ s. InRoom out_len s.writer) (f r)

  counted-Keeps : (m : Writer → Outcome Writer) → Stays out_len m → Keeps (counted m)
  counted-Keeps m f r h =
      Ensures-bind (λ v. InRoom out_len v × (r.writer.offset ≤ v.offset)) _ (m r.writer) _
        (f r.writer h) (λ v k. k.0)

  add_address-Keeps :
      (name : Text) (rrtype size : ℕ) (o : Option Bytes)
      → ((addr : Bytes) → o ≡ some addr → length addr ≡ size)
      → Keeps (add_address out_len name rrtype size o)
  unfolding add_address
  add_address-Keeps name rrtype size none e r h = h
  add_address-Keeps name rrtype size (some addr) e r h = rw (← e addr refl) (
      counted-Keeps (append_address out_len name rrtype (length addr) addr)
        (append_address-Stays out_len name rrtype addr) r h)

  add_txt-Keeps : (name : Text) (o : Option Text) → Keeps (add_txt out_len name o)
  unfolding add_txt
  add_txt-Keeps name none r h = h
  add_txt-Keeps name (some []) r h = h
  add_txt-Keeps name (some (c ∷ cs)) r h =
      counted-Keeps (append_txt out_len name (c ∷ cs)) (append_txt-Stays out_len name (c ∷ cs)) r h

  add_service_type-Keeps : (type : Text) → Keeps (add_service_type out_len type)
  unfolding add_service_type
  add_service_type-Keeps [] r h = h
  add_service_type-Keeps (c ∷ cs) r h =
      let type = normalize_local_name (some (c ∷ cs)) max_name in
      counted-Keeps (append_ptr out_len enum_name type) (append_ptr-Stays out_len enum_name type) r
        h

  add_service_types-Keeps : (services : List Service) → Keeps (add_service_types out_len services)
  unfolding add_service_types
  add_service_types-Keeps [] r h = h
  add_service_types-Keeps (s ∷ ss) r h =
      Ensures-bind (λ (v : Reply). InRoom out_len v.writer) _ (add_service_type out_len s.type r) _
        (add_service_type-Keeps s.type r h) (add_service_types-Keeps ss)

  finish-Ensures : (r : Reply) → InRoom out_len r.writer → Ensures (InRoom out_len) (finish r)
  unfolding finish write_u16
  finish-Ensures r h =
      Ensures-bind (λ (o : Bytes). length o ≡ length r.writer.out) _
        (write_u16 r.writer.out 2 0x8400) _
        (copy_to-Ensures r.writer.out 2 (u16_bytes 0x8400)
          (omega (arith, h.size, h.start, h.inside)))
        (λ o e.
          Ensures-bind (λ (p : Bytes). length p ≡ length o) _ (write_u16 o 6 r.ancount) _
            (copy_to-Ensures o 6 (u16_bytes r.ancount) (omega (arith, h.size, h.start, h.inside)))
            (λ p d. record { size = omega (arith, h.size); start = h.start; inside = h.inside }))

  blank-InRoom : 12 ≤ out_len → InRoom out_len (blank out_len)
  blank-InRoom h = record { size = length-replicate out_len 0; start = omega arith; inside = h }

  -- Whatever is asked for, and however small the buffer is, the query is built inside of it or refused.
  pub build_query-Ensures :
      (qtype : ℕ) (name : Option Text) → Ensures (InRoom out_len) (build_query qtype name out_len)
  unfolding build_query write_u16
  build_query-Ensures qtype name = Ensures-require _ (not (ltb out_len header_len)) _ (λ e.
      let start = blank-InRoom (ground arith) in
      Ensures-bind (λ v. InRoom out_len v × (12 ≤ v.offset)) _
        (append_question out_len qtype (normalize_local_name name max_name) (blank out_len)) _
        (append_question-Stays out_len qtype (normalize_local_name name max_name) (blank out_len)
          start)
        (λ v k.
          Ensures-bind (λ (o : Bytes). length o ≡ length v.out) _ (write_u16 v.out 4 1) _
            (copy_to-Ensures v.out 4 (u16_bytes 1) (omega (arith, k.0.size, k.0.start, k.0.inside)))
            (λ o d. record {
              size = omega (arith, k.0.size);
              start = k.0.start;
              inside = k.0.inside;
            })))

  pub build_response_service_enum-Ensures :
      (services : List Service)
      → Ensures (InRoom out_len) (build_response_service_enum services out_len)
  unfolding build_response_service_enum
  build_response_service_enum-Ensures services =
      Ensures-require _ (not (ltb out_len header_len)) _ (λ e.
        Ensures-bind (λ (r : Reply). InRoom out_len r.writer) _
          (add_service_types out_len services (record { writer = blank out_len; ancount = 0 }))
          finish (add_service_types-Keeps services _ (blank-InRoom (ground arith))) finish-Ensures)

  pub build_response_hostname-Ensures :
      (net : Inet) (hostname ipv4 ipv6 txt : Option Text)
      → IsInet net
      → Ensures (InRoom out_len) (build_response_hostname net hostname ipv4 ipv6 txt out_len)
  unfolding build_response_hostname
  build_response_hostname-Ensures net hostname ipv4 ipv6 txt inet =
      let name = normalize_local_name hostname max_name in
      let P = λ (r : Reply). InRoom out_len r.writer in
      Ensures-require _ (not (ltb out_len header_len)) _ (λ e.
        Ensures-bind P _ (add_address out_len name rr_a 4 (address_of net.pton4 ipv4) _) _
          (add_address-Keeps name rr_a 4 (address_of net.pton4 ipv4)
            (λ addr. address_of_len net.pton4 4 ipv4 addr inet.pton4_len) _
            (blank-InRoom (ground arith)))
          (λ r h.
            Ensures-bind P _ (add_address out_len name rr_aaaa 16 (address_of net.pton6 ipv6) r) _
              (add_address-Keeps name rr_aaaa 16 (address_of net.pton6 ipv6)
                (λ addr. address_of_len net.pton6 16 ipv6 addr inet.pton6_len) r h)
              (λ r h.
                Ensures-bind P _ (add_txt out_len name txt r) finish (add_txt-Keeps name txt r h)
                  finish-Ensures)))

  pub build_response_service-Ensures :
      (service : Option Service) → Ensures (InRoom out_len) (build_response_service service out_len)
  unfolding build_response_service
  build_response_service-Ensures none = tt
  build_response_service-Ensures (some s) =
      let type = normalize_local_name (some s.type) max_name in
      let host = normalize_local_name (some (host_or_localhost s.host)) max_name in
      let name = instance_name s in
      let P = λ (r : Reply). InRoom out_len r.writer in
      let start : Reply = record { writer = blank out_len; ancount = 0 } in
      let fp = counted (append_ptr out_len type name) in
      let fv = counted (append_srv out_len name s.port host) in
      let ft = add_txt out_len name (some s.txt) in
      Ensures-require (InRoom out_len) (not (ltb out_len header_len)) _ (λ e.
        Ensures-require (InRoom out_len) (not (leb max_name (length name)))
          (fp start >>= λ r. fv r >>= λ r. ft r >>= finish)
          (λ e'.
            Ensures-bind P (InRoom out_len) (fp start) (λ r. fv r >>= λ r. ft r >>= finish)
              (counted-Keeps (append_ptr out_len type name) (append_ptr-Stays out_len type name)
                start (blank-InRoom (ground arith)))
              (λ r h.
                Ensures-bind P (InRoom out_len) (fv r) (λ r. ft r >>= finish)
                  (counted-Keeps (append_srv out_len name s.port host)
                    (append_srv-Stays out_len name s.port host) r h)
                  (λ r h.
                    Ensures-bind P (InRoom out_len) (ft r) finish
                      (add_txt-Keeps name (some s.txt) r h) finish-Ensures))))
