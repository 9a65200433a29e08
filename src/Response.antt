-- ===== src/Response.antt =====
-- Responses: `umdns_append_rr_header` and the three `umdns_mdns_build_response_…` functions of
-- src/common/mdns.c. `err` is the return value 0.
pub mod Records
pub mod Identity
pub mod Hostname
pub mod Messages
pub mod ServiceReply
pub mod Enum
pub mod Stays
pub mod Safety
use umdns.Header.{blank}
use umdns.Inet.{Inet}
use umdns.Message.{header_len, rr_a, rr_ptr, rr_txt, rr_aaaa, rr_srv, Service}
use umdns.Name.{max_name, append_name}
use umdns.Outcome.{Outcome, ok, err, require, ◌>>=◌, ◌>>◌}
use umdns.Prelude.{
  ℕ, ◌+◌, ◌-◌, ◌%◌, not, Option, none, some, List, [], ◌∷◌, ◌++◌, ltb, leb, if◌then◌else◌, length,
  take,
}
use umdns.Text.{Bytes, Text, codes, normalize_local_name}
use umdns.Wire.{write_u16, Writer, emit, emit_u16, emit_u32}

-- `umdns_append_rr_header`.
unfoldable pub append_rr_header : ℕ → Text → ℕ → ℕ → ℕ → ℕ → Writer → Outcome Writer
append_rr_header out_len name rrtype rrclass ttl rdlength w = do
  w ← append_name out_len name w
  require (not (ltb out_len (w.offset + 10)))
  w ← emit_u16 rrtype w
  w ← emit_u16 rrclass w
  w ← emit_u32 ttl w
  emit_u16 rdlength w

-- Class IN with the cache-flush bit, and the time to live in seconds.
abbrev pub flush_class : ℕ
flush_class = 0x8001

abbrev pub ttl_seconds : ℕ
ttl_seconds = 120

-- An A or AAAA record with the address that `inet_pton` gave.
unfoldable pub append_address : ℕ → Text → ℕ → ℕ → Bytes → Writer → Outcome Writer
append_address out_len name rrtype size addr w = do
  w ← append_rr_header out_len name rrtype flush_class ttl_seconds size w
  require (not (ltb out_len (w.offset + size)))
  emit addr w

-- `txt_len` after it has been cut to 255.
abbrev pub cut_len : Text → ℕ
cut_len txt = if ltb 255 (length txt) then 255 else length txt

-- A TXT record with one string.
unfoldable pub append_txt : ℕ → Text → Text → Writer → Outcome Writer
append_txt out_len name txt w = do
  w ← append_rr_header out_len name rr_txt flush_class ttl_seconds ((cut_len txt + 1) % 65536) w
  require (not (ltb out_len (w.offset + (cut_len txt + 1))))
  w ← emit (cut_len txt % 256 ∷ []) w
  emit (take (cut_len txt) txt) w

-- Record data of a length that is known, and written into `rdlength`, only behind it.
unfoldable pub append_measured : ℕ → Text → ℕ → (Writer → Outcome Writer) → Writer → Outcome Writer
append_measured out_len name rrtype rdata w = do
  start ← append_rr_header out_len name rrtype flush_class ttl_seconds 0 w
  w ← rdata start
  out ← write_u16 w.out (start.offset - 2) ((w.offset - start.offset) % 65536)
  ok (record w { out = out })

-- A PTR record from `name` to `target`.
unfoldable pub append_ptr : ℕ → Text → Text → Writer → Outcome Writer
append_ptr out_len name target = append_measured out_len name rr_ptr (append_name out_len target)

-- The data of an SRV record: priority and weight 0, the port and the host.
unfoldable pub append_srv_data : ℕ → ℕ → Text → Writer → Outcome Writer
append_srv_data out_len port target w = do
  require (not (ltb out_len (w.offset + 6)))
  w ← emit_u16 0 w
  w ← emit_u16 0 w
  w ← emit_u16 port w
  append_name out_len target w

unfoldable pub append_srv : ℕ → Text → ℕ → Text → Writer → Outcome Writer
append_srv out_len name port target =
    append_measured out_len name rr_srv (append_srv_data out_len port target)

-- The message so far and `ancount`, a `uint16_t`.
pub record Reply : Type 0 where
  pub writer : Writer
  pub ancount : ℕ

-- A record that has been appended is counted.
abbrev pub counted : (Writer → Outcome Writer) → Reply → Outcome Reply
counted m r = m r.writer >>= λ w. ok (record { writer = w; ancount = (r.ancount + 1) % 65536 })

-- The flags of an authoritative response, and the count of answers.
unfoldable pub finish : Reply → Outcome Writer
finish r = do
  out ← write_u16 r.writer.out 2 0x8400
  out ← write_u16 out 6 r.ancount
  ok (record { out = out; offset = r.writer.offset })

-- `text != NULL && inet_pton(…, text, &addr) == 1`.
abbrev pub address_of : (Text → Option Bytes) → Option Text → Option Bytes
address_of pton none = none
address_of pton (some text) = pton text

unfoldable pub add_address : ℕ → Text → ℕ → ℕ → Option Bytes → Reply → Outcome Reply
add_address out_len name rrtype size none r = ok r
add_address out_len name rrtype size (some addr) r =
    counted (append_address out_len name rrtype size addr) r

-- `none` is a NULL `txt`.
unfoldable pub add_txt : ℕ → Text → Option Text → Reply → Outcome Reply
add_txt out_len name none r = ok r
add_txt out_len name (some []) r = ok r
add_txt out_len name (some (c ∷ cs)) r = counted (append_txt out_len name (c ∷ cs)) r

-- `umdns_mdns_build_response_hostname`: the buffer and the length returned.
unfoldable pub build_response_hostname :
    Inet → Option Text → Option Text → Option Text → Option Text → ℕ → Outcome Writer
build_response_hostname net hostname ipv4 ipv6 txt out_len = do
  require (not (ltb out_len header_len))
  let host_fqdn = normalize_local_name hostname max_name
  r ←
      add_address out_len host_fqdn rr_a 4 (address_of net.pton4 ipv4)
        (record { writer = blank out_len; ancount = 0 })
  r ← add_address out_len host_fqdn rr_aaaa 16 (address_of net.pton6 ipv6) r
  r ← add_txt out_len host_fqdn txt r
  finish r

-- What `snprintf(…, "%s.%s", instance, type_fqdn)` would write.
abbrev pub instance_name : Service → Text
instance_name service =
    service.instance ++ (b'.' ∷ normalize_local_name (some service.type) max_name)

-- `service->host[0] == '\0' ? "localhost" : service->host`.
abbrev pub host_or_localhost : Text → Text
host_or_localhost [] = codes "localhost"
host_or_localhost (c ∷ cs) = c ∷ cs

-- `umdns_mdns_build_response_service`; `none` is a NULL `service`.
unfoldable pub build_response_service : Option Service → ℕ → Outcome Writer
build_response_service none out_len = err
build_response_service (some service) out_len = do
  require (not (ltb out_len header_len))
  let service_type_fqdn = normalize_local_name (some service.type) max_name
  let instance_fqdn = instance_name service
  require (not (leb max_name (length instance_fqdn)))
  let host_fqdn = normalize_local_name (some (host_or_localhost service.host)) max_name
  r ←
      counted (append_ptr out_len service_type_fqdn instance_fqdn)
        (record { writer = blank out_len; ancount = 0 })
  r ← counted (append_srv out_len instance_fqdn service.port host_fqdn) r
  r ← add_txt out_len instance_fqdn (some service.txt) r
  finish r

abbrev pub enum_name : Text
enum_name = codes "_services._dns-sd._udp.local"

-- The round of the loop for one service: one without a type is skipped.
unfoldable pub add_service_type : ℕ → Text → Reply → Outcome Reply
add_service_type out_len [] r = ok r
add_service_type out_len (c ∷ cs) r =
    counted (append_ptr out_len enum_name (normalize_local_name (some (c ∷ cs)) max_name)) r

unfoldable pub add_service_types : ℕ → List Service → Reply → Outcome Reply
add_service_types out_len [] r = ok r
add_service_types out_len (service ∷ rest) r =
    add_service_type out_len service.type r >>= add_service_types out_len rest

-- `umdns_mdns_build_response_service_enum`; the list holds `service_count` services.
unfoldable pub build_response_service_enum : List Service → ℕ → Outcome Writer
build_response_service_enum services out_len = do
  require (not (ltb out_len header_len))
  r ← add_service_types out_len services (record { writer = blank out_len; ancount = 0 })
  finish r
