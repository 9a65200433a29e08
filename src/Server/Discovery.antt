-- ===== src/Server/Discovery.antt =====
-- What the server says of itself: `discover_interface_addresses` and `apply_runtime_identity` of
-- src/server/main.c, and the texts of its log lines. An address of a family is that of
-- `inet_ntop`, unless it fails.
use umdns.Config.{ServerConfig}
use umdns.Inet.{Inet}
use umdns.Message.{Service, rr_a, rr_ptr, rr_txt, rr_aaaa, rr_srv}
use umdns.Name.{max_name}
use umdns.Options.{copy_text}
use umdns.Prelude.{
  ◌==◌, take, drop, ℕ, bit_and, Bool, true, false, not, ◌&&◌, ◌||◌, Option, none, some, List, [],
  ◌∷◌, if◌then◌else◌,
}
use umdns.System.{
  Interface, InterfaceAddress, no_address, other_address, address4, address6, Kernel, Sys, pure,
  record_event, gethostname, getifaddrs, ◌>>=◌,
}
use umdns.Text.{Bytes, Text, codes, snprintf, text_eq}

-- `rrtype_to_text`.
unfoldable pub rrtype_to_text : ℕ → Text
rrtype_to_text rrtype =
    if rrtype == rr_a
    then codes "A"
    else if rrtype == rr_aaaa
    then codes "AAAA"
    else if rrtype == rr_ptr
    then codes "PTR"
    else if rrtype == rr_srv
    then codes "SRV"
    else if rrtype == rr_txt
    then codes "TXT"
    else if rrtype == 255
    then codes "ANY"
    else codes "UNKNOWN"

-- What `inet_ntop` has written, or the text behind it.
abbrev pub ip_or_unknown : Option Text → ℕ → Text
ip_or_unknown none ip_len = snprintf ip_len (codes "unknown")
ip_or_unknown (some ip) ip_len = ip

-- `format_source_ip`; NULL is no address.
unfoldable pub format_source_ip : Inet → InterfaceAddress → ℕ → Text
format_source_ip net no_address ip_len = snprintf ip_len (codes "unknown")
format_source_ip net other_address ip_len = snprintf ip_len (codes "unknown")
format_source_ip net (address4 b) ip_len = ip_or_unknown (net.ntop4 b ip_len) ip_len
format_source_ip net (address6 b) ip_len = ip_or_unknown (net.ntop6 b ip_len) ip_len

-- IN6_IS_ADDR_LINKLOCAL: fe80::/10.
unfoldable pub is_link_local : Bytes → Bool
is_link_local (a ∷ b ∷ rest) = a == 0xfe && bit_and b 0xc0 == 0x80
is_link_local _ = false

abbrev pub is_zero : Bytes → Bool
is_zero [] = true
is_zero (b ∷ bs) = b == 0 && is_zero bs

-- IN6_IS_ADDR_LOOPBACK: ::1.
unfoldable pub is_loopback6 : Bytes → Bool
is_loopback6 b = is_zero (take 15 b) && (elim (drop 15 b) [ [] ↦ false | c ∷ cs ↦ c == 1 ])

-- `require_interface`.
abbrev pub is_required : Text → Bool
is_required [] = false
is_required (c ∷ cs) = true

abbrev pub has_address : InterfaceAddress → Bool
has_address no_address = false
has_address other_address = true
has_address (address4 b) = true
has_address (address6 b) = true

-- The entry passes the first four tests of the loop.
unfoldable pub is_candidate : Text → Interface → Bool
is_candidate interface_name i =
    has_address i.addr
    && i.is_up
    && (if is_required interface_name then text_eq i.name interface_name else not i.is_loopback)

-- The address is skipped by the two tests on IPv6 addresses.
unfoldable pub is_skipped : Text → Bytes → Bool
is_skipped interface_name b = not (is_required interface_name) && is_link_local b || is_loopback6 b

-- The two addresses found so far; `none` is a `has_…` of 0.
pub record Found : Type 0 where
  pub found4 : Option Text
  pub found6 : Option Text

abbrev pub or_first : Option Text → Text → Option Text
or_first none text = some text
or_first (some first) text = some first

-- INET6_ADDRSTRLEN, the size of `value`.
abbrev pub value_size : ℕ
value_size = 46

-- The text of the address is copied, if there is none yet; `none` is a NULL of `inet_ntop`.
abbrev pub keep_first : Option Text → Option Text → Option Text
keep_first found none = found
keep_first found (some value) = or_first found (copy_text [] max_name value)

-- The body of the loop behind the four tests.
unfoldable pub take_address : Inet → Text → InterfaceAddress → Found → Found
take_address net interface_name no_address f = f
take_address net interface_name other_address f = f
take_address net interface_name (address4 b) f = record f {
  found4 = keep_first f.found4 (net.ntop4 b value_size);
}
take_address net interface_name (address6 b) f =
    if is_skipped interface_name b
    then f
    else record f { found6 = keep_first f.found6 (net.ntop6 b value_size) }

abbrev pub is_found : Option Text → Bool
is_found none = false
is_found (some text) = true

-- The test that ends the loop; an entry that was skipped does not come to it, and has then found nothing.
abbrev pub both_found : Found → Bool
both_found f = is_found f.found4 && is_found f.found6

-- The loop over the entries.
unfoldable pub discover_loop : Inet → Text → List Interface → Found → Found
discover_loop net interface_name [] f = f
discover_loop net interface_name (i ∷ is) f =
    let g = if is_candidate interface_name i then take_address net interface_name i.addr f else f in
    if both_found g then g else discover_loop net interface_name is g

abbrev pub text_or : Option Text → Text → Text
text_or none text = copy_text [] max_name text
text_or (some found) text = found

abbrev pub localhost4 : Text
localhost4 = codes "127.0.0.1"

abbrev pub localhost6 : Text
localhost6 = codes "::1"

-- `discover_interface_addresses`: the texts of `ipv4` and `ipv6`; `none` is a failure of `getifaddrs`.
unfoldable pub discover_interface_addresses : Inet → Text → Option (List Interface) → Text × Text
discover_interface_addresses net interface_name none =
    (text_or none localhost4, text_or none localhost6)
discover_interface_addresses net interface_name (some interfaces) =
    let f = discover_loop net interface_name interfaces (record { found4 = none; found6 = none }) in
    (text_or f.found4 localhost4, text_or f.found6 localhost6)

abbrev pub hostname_or_default : Option Text → Text
hostname_or_default none = copy_text [] max_name (codes "umdns")
hostname_or_default (some name) = take 255 name

abbrev pub with_host : Text → List Service → List Service
with_host hostname [] = []
with_host hostname (s ∷ ss) =
    record s { host = copy_text s.host max_name hostname } ∷ with_host hostname ss

-- The configuration with the identity in it.
unfoldable pub identified :
    Inet → Text → Option Text → Option (List Interface) → ServerConfig → ServerConfig
identified net interface_name host interfaces config =
    let hostname = hostname_or_default host in
    let found = discover_interface_addresses net interface_name interfaces in
    record config {
      hostname = hostname;
      ipv4 = found.0;
      ipv6 = found.1;
      services = with_host hostname config.services;
    }

-- `apply_runtime_identity`.
unfoldable pub apply_runtime_identity : Kernel → Text → ServerConfig → Sys ServerConfig
apply_runtime_identity k interface_name config = do
  host ← record_event (λ h. k.gethostname_answer h 255) gethostname
  interfaces ← record_event k.getifaddrs_answer getifaddrs
  pure (identified k.inet interface_name host interfaces config)
