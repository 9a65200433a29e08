-- ===== src/Answers/Record.antt =====
-- One record of a response, and what the parser makes of it.
use umdns.Answers.{
  address_text, copied, read_address, read_ptr, read_srv, read_txt, read_rdata, parse_record,
  txt_copy_len,
}
use umdns.Inet.{Inet}
use umdns.Message.{rr_a, rr_ptr, rr_txt, rr_aaaa, rr_srv, Result, result_init}
use umdns.Name.Encode.{encode, all_short}
use umdns.Name.Labels.{join, IsToken, length-encode-join, join-IsText}
use umdns.Name.RoundTrip.{decode_name-encode}
use umdns.Name.{max_name, decode_name}
use umdns.Outcome.{ok}
use umdns.Prelude.{
  Option, le→ltb_false, false, ltb, ap, length-append, le→leb, append_assoc, append-nil, ◌∙◌, ◌+◌,
  sym, leb, ◌≤◌, ◌^◌, some, ◌<◌, ◌++◌, true, arith, ◌≡◌, All, length, List, suc, [], ◌∷◌, refl, ℕ,
}
use umdns.Response.Records.{record_bytes, fixed_bytes, srv_bytes}
use umdns.Response.{flush_class, ttl_seconds}
use umdns.Text.Laws.{c_str_lem, copy_string_fits}
use umdns.Text.{Bytes, Text, IsText, c_str}
use umdns.Wire.Laws.{byte_at-cons, bytes_at-append}
use umdns.Wire.Reads.{read_u16-append, read_u32-append}
use umdns.Wire.{byte_at, bytes_at, read_u16, read_u32, u16_bytes, u32_bytes}

-- The data of a record, names as their labels.
pub data RData : Type 0 where
  a : Bytes → RData
  aaaa : Bytes → RData
  ptr : List Text → RData
  srv : ℕ → List Text → RData
  txt : Text → RData

pub record Rr : Type 0 where
  pub owner : List Text
  pub rdata : RData

abbrev pub type_of : RData → ℕ
type_of (a addr) = rr_a
type_of (aaaa addr) = rr_aaaa
type_of (ptr target) = rr_ptr
type_of (srv port target) = rr_srv
type_of (txt text) = rr_txt

abbrev pub bytes_of : RData → Bytes
bytes_of (a addr) = addr
bytes_of (aaaa addr) = addr
bytes_of (ptr target) = encode target
bytes_of (srv port target) = srv_bytes port target
bytes_of (txt text) = length text ∷ text

abbrev pub rr_bytes : Rr → Bytes
rr_bytes r = record_bytes r.owner (type_of r.rdata) (bytes_of r.rdata)

-- Labels that can be sent, of a name that fits the arrays of the receiver.
pub record IsName (ts : List Text) : Type 0 where
  pub tokens : All IsToken ts
  pub short : all_short ts ≡ true
  pub fits : length (join ts) ≤ 254

abbrev pub IsRData : RData → Type 0
IsRData (a addr) = length addr ≡ 4
IsRData (aaaa addr) = length addr ≡ 16
IsRData (ptr target) = IsName target
IsRData (srv port target) = (port < 2 ^ 16) × IsName target
IsRData (txt text) = (length text ≤ 255) × IsText text

pub record IsRr (r : Rr) : Type 0 where
  pub owner_name : IsName r.owner
  pub good_data : IsRData r.rdata

-- The row that a record stands for.
abbrev pub result_with : Inet → Text → RData → Result
result_with net owner (a addr) = record result_init {
  hostname = owner;
  address = address_text (net.ntop4 addr max_name);
  rrtype = rr_a;
}
result_with net owner (aaaa addr) = record result_init {
  hostname = owner;
  address = address_text (net.ntop6 addr max_name);
  rrtype = rr_aaaa;
}
result_with net owner (ptr target) = record result_init {
  instance = join target;
  service_type = owner;
  rrtype = rr_ptr;
}
result_with net owner (srv port target) = record result_init {
  instance = owner;
  hostname = join target;
  port = port;
  rrtype = rr_srv;
}
result_with net owner (txt text) = record result_init {
  instance = owner;
  txt = text;
  rrtype = rr_txt;
}

abbrev pub result_of : Inet → Rr → Result
result_of net r = result_with net (join r.owner) r.rdata

-- The copy of a decoded name is the name.
copied_lem : (ts : List Text) → IsName ts → copied (join ts) ≡ join ts
copied_lem ts n =
    rw (c_str_lem (join ts) (join-IsText ts n.tokens))
      (copy_string_fits [] (join ts) max_name (omega (arith, n.fits)))

decoded_text : (ts : List Text) → IsName ts → c_str (join ts) ≡ join ts
decoded_text ts n = c_str_lem (join ts) (join-IsText ts n.tokens)

module _ (packet front rest : Bytes) (owner : List Text) (named : IsName owner) where
  read_address-append :
      (ntop : Bytes → ℕ → Option Text) (rrtype offset size : ℕ) (addr : Bytes)
      → length addr ≡ size
      → packet ≡ front ++ (addr ++ rest)
      → offset ≡ length front
      → read_address ntop packet (join owner) rrtype offset size
        ≡ ok (
            some (record result_init {
              hostname = join owner;
              address = address_text (ntop addr max_name);
              rrtype = rrtype;
            }))
  unfolding read_address
  read_address-append ntop rrtype offset size addr n e at =
      let read : bytes_at packet offset size ≡ ok addr =
        rw e (bytes_at-append front addr rest offset size at (sym n)) in
      rw (read, copied_lem owner named)

  -- A name among the data.
  decode_target :
      (target : List Text) (before : Bytes) (offset : ℕ)
      → IsName target
      → packet ≡ (front ++ before) ++ (encode target ++ rest)
      → offset ≡ length (front ++ before)
      → decode_name packet offset max_name
        ≡ ok (record { name = join target; offset = offset + length (encode target) })
  decode_target target before offset n e at = rw e (
      decode_name-encode target (front ++ before) rest offset max_name at n.tokens n.short
        (omega (arith, n.fits)))

  read_ptr-append :
      (target : List Text) (offset : ℕ)
      → IsName target
      → packet ≡ front ++ (encode target ++ rest)
      → offset ≡ length front
      → read_ptr packet (join owner) rr_ptr offset
        ≡ ok (
            some (record result_init {
              instance = join target;
              service_type = join owner;
              rrtype = rr_ptr;
            }))
  unfolding read_ptr
  read_ptr-append target offset n e at =
      let e' : packet ≡ (front ++ []) ++ (encode target ++ rest) = e ∙ rw append-nil in
      let at' : offset ≡ length (front ++ []) = omega (arith, length-append front []) in
      rw (decode_target target [] offset n e' at', decoded_text target n, copied_lem owner named)

  read_srv-append :
      (port : ℕ) (target : List Text) (offset : ℕ)
      → port < 2 ^ 16
      → IsName target
      → packet ≡ front ++ (srv_bytes port target ++ rest)
      → offset ≡ length front
      → read_srv packet (join owner) rr_srv offset
        ≡ ok (
            some (record result_init {
              instance = join owner;
              hostname = join target;
              port = port;
              rrtype = rr_srv;
            }))
  unfolding read_srv
  read_srv-append port target offset p n e at =
      let zeros4 = u16_bytes 0 ++ u16_bytes 0 in
      let fixed = u16_bytes 0 ++ (u16_bytes 0 ++ u16_bytes port) in
      let e4 : packet ≡ (front ++ zeros4) ++ (u16_bytes port ++ (encode target ++ rest)) =
        e ∙ simp append_assoc in
      let e6 : packet ≡ (front ++ fixed) ++ (encode target ++ rest) = e ∙ simp append_assoc in
      let port_read : read_u16 packet (offset + 4) ≡ ok port = rw e4 (
        read_u16-append (front ++ zeros4) port (encode target ++ rest) (offset + 4) p
          (omega (arith, length-append front zeros4))) in
      let target_read =
        decode_target target fixed (offset + 4 + 2) n e6
          (omega (arith, length-append front fixed)) in
      rw (port_read, target_read, decoded_text target n, copied_lem owner named)

  read_txt-append :
      (text : Text) (offset : ℕ)
      → length text ≤ 255
      → IsText text
      → packet ≡ front ++ (length text ∷ (text ++ rest))
      → offset ≡ length front
      → read_txt packet (join owner) rr_txt offset (suc (length text))
        ≡ ok (some (record result_init { instance = join owner; txt = text; rrtype = rr_txt }))
  unfolding read_txt
  read_txt-append text offset short t e at =
      let one = length text ∷ [] in
      let e1 : packet ≡ (front ++ one) ++ (text ++ rest) = e ∙ simp append_assoc in
      let len : byte_at packet offset ≡ ok (length text) =
        rw e (byte_at-cons front (length text) (text ++ rest) offset at) in
      let whole : txt_copy_len (length text) (suc (length text)) ≡ length text = ground arith in
      let read : bytes_at packet (offset + 1) (length text) ≡ ok text = rw e1 (
        bytes_at-append (front ++ one) text rest (offset + 1) (length text)
          (omega (arith, length-append front one)) refl) in
      rw (len, whole, read, c_str_lem text t, copied_lem owner named)

  -- What is read of the data that stands behind `front`.
  read_rdata-bytes_of :
      (net : Inet) (d : RData) (offset : ℕ)
      → IsRData d
      → packet ≡ front ++ (bytes_of d ++ rest)
      → offset ≡ length front
      → read_rdata net packet (join owner) (type_of d) offset (length (bytes_of d))
        ≡ ok (some (result_with net (join owner) d))
  unfolding read_rdata
  read_rdata-bytes_of net (a addr) offset good e at =
      rw good (read_address-append net.ntop4 rr_a offset 4 addr good e at)
  read_rdata-bytes_of net (aaaa addr) offset good e at =
      rw good (read_address-append net.ntop6 rr_aaaa offset 16 addr good e at)
  read_rdata-bytes_of net (ptr target) offset good e at = read_ptr-append target offset good e at
  read_rdata-bytes_of net (srv port target) offset good e at =
      let six : leb 6 (length (srv_bytes port target)) ≡ true = le→leb _ _ (omega arith) in
      rw six (read_srv-append port target offset good.0 good.1 e at)
  read_rdata-bytes_of net (txt text) offset good e at =
      let one : leb 1 (suc (length text)) ≡ true = le→leb _ _ (omega arith) in
      rw one (read_txt-append text offset good.0 good.1 e at)

bytes_of_bounds : (d : RData) → IsRData d → length (bytes_of d) < 2 ^ 16
bytes_of_bounds (a addr) good = omega arith
bytes_of_bounds (aaaa addr) good = omega arith
bytes_of_bounds (ptr target) good = omega (arith, good.fits, length-encode-join target)
bytes_of_bounds (srv port target) good = omega (arith, good.1.fits, length-encode-join target)
bytes_of_bounds (txt text) good = omega (arith, good.0)

type_of_bounds : (d : RData) → type_of d < 2 ^ 16
type_of_bounds (a addr) = omega arith
type_of_bounds _ = omega arith

-- The parser's round on a record, wherever it stands in a message.
pub parse_record-rr_bytes :
    (net : Inet) (packet front rest : Bytes) (r : Rr) (offset : ℕ)
    → IsRr r
    → packet ≡ front ++ (rr_bytes r ++ rest)
    → offset ≡ length front
    → parse_record net packet offset
      ≡ ok (record { result = some (result_of net r); next = offset + length (rr_bytes r) })
unfolding parse_record
parse_record-rr_bytes net packet front rest r offset good e at =
    let name = encode r.owner in
    let t = type_of r.rdata in
    let data_bytes = bytes_of r.rdata in
    let n = length data_bytes in
    let fixed = fixed_bytes t flush_class ttl_seconds n in
    let head = front ++ name in
    let o = offset + length name in
    let at_head : o ≡ length head = omega (arith, length-append front name) in
    let size : length (rr_bytes r) ≡ length name + 10 + n =
      omega (arith, length-append name (fixed ++ data_bytes)) in
    let whole : length packet ≡ o + 10 + n + length rest = omega (
      arith,
      ap length e,
      length-append front (rr_bytes r ++ rest),
      length-append (rr_bytes r) rest,
    ) in
    let decoded =
      decode_name-encode r.owner front ((fixed ++ data_bytes) ++ rest) offset max_name at
        good.owner_name.tokens good.owner_name.short (omega (arith, good.owner_name.fits)) in
    let e0 : packet ≡ front ++ (name ++ ((fixed ++ data_bytes) ++ rest)) =
      e ∙ ap (λ (x : Bytes). front ++ x) (append_assoc name (fixed ++ data_bytes) rest) in
    let named' : decode_name packet offset max_name
        ≡ ok (record { name = join r.owner; offset = o }) =
      rw e0 decoded in
    let e1 : packet ≡ head ++ (fixed ++ (data_bytes ++ rest)) = e ∙ simp append_assoc in
    let read_type : read_u16 packet o ≡ ok t =
      rw e1 (read_u16-append head t _ o (type_of_bounds r.rdata) at_head) in
    let e2 : packet
        ≡ (head ++ u16_bytes t)
          ++ (u16_bytes flush_class
              ++ (u32_bytes ttl_seconds ++ (u16_bytes n ++ (data_bytes ++ rest)))) =
      e ∙ simp append_assoc in
    let read_class : read_u16 packet (o + 2) ≡ ok flush_class = rw e2 (
      read_u16-append (head ++ u16_bytes t) flush_class _ (o + 2) (omega arith)
        (omega (arith, length-append head (u16_bytes t)))) in
    let before4 = u16_bytes t ++ u16_bytes flush_class in
    let e4 : packet
        ≡ (head ++ before4) ++ (u32_bytes ttl_seconds ++ (u16_bytes n ++ (data_bytes ++ rest))) =
      e ∙ simp append_assoc in
    let read_ttl : read_u32 packet (o + 4) ≡ ok ttl_seconds = rw e4 (
      read_u32-append (head ++ before4) ttl_seconds _ (o + 4) (omega arith)
        (omega (arith, length-append head before4))) in
    let before8 = u16_bytes t ++ (u16_bytes flush_class ++ u32_bytes ttl_seconds) in
    let e8 : packet ≡ (head ++ before8) ++ (u16_bytes n ++ (data_bytes ++ rest)) =
      e ∙ simp append_assoc in
    let read_length : read_u16 packet (o + 8) ≡ ok n = rw e8 (
      read_u16-append (head ++ before8) n _ (o + 8) (bytes_of_bounds r.rdata good.good_data)
        (omega (arith, length-append head before8))) in
    let e10 : packet ≡ (head ++ fixed) ++ (data_bytes ++ rest) = e ∙ simp append_assoc in
    let result =
      read_rdata-bytes_of packet (head ++ fixed) rest r.owner good.owner_name net r.rdata (o + 10)
        good.good_data e10 (omega (arith, length-append head fixed)) in
    let fixed_in : ltb (length packet) (o + 10) ≡ false = le→ltb_false _ _ (omega arith) in
    let data_in : ltb (length packet) (o + 10 + n) ≡ false = le→ltb_false _ _ (omega arith) in
    rw (named', fixed_in, read_type, read_class, read_ttl, read_length, data_in, result)
      (ground arith)
