-- ===== src/Answers.antt =====
-- Answers: `umdns_mdns_parse_answers` of src/common/mdns.c. The result list holds the entries that
-- the call has filled in, `result_count` of them.
pub mod Rows
pub mod Safety
pub mod Record
pub mod RoundTrip
use umdns.Inet.{Inet}
use umdns.Message.{header_len, max_txt, rr_a, rr_ptr, rr_txt, rr_aaaa, rr_srv, Result, result_init}
use umdns.Name.{max_name, Decoded, decode_name}
use umdns.Outcome.{Outcome, ok, require, attempt, ◌>>=◌, ◌>>◌}
use umdns.Prelude.{
  ◌||◌, ℕ, zero, suc, ◌+◌, ◌-◌, not, ◌&&◌, Option, none, some, List, [], ◌∷◌, ltb, leb, ◌==◌,
  if◌then◌else◌, length,
}
use umdns.Text.{Bytes, Text, c_str, copy_string}
use umdns.Wire.{byte_at, bytes_at, read_u16, read_u32}

-- The loop over the questions: the offset behind them. The names are dropped.
unfoldable pub skip_questions : ℕ → Bytes → ℕ → Outcome ℕ
skip_questions zero packet offset = ok offset
skip_questions (suc n) packet offset = do
  d ← decode_name packet offset max_name
  require (not (ltb (length packet) (d.offset + 4)))
  skip_questions n packet (d.offset + 4)

-- `umdns_copy_string` into a member of a result that `umdns_result_init` has cleared.
abbrev pub copied : Bytes → Text
copied name = copy_string [] max_name (some (c_str name))

abbrev pub named_address : Bytes → ℕ → Text → Result
named_address rr_name rrtype address = record result_init {
  hostname = copied rr_name;
  address = address;
  rrtype = rrtype;
}

abbrev pub named_ptr : Bytes → ℕ → Decoded → Result
named_ptr rr_name rrtype d = record result_init {
  instance = c_str d.name;
  service_type = copied rr_name;
  rrtype = rrtype;
}

abbrev pub named_srv : Bytes → ℕ → ℕ → Decoded → Result
named_srv rr_name rrtype port d = record result_init {
  instance = copied rr_name;
  hostname = c_str d.name;
  port = port;
  rrtype = rrtype;
}

abbrev pub named_txt : Bytes → ℕ → Bytes → Result
named_txt rr_name rrtype txt = record result_init {
  instance = copied rr_name;
  txt = c_str txt;
  rrtype = rrtype;
}

abbrev pub option_map : (Decoded → Result) → Option Decoded → Option Result
option_map f none = none
option_map f (some d) = some (f d)

unfoldable pub read_ptr : Bytes → Bytes → ℕ → ℕ → Outcome (Option Result)
read_ptr packet rr_name rrtype rdata_offset =
    attempt (decode_name packet rdata_offset max_name) >>= λ target.
    ok (option_map (named_ptr rr_name rrtype) target)

unfoldable pub read_srv : Bytes → Bytes → ℕ → ℕ → Outcome (Option Result)
read_srv packet rr_name rrtype rdata_offset = do
  port ← read_u16 packet (rdata_offset + 4)
  target ← attempt (decode_name packet (rdata_offset + 4 + 2) max_name)
  ok (option_map (named_srv rr_name rrtype port) target)

-- `copy_len` after the two cuts.
abbrev pub txt_copy_len : ℕ → ℕ → ℕ
txt_copy_len txt_len rdlength =
    let cut = if ltb (rdlength - 1) txt_len then rdlength - 1 else txt_len in
    if leb max_txt cut then max_txt - 1 else cut

unfoldable pub read_txt : Bytes → Bytes → ℕ → ℕ → ℕ → Outcome (Option Result)
read_txt packet rr_name rrtype rdata_offset rdlength = do
  txt_len ← byte_at packet rdata_offset
  txt ← bytes_at packet (rdata_offset + 1) (txt_copy_len txt_len rdlength)
  ok (some (named_txt rr_name rrtype txt))

-- The member `address`, which `umdns_result_init` has cleared, behind the call of `inet_ntop`.
abbrev pub address_text : Option Text → Text
address_text none = []
address_text (some text) = text

unfoldable pub read_address :
    (Bytes → ℕ → Option Text) → Bytes → Bytes → ℕ → ℕ → ℕ → Outcome (Option Result)
read_address ntop packet rr_name rrtype rdata_offset size = do
  addr ← bytes_at packet rdata_offset size
  ok (some (named_address rr_name rrtype (address_text (ntop addr max_name))))

-- What a record adds to the results, by its type and the length of its data.
unfoldable pub read_rdata : Inet → Bytes → Bytes → ℕ → ℕ → ℕ → Outcome (Option Result)
read_rdata net packet rr_name rrtype rdata_offset rdlength =
    if rrtype == rr_a && rdlength == 4
    then read_address net.ntop4 packet rr_name rrtype rdata_offset 4
    else if rrtype == rr_aaaa && rdlength == 16
    then read_address net.ntop6 packet rr_name rrtype rdata_offset 16
    else if rrtype == rr_ptr
    then read_ptr packet rr_name rrtype rdata_offset
    else if rrtype == rr_srv && leb 6 rdlength
    then read_srv packet rr_name rrtype rdata_offset
    else if rrtype == rr_txt && leb 1 rdlength
    then read_txt packet rr_name rrtype rdata_offset rdlength
    else ok none

-- What one round of the loop over the answers gives: a result or none, and the next offset.
pub record Parsed : Type 0 where
  pub result : Option Result
  pub next : ℕ

-- One round; `err` is its `break`.
unfoldable pub parse_record : Inet → Bytes → ℕ → Outcome Parsed
parse_record net packet offset = do
  d ← decode_name packet offset max_name
  require (not (ltb (length packet) (d.offset + 10)))
  rrtype ← read_u16 packet d.offset
  rrclass ← read_u16 packet (d.offset + 2)
  ttl ← read_u32 packet (d.offset + 4)
  rdlength ← read_u16 packet (d.offset + 8)
  let rdata_offset = d.offset + 10
  require (not (ltb (length packet) (rdata_offset + rdlength)))
  result ← read_rdata net packet d.name rrtype rdata_offset rdlength
  ok (record { result = result; next = rdata_offset + rdlength })

abbrev pub cons_result : Option Result → List Result → List Result
cons_result none rs = rs
cons_result (some r) rs = r ∷ rs

-- The places left in the array.
abbrev pub room_after : Option Result → ℕ → ℕ
room_after none room = room
room_after (some r) room = room - 1

-- The loop over the answers, with the places left in the array.
unfoldable pub parse_records : ℕ → Inet → Bytes → ℕ → ℕ → Outcome (List Result)
parse_records zero net packet offset room = ok []
parse_records (suc n) net packet offset room =
    if room == 0
    then ok []
    else (attempt (parse_record net packet offset) >>= λ round. elim round [
      | none ↦ ok []
      | some p ↦ parse_records n net packet p.next (room_after p.result room) >>= λ rs.
          ok (cons_result p.result rs)
    ])

-- `umdns_mdns_parse_answers` with a `results` that is not NULL.
unfoldable pub parse_answers : Inet → Bytes → ℕ → Outcome (List Result)
parse_answers net packet max_results =
    if ltb (length packet) header_len || max_results == 0 then ok [] else (do
      qdcount ← read_u16 packet 4
      ancount ← read_u16 packet 6
      start ← attempt (skip_questions qdcount packet header_len)
      elim start [
        | none ↦ ok []
        | some offset ↦ parse_records ancount net packet offset max_results
      ])
