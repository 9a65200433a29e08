-- ===== src/Query.antt =====
-- Questions: `umdns_mdns_build_query` and `umdns_mdns_parse_question` of src/common/mdns.c.
-- `err` is the return value 0 of the first and -1 of the second.
pub mod RoundTrip
pub mod Safety
use umdns.Message.{header_len, Question}
use umdns.Name.{max_name, append_name, decode_name}
use umdns.Header.{blank}
use umdns.Outcome.{Outcome, ok, require, ◌>>=◌, ◌>>◌}
use umdns.Prelude.{ℕ, ◌+◌, not, Option, ltb, ◌==◌, length, replicate}
use umdns.Text.{Bytes, Text, c_str, normalize_local_name}
use umdns.Wire.{read_u16, write_u16, Writer, emit_u16}

-- The question that `umdns_mdns_build_query` writes behind the header, of class IN.
unfoldable pub append_question : ℕ → ℕ → Text → Writer → Outcome Writer
append_question out_len qtype fqdn w = do
  w ← append_name out_len fqdn w
  require (not (ltb out_len (w.offset + 4)))
  w ← emit_u16 qtype w
  emit_u16 0x0001 w

-- `umdns_mdns_build_query`: the buffer and the length returned.
unfoldable pub build_query : ℕ → Option Text → ℕ → Outcome Writer
build_query qtype name out_len = do
  require (not (ltb out_len header_len))
  let fqdn = normalize_local_name name max_name
  w ← append_question out_len qtype fqdn (blank out_len)
  out ← write_u16 w.out 4 1
  ok (record { out = out; offset = w.offset })

-- `umdns_mdns_parse_question`.
unfoldable pub parse_question : Bytes → Outcome Question
parse_question packet = do
  require (not (ltb (length packet) header_len))
  qdcount ← read_u16 packet 4
  require (not (qdcount == 0))
  d ← decode_name packet header_len max_name
  require (not (ltb (length packet) (d.offset + 4)))
  qtype ← read_u16 packet d.offset
  ok (record { name = c_str d.name; qtype = qtype })
