-- ===== src/Query/RoundTrip.antt =====
-- A query that the client or the browser builds, as the server reads it.
use umdns.Header.{zeros, header_bytes, blank-Filled, labels_of, write_qdcount}
use umdns.Wire.Reads.{read_u16-append}
use umdns.Name.RoundTrip.{decode_name-encode}
use umdns.Header.{labels_of-All, labels_of_lem}
use umdns.Text.Laws.{normalize_local_name-IsText, c_str_lem}
use umdns.Name.Labels.{canonical-IsText, length-encode-join}
use umdns.Prelude.{take-append, ap, take, append_assoc, All, ◌^◌, ◌<◌, List}
use umdns.Outcome.{◌>>=◌}
use umdns.Name.{max_name, append_name, tokens}
use umdns.Name.Encode.{append_name-Appends, encode, all_short}
use umdns.Name.Labels.{IsToken, join, canonical}
use umdns.Outcome.{ok}
use umdns.Prelude.{
  refl, le→ltb_false, false, ltb, length-append, ◌∙◌, ap, length, arith, ◌+◌, true, ◌≡◌, some, ◌≤◌,
  ◌++◌, List, ℕ,
}
use umdns.Query.{
  read_u16, c_str, emit_u16, append_question, Writer, normalize_local_name, build_query,
  parse_question,
}
use umdns.Text.{snprintf, Bytes, Text, IsText}
use umdns.Wire.Appends.{Appends-require, Appends-bind, Appends, emit_u16-Appends, Filled}
use umdns.Wire.Laws.{filled}
use umdns.Wire.{u16_bytes}

-- A query message: one question, of class IN.
abbrev pub query_bytes : ℕ → List Text → Bytes
query_bytes qtype ts = header_bytes 0 1 0 ++ (encode ts ++ (u16_bytes qtype ++ u16_bytes 1))

append_question-Appends :
    (out_len qtype : ℕ) (fqdn : Text)
    → all_short (tokens (snprintf max_name fqdn)) ≡ true
    → Appends out_len
        (append_question out_len qtype fqdn)
        (encode (tokens (snprintf max_name fqdn)) ++ (u16_bytes qtype ++ u16_bytes 1))
unfolding append_question
append_question-Appends out_len qtype fqdn short =
    Appends-bind out_len (append_name out_len fqdn) _ _ _ (append_name-Appends out_len fqdn short) (
      Appends-require out_len 4 (λ w. emit_u16 qtype w >>= emit_u16 1) _ (omega arith)
        (Appends-bind out_len (emit_u16 qtype) (emit_u16 1) _ _ (emit_u16-Appends out_len qtype)
          (emit_u16-Appends out_len 1)))

-- The query message is written exactly so, with the length of it as the result.
pub build_query-Filled :
    (qtype : ℕ) (name : Text) (out_len : ℕ)
    → all_short (labels_of name) ≡ true
    → 16 + length (encode (labels_of name)) ≤ out_len
    → Filled out_len (build_query qtype (some name) out_len) (query_bytes qtype (labels_of name))
unfolding build_query
build_query-Filled qtype name out_len short room =
    let fqdn = normalize_local_name (some name) max_name in
    let body = encode (labels_of name) ++ (u16_bytes qtype ++ u16_bytes 1) in
    let (r0, b0, l0) = blank-Filled out_len (omega arith) in
    let (r, b, l) =
      append_question-Appends out_len qtype fqdn short (zeros 12) r0 l0
        (omega (arith, length-append (encode (labels_of name)) (u16_bytes qtype ++ u16_bytes 1))) in
    let room0 : ltb out_len 12 ≡ false = le→ltb_false _ _ (omega arith) in
    (r, rw (room0, b0, b, write_qdcount body r), l)

-- A server reads the question of a query message as it was asked, with the name in canonical form.
parse_question-query_bytes :
    (qtype : ℕ) (ts : List Text)
    → qtype < 2 ^ 16
    → All IsToken ts
    → all_short ts ≡ true
    → length (join ts) + 2 ≤ max_name
    → parse_question (query_bytes qtype ts) ≡ ok (record { name = c_str (join ts); qtype = qtype })
unfolding parse_question
parse_question-query_bytes qtype ts q all short room =
    let behind = u16_bytes qtype ++ u16_bytes 1 in
    let head = header_bytes 0 1 0 in
    let size : length (query_bytes qtype ts) ≡ 16 + length (encode ts) =
      omega (arith, length-append (encode ts) behind) in
    let big : ltb (length (query_bytes qtype ts)) 12 ≡ false = le→ltb_false _ _ (omega arith) in
    let one : read_u16 (query_bytes qtype ts) 4 ≡ ok 1 =
      read_u16-append (u16_bytes 0 ++ u16_bytes 0) 1
        (u16_bytes 0 ++ (zeros 4 ++ (encode ts ++ behind))) 4 (omega arith) refl in
    let named = decode_name-encode ts head behind 12 max_name refl all short room in
    let kept : ltb (length (query_bytes qtype ts)) (12 + length (encode ts) + 4) ≡ false =
      le→ltb_false _ _ (omega arith) in
    let asked : read_u16 (query_bytes qtype ts) (12 + length (encode ts)) ≡ ok qtype =
      rw (← append_assoc head (encode ts) behind)
        (read_u16-append (head ++ encode ts) qtype (u16_bytes 1) _ q (omega arith)) in
    rw (big, one, named, kept, asked)

-- The message that the caller sends from a filled buffer.
abbrev pub message : Writer → Bytes
message w = take w.offset w.out

-- The name asked for, made local and in canonical form.
abbrev pub asked_name : Text → Text
asked_name name = canonical (normalize_local_name (some name) max_name)

-- Whatever name is asked for, with labels of at most 63 bytes and 254 bytes in all, the query is
-- built in a buffer of 272 bytes, and the parser reads back the normalised name and the type.
pub parse_question-build_query :
    (qtype : ℕ) (name : Text) (out_len : ℕ)
    → IsText name
    → qtype < 2 ^ 16
    → all_short (labels_of name) ≡ true
    → length (asked_name name) ≤ 254
    → 272 ≤ out_len
    → (w : Writer) × (build_query qtype (some name) out_len ≡ ok w)
      × (parse_question (message w) ≡ ok (record { name = asked_name name; qtype = qtype }))
unfolding canonical
parse_question-build_query qtype name out_len text q short fits room =
    let ts = labels_of name in
    let plain = normalize_local_name-IsText name max_name text in
    let same : join ts ≡ asked_name name = ap join (labels_of_lem name) in
    let len = ap length same in
    let (rest, b, l) =
      build_query-Filled qtype name out_len short (omega (arith, length-encode-join ts)) in
    let m = query_bytes qtype ts in
    (
      filled m rest,
      b,
      rw (take-append (length m) m rest refl) (
          parse_question-query_bytes qtype ts q (labels_of-All name text) short (omega arith)
          ∙ rw (same, c_str_lem (asked_name name) (canonical-IsText _ plain))),
    )
