-- ===== src/Tests/Names.antt =====
-- Names: what the encoder writes, and what the decoder makes of it and of broken packets.
use umdns.Name.Encode.{encode, encodable, append_name-filled}
use umdns.Name.RoundTrip.{decode_name-encode}
use umdns.Name.Safety.{IsBounded, decode_name-Ensures}
use umdns.Name.{
  max_name, tokens, split_dots, append_name, decode_name, decode_name_internal, decode_loop,
  is_pointer, pointer_to, follow_pointer, copy_label, more_follows,
}
use umdns.Outcome.{ok, err, Ensures}
use umdns.Prelude.{length, drop, ◌++◌, if◌then◌else◌, ◌∷◌, [], List, ◌≡◌, refl, arith}
use umdns.Text.{Text, Bytes, codes, snprintf}
use umdns.Wire.Laws.{filled}
use umdns.Wire.{byte_at, bytes_at}

abbrev www_labels : List Text
www_labels = codes "www" ∷ codes "a" ∷ codes "org" ∷ []

tokens_run : tokens (codes ".www..a.org.") ≡ www_labels
unfolding tokens split_dots
tokens_run = refl

abbrev packet : Bytes
packet = 9 ∷ 9 ∷ (encode www_labels ++ (0xC0 ∷ 6 ∷ 7 ∷ []))

-- A compression pointer in front of the last byte, at the label "a".
pointer_run : decode_name packet 13 max_name ≡ ok (record { name = codes "a.org"; offset = 15 })
unfolding decode_name decode_name_internal decode_loop is_pointer pointer_to follow_pointer
    copy_label more_follows byte_at bytes_at
pointer_run = refl

-- A pointer to itself ends in an error after ten jumps.
self_pointer_run : decode_name (0xC0 ∷ 0 ∷ []) 0 max_name ≡ err
unfolding decode_name decode_name_internal decode_loop is_pointer pointer_to follow_pointer
    copy_label more_follows byte_at bytes_at
self_pointer_run = refl

append_name-filled_example :
    append_name 8 (codes "ab.c") (filled [] (0 ∷ 0 ∷ 0 ∷ 0 ∷ 0 ∷ 0 ∷ 0 ∷ 0 ∷ [])) ≡ (
      let ts = tokens (snprintf max_name (codes "ab.c")) in
      if encodable ts 8
      then ok (filled (encode ts) (drop (length (encode ts)) (0 ∷ 0 ∷ 0 ∷ 0 ∷ 0 ∷ 0 ∷ 0 ∷ 0 ∷ [])))
      else err)
append_name-filled_example =
    append_name-filled (codes "ab.c") 8 [] (0 ∷ 0 ∷ 0 ∷ 0 ∷ 0 ∷ 0 ∷ 0 ∷ 0 ∷ []) refl

decode_name-encode_example :
    decode_name packet 2 max_name ≡ ok (record { name = codes "www.a.org"; offset = 13 })
decode_name-encode_example =
    decode_name-encode www_labels (9 ∷ 9 ∷ []) (0xC0 ∷ 6 ∷ 7 ∷ []) 2 max_name refl (omega arith)
      refl (omega arith)

decode_name-Ensures_example :
    Ensures (IsBounded (0xC0 ∷ 0 ∷ []) 256) (decode_name (0xC0 ∷ 0 ∷ []) 0 256)
decode_name-Ensures_example = decode_name-Ensures (0xC0 ∷ 0 ∷ []) 0 256 (omega arith) (omega arith)
