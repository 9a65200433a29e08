-- ===== src/Answers/RoundTrip.antt =====
-- A whole response message, as the client and the browser read it.
use umdns.Answers.Record.{Rr, IsRr, rr_bytes, result_of, parse_record-rr_bytes}
use umdns.Answers.{parse_records, parse_answers, skip_questions}
use umdns.Header.{zeros, header_bytes}
use umdns.Inet.{Inet}
use umdns.Outcome.{ok}
use umdns.Prelude.{
  ◌==◌, length-append, append_assoc, sym, arith, ◌∙◌, le→ltb_false, ◌-◌, false, ◌+◌, ltb, map, ◌^◌,
  take, ◌≡◌, ◌<◌, ◌++◌, length, All, List, ℕ, zero, suc, [], ◌∷◌, refl,
}
use umdns.Text.{Bytes}
use umdns.Wire.Reads.{read_u16-append}
use umdns.Wire.{read_u16, u16_bytes}

abbrev pub rrs_bytes : List Rr → Bytes
rrs_bytes [] = []
rrs_bytes (r ∷ rs) = rr_bytes r ++ rrs_bytes rs

-- An authoritative response with these records as its answers.
abbrev pub response_bytes : List Rr → Bytes
response_bytes rs = header_bytes 0x8400 0 (length rs) ++ rrs_bytes rs

parse_records-rrs_bytes :
    (net : Inet) (rs : List Rr) (packet front : Bytes) (offset room : ℕ)
    → All IsRr rs
    → packet ≡ front ++ rrs_bytes rs
    → offset ≡ length front
    → parse_records (length rs) net packet offset room ≡ ok (take room (map (result_of net) rs))
unfolding parse_records
parse_records-rrs_bytes net [] packet front offset zero good e at = refl
parse_records-rrs_bytes net [] packet front offset (suc room) good e at = refl
parse_records-rrs_bytes net (r ∷ rs) packet front offset zero good e at = refl
parse_records-rrs_bytes net (r ∷ rs) packet front offset (suc room) good e at =
    let later =
      parse_records-rrs_bytes net rs packet (front ++ rr_bytes r) (offset + length (rr_bytes r))
        (suc room - 1) good.1 (e ∙ sym (append_assoc front (rr_bytes r) (rrs_bytes rs)))
        (omega (arith, length-append front (rr_bytes r))) in
    let left : suc room - 1 ≡ room = omega arith in
    let some_room : (suc room == 0) ≡ false = ground arith in
    rw (
      some_room,
      parse_record-rr_bytes net packet front (rrs_bytes rs) r offset good.0 e at,
      later,
      left,
    )

-- A parser with room for `max_results` rows gives the rows of the first records of a response.
pub parse_answers-response_bytes :
    (net : Inet) (rs : List Rr) (max_results : ℕ)
    → All IsRr rs
    → length rs < 2 ^ 16
    → parse_answers net (response_bytes rs) max_results
      ≡ ok (take max_results (map (result_of net) rs))
unfolding parse_answers skip_questions
parse_answers-response_bytes net rs zero good few =
    let long : ltb (length (response_bytes rs)) 12 ≡ false = le→ltb_false _ _ (omega arith) in
    rw long
parse_answers-response_bytes net rs (suc n) good few =
    let packet = response_bytes rs in
    let long : ltb (length packet) 12 ≡ false = le→ltb_false _ _ (omega arith) in
    let none_asked : read_u16 packet 4 ≡ ok 0 =
      read_u16-append (u16_bytes 0 ++ u16_bytes 0x8400) 0
        (u16_bytes (length rs) ++ (zeros 4 ++ rrs_bytes rs)) 4 (omega arith) refl in
    let answers : read_u16 packet 6 ≡ ok (length rs) =
      read_u16-append (u16_bytes 0 ++ (u16_bytes 0x8400 ++ u16_bytes 0)) (length rs)
        (zeros 4 ++ rrs_bytes rs) 6 few refl in
    let some_room : (suc n == 0) ≡ false = ground arith in
    rw (long, some_room, none_asked, answers)
      (parse_records-rrs_bytes net rs packet (header_bytes 0x8400 0 (length rs)) 12 (suc n) good
        refl refl)
