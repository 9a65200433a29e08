-- ===== src/Answers/Safety.antt =====
-- `umdns_mdns_parse_answers` on any packet.
use umdns.Answers.Rows.{
  read_rdata-Ensures, skip_questions-Ensures, nothing, decode-Ensures, AreRowsWith, AreResults,
  AllRows,
}
use umdns.Answers.{
  address_text, cons_result, room_after, header_len, parse_records, parse_answers, none, some, [],
  length, Option, skip_questions, read_rdata, Parsed, parse_record,
}
use umdns.Inet.{IsPrinting, FitsIn, Inet}
use umdns.Message.{Result}
use umdns.Name.Safety.{IsBounded}
use umdns.Name.{max_name, decode_name}
use umdns.Outcome.{Ensures, Ensures-bind, Ensures-require, Ensures-if, Ensures-attempt, attempt}
use umdns.Prelude.{
  refl, ◌≡◌, ◌==◌, ◌||◌, ◌≢◌, List, zero, suc, ◌≤◌, ◌+◌, All, not, length, ltb, ◌<◌, none, ◌^◌,
  some, arith, [], ◌<◌, Option, ℕ,
}
use umdns.Text.{Bytes, Text}
use umdns.Wire.Reads.{read_u16-Ensures, read_u32-Ensures}
use umdns.Wire.{IsByte, read_u16, read_u32}

module _ (Addr : Text → Type 0) (empty : Addr []) (net : Inet)
    (printed4 : (a : Bytes) → Addr (address_text (net.ntop4 a max_name)))
    (printed6 : (a : Bytes) → Addr (address_text (net.ntop6 a max_name))) (packet : Bytes)
    (bytes : All IsByte packet) where
  abbrev AreRows : ℕ → List Result → Type 0
  AreRows room rs = AreRowsWith Addr room rs

  -- A round leaves the offset inside of the packet.
  abbrev IsRound : Parsed → Type 0
  IsRound p = AllRows Addr p.result × (p.next ≤ length packet)

  abbrev AllRounds : Option Parsed → Type 0
  AllRounds none = Unit {0}
  AllRounds (some p) = IsRound p

  abbrev AllStarts : Option ℕ → Type 0
  AllStarts none = Unit {0}
  AllStarts (some offset) = offset ≤ length packet

  parse_record-Ensures :
      (offset : ℕ) → offset ≤ length packet → Ensures IsRound (parse_record net packet offset)
  unfolding parse_record
  parse_record-Ensures offset h =
      Ensures-bind (IsBounded packet max_name) IsRound (decode_name packet offset max_name) _
        (decode-Ensures packet offset h)
        λ d b. Ensures-require IsRound (not (ltb (length packet) (d.offset + 10))) _ λ head.
          let room : d.offset + 10 ≤ length packet = ground arith in
          Ensures-bind (λ v. v < 2 ^ 16) IsRound (read_u16 packet d.offset) _
            (read_u16-Ensures packet d.offset bytes (omega arith))
            λ rrtype t.
              Ensures-bind (λ v. v < 2 ^ 16) IsRound (read_u16 packet (d.offset + 2)) _
                (read_u16-Ensures packet (d.offset + 2) bytes (omega arith))
                λ rrclass c.
                  Ensures-bind (λ v. v < 2 ^ 32) IsRound (read_u32 packet (d.offset + 4)) _
                    (read_u32-Ensures packet (d.offset + 4) bytes (omega arith))
                    λ ttl l.
                      Ensures-bind (λ v. v < 2 ^ 16) IsRound (read_u16 packet (d.offset + 8)) _
                        (read_u16-Ensures packet (d.offset + 8) bytes (omega arith))
                        λ rdlength r.
                          Ensures-require IsRound
                            (not (ltb (length packet) (d.offset + 10 + rdlength))) _
                            λ whole.
                              let inside : d.offset + 10 + rdlength ≤ length packet =
                                ground arith in
                              Ensures-bind (AllRows Addr) IsRound
                                (read_rdata net packet d.name rrtype (d.offset + 10) rdlength) _
                                (read_rdata-Ensures Addr empty net printed4 printed6 packet bytes
                                  d.name rrtype b.0 t (d.offset + 10) rdlength inside)
                                λ result good. (good, inside)

  cons_result-AreRows :
      (r : Option Result) (room : ℕ) (rs : List Result)
      → room ≢ 0
      → (AllRows Addr) r
      → AreRows (room_after r room) rs
      → AreRows room (cons_result r rs)
  cons_result-AreRows none room rs ne h k = k
  cons_result-AreRows (some r) room rs ne h k = (omega arith, (h, k.1))

  parse_records-Ensures :
      (n offset room : ℕ)
      → offset ≤ length packet
      → Ensures (AreRows room) (parse_records n net packet offset room)
  unfolding parse_records
  parse_records-Ensures zero offset room h = (omega arith, tt)
  parse_records-Ensures (suc n) offset room h =
      Ensures-if (AreRows room) (room == 0) _ _ (λ full. (omega arith, tt))
        λ more.
          Ensures-bind AllRounds (AreRows room) (attempt (parse_record net packet offset)) _
            (Ensures-attempt IsRound AllRounds _ (parse_record-Ensures offset h) (λ p r. r) tt)
            (elim [
              | none ↦ λ _. (omega arith, tt)
              | some p ↦ λ r.
                  Ensures-bind (AreRows (room_after p.result room)) (AreRows room)
                    (parse_records n net packet p.next (room_after p.result room)) _
                    (parse_records-Ensures n p.next (room_after p.result room) r.1)
                    (λ rs good. cons_result-AreRows p.result room rs (ground arith) r.0 good)
            ])

  parse_answers-Rows :
      (max_results : ℕ) → Ensures (AreRows max_results) (parse_answers net packet max_results)
  unfolding parse_answers
  parse_answers-Rows max_results =
      Ensures-if (AreRows max_results) (ltb (length packet) header_len || max_results == 0) _ _
        (λ _. (omega arith, tt))
        λ long.
          let room : 12 ≤ length packet = ground arith in
          Ensures-bind (λ v. v < 2 ^ 16) (AreRows max_results) (read_u16 packet 4) _
            (read_u16-Ensures packet 4 bytes (omega arith))
            λ qdcount q.
              Ensures-bind (λ v. v < 2 ^ 16) (AreRows max_results) (read_u16 packet 6) _
                (read_u16-Ensures packet 6 bytes (omega arith))
                λ ancount a.
                  Ensures-bind AllStarts (AreRows max_results)
                    (attempt (skip_questions qdcount packet header_len)) _
                    (Ensures-attempt (λ end. end ≤ length packet) AllStarts _
                      (skip_questions-Ensures packet qdcount header_len room) (λ end e. e) tt)
                    (elim [
                      | none ↦ λ _. (omega arith, tt)
                      | some offset ↦ λ e. parse_records-Ensures ancount offset max_results e
                    ])

-- The same of the members that the parser itself writes.
pub parse_answers-Results :
    (net : Inet) (packet : Bytes)
    → All IsByte packet
    → (max_results : ℕ) → Ensures (AreResults max_results) (parse_answers net packet max_results)
parse_answers-Results net packet bytes =
    parse_answers-Rows (λ t. Unit {0}) tt net (λ a. tt) (λ a. tt) packet bytes

address_text-FitsIn :
    (o : Option Text)
    → ((t : Text) → o ≡ some t → FitsIn max_name t)
    → FitsIn max_name (address_text o)
address_text-FitsIn none h = nothing
address_text-FitsIn (some t) h = h t refl

-- Whatever bytes arrive, the parser ends without an access outside of an array, with at most
-- `max_results` results, and each of them fits `umdns_result_t`, if `inet_ntop` writes texts that fit the
-- array.
pub parse_answers-Ensures :
    (net : Inet) (packet : Bytes)
    → IsPrinting net
    → All IsByte packet
    → (max_results : ℕ)
    → Ensures (AreRowsWith (FitsIn max_name) max_results) (parse_answers net packet max_results)
parse_answers-Ensures net packet printing bytes =
    parse_answers-Rows (FitsIn max_name) nothing net
      (λ a. address_text-FitsIn (net.ntop4 a max_name) (printing.ntop4_fits a max_name))
      (λ a. address_text-FitsIn (net.ntop6 a max_name) (printing.ntop6_fits a max_name)) packet
      bytes
