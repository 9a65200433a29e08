-- ===== src/Query/Safety.antt =====
-- `umdns_mdns_parse_question` on any packet.
use umdns.Message.{header_len, Question}
use umdns.Name.Safety.{decode_name-Ensures, IsBounded}
use umdns.Name.{max_name, decode_name}
use umdns.Outcome.{Ensures, Ensures-bind, Ensures-require}
use umdns.Prelude.{◌+◌, arith, ◌≤◌, not, length, ltb, ◌<◌, ◌==◌, ◌^◌, ltb, ◌<◌, length, All}
use umdns.Query.{parse_question}
use umdns.Text.Laws.{c_str-IsText, length-c_str}
use umdns.Text.{Bytes, IsText}
use umdns.Wire.Reads.{read_u16-Ensures}
use umdns.Wire.{IsByte, read_u16}

-- The question fits its struct.
pub record IsQuestion (q : Question) : Type 0 where
  pub name_fits : length q.name < max_name
  pub name_text : IsText q.name
  pub qtype_fits : q.qtype < 2 ^ 16

-- Whatever bytes arrive, the parser ends without an access outside of an array, and a question that
-- it returns fits `umdns_question_t`.
pub parse_question-Ensures :
    (packet : Bytes) → All IsByte packet → Ensures IsQuestion (parse_question packet)
unfolding parse_question
parse_question-Ensures packet bytes =
    Ensures-require IsQuestion (not (ltb (length packet) header_len)) _ λ long.
      let room : 12 ≤ length packet = ground arith in
      Ensures-bind (λ v. v < 2 ^ 16) IsQuestion (read_u16 packet 4) _
        (read_u16-Ensures packet 4 bytes (omega arith))
        λ qdcount lt. Ensures-require IsQuestion (not (qdcount == 0)) _ λ more.
          Ensures-bind (IsBounded packet max_name) IsQuestion
            (decode_name packet header_len max_name) _
            (decode_name-Ensures packet header_len max_name room (omega arith))
            λ d bounded.
              Ensures-require IsQuestion (not (ltb (length packet) (d.offset + 4))) _ λ whole.
                Ensures-bind (λ v. v < 2 ^ 16) IsQuestion (read_u16 packet d.offset) _
                  (read_u16-Ensures packet d.offset bytes (ground arith))
                  λ qtype fits. record {
                    name_fits = omega (arith, length-c_str d.name);
                    name_text = c_str-IsText d.name;
                    qtype_fits = fits;
                  }
