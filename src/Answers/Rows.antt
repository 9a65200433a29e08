-- ===== src/Answers/Rows.antt =====
-- One record of an answer, on any packet of src/common/mdns.c.
use umdns.Answers.{
  address_text, rr_txt, rr_srv, rr_ptr, rr_aaaa, rr_a, txt_copy_len, none, some, [], length, Option,
  skip_questions, copied, read_ptr, read_srv, read_txt, read_address, read_rdata,
}
use umdns.Inet.{FitsIn, Inet}
use umdns.Message.{max_txt, Result}
use umdns.Name.Safety.{decode_name-Ensures, IsBounded}
use umdns.Name.{max_name, decode_name, Decoded}
use umdns.Outcome.{Ensures, Ensures-bind, Ensures-require, Ensures-if, Ensures-attempt, attempt}
use umdns.Prelude.{
  leb, ◌&&◌, ◌==◌, List, zero, suc, ◌≤◌, ◌+◌, All, not, length, ltb, ◌<◌, none, ◌^◌, some, arith,
  [], ◌<◌, Option, ℕ,
}
use umdns.Text.Laws.{c_str-IsText, length-c_str, copy_string_fits}
use umdns.Text.{Bytes, Text, c_str}
use umdns.Wire.Reads.{byte_at-Ensures, read_u16-Ensures, bytes_at_bounds}
use umdns.Wire.{IsByte, byte_at, read_u16}

-- The result fits `umdns_result_t`, with this said of its address.
pub record IsRow (Addr : Text → Type 0) (r : Result) : Type 0 where
  pub instance_fits : FitsIn max_name r.instance
  pub hostname_fits : FitsIn max_name r.hostname
  pub service_type_fits : FitsIn max_name r.service_type
  pub port_fits : r.port < 2 ^ 16
  pub address_fits : Addr r.address
  pub txt_fits : FitsIn max_txt r.txt
  pub rrtype_fits : r.rrtype < 2 ^ 16

-- So many results at most, and each fits its struct, with this said of the addresses.
abbrev pub AreRowsWith : (Text → Type 0) → ℕ → List Result → Type 0
AreRowsWith Addr room rs = (length rs ≤ room) × All (IsRow Addr) rs

-- Results of which nothing is said of the address, which `inet_ntop` writes.
abbrev pub IsResult : Result → Type 0
IsResult r = IsRow (λ t. Unit {0}) r

abbrev pub AreResults : ℕ → List Result → Type 0
AreResults room rs = AreRowsWith (λ t. Unit {0}) room rs

c_str-FitsIn : (size : ℕ) (s : Bytes) → length s < size → FitsIn size (c_str s)
c_str-FitsIn size s h = (omega (arith, length-c_str s), c_str-IsText s)

copied-FitsIn : (s : Bytes) → length s < max_name → FitsIn max_name (copied s)
copied-FitsIn s h =
    rw (copy_string_fits [] (c_str s) max_name (omega (arith, length-c_str s)))
      (c_str-FitsIn max_name s h)

abbrev AllTargets : Option Decoded → Type 0
AllTargets none = Unit {0}
AllTargets (some d) = length d.name < max_name

pub nothing : {size : ℕ} → FitsIn (suc size) []
nothing = (omega arith, tt)

module _ (packet : Bytes) where
  -- A name at an offset inside of the packet.
  pub decode-Ensures :
      (offset : ℕ)
      → offset ≤ length packet
      → Ensures (IsBounded packet max_name) (decode_name packet offset max_name)
  decode-Ensures offset h = decode_name-Ensures packet offset max_name h (omega arith)

  pub skip_questions-Ensures :
      (n offset : ℕ)
      → offset ≤ length packet
      → Ensures (λ end. end ≤ length packet) (skip_questions n packet offset)
  unfolding skip_questions
  skip_questions-Ensures zero offset h = h
  skip_questions-Ensures (suc n) offset h =
      Ensures-bind (IsBounded packet max_name) _ (decode_name packet offset max_name) _
        (decode-Ensures offset h)
        λ d b.
          Ensures-require (λ end. end ≤ length packet) (not (ltb (length packet) (d.offset + 4))) _
            λ whole. skip_questions-Ensures n (d.offset + 4) (ground arith)

abbrev pub AllRows : (Text → Type 0) → Option Result → Type 0
AllRows Addr none = Unit {0}
AllRows Addr (some r) = IsRow Addr r

module _ (Addr : Text → Type 0) (empty : Addr []) (net : Inet)
    (printed4 : (a : Bytes) → Addr (address_text (net.ntop4 a max_name)))
    (printed6 : (a : Bytes) → Addr (address_text (net.ntop6 a max_name))) (packet : Bytes)
    (bytes : All IsByte packet) where
  module _ (rr_name : Bytes) (rrtype : ℕ) (n : length rr_name < max_name)
      (t : rrtype < 2 ^ 16) where
    read_address-Ensures :
        (ntop : Bytes → ℕ → Option Text) (at size : ℕ)
        → ((a : Bytes) → Addr (address_text (ntop a max_name)))
        → at + size ≤ length packet
        → Ensures (AllRows Addr) (read_address ntop packet rr_name rrtype at size)
    unfolding read_address
    read_address-Ensures ntop at size printed h =
        let (addr, e, l) = bytes_at_bounds packet at size h in
        rw e (record {
          instance_fits = nothing;
          hostname_fits = copied-FitsIn rr_name n;
          service_type_fits = nothing;
          port_fits = omega arith;
          address_fits = printed addr;
          txt_fits = nothing;
          rrtype_fits = t;
        })

    read_ptr-Ensures :
        (at : ℕ) → at ≤ length packet → Ensures (AllRows Addr) (read_ptr packet rr_name rrtype at)
    unfolding read_ptr
    read_ptr-Ensures at h =
        Ensures-bind AllTargets (AllRows Addr) (attempt (decode_name packet at max_name)) _
          (Ensures-attempt (IsBounded packet max_name) AllTargets _ (decode-Ensures packet at h)
            (λ d b. b.0) tt)
          (elim [
            | none ↦ λ h'. tt
            | some d ↦ λ h'. record {
              instance_fits = c_str-FitsIn max_name d.name h';
              hostname_fits = nothing;
              service_type_fits = copied-FitsIn rr_name n;
              port_fits = omega arith;
              address_fits = empty;
              txt_fits = nothing;
              rrtype_fits = t;
            }
          ])

    read_srv-Ensures :
        (at : ℕ)
        → at + 6 ≤ length packet
        → Ensures (AllRows Addr) (read_srv packet rr_name rrtype at)
    unfolding read_srv
    read_srv-Ensures at h =
        Ensures-bind (λ v. v < 2 ^ 16) (AllRows Addr) (read_u16 packet (at + 4)) _
          (read_u16-Ensures packet (at + 4) bytes (omega arith))
          λ port p.
            Ensures-bind AllTargets (AllRows Addr)
              (attempt (decode_name packet (at + 4 + 2) max_name)) _
              (Ensures-attempt (IsBounded packet max_name) AllTargets _
                (decode-Ensures packet (at + 4 + 2) (omega arith)) (λ d b. b.0) tt)
              (elim [
                | none ↦ λ h'. tt
                | some d ↦ λ h'. record {
                  instance_fits = copied-FitsIn rr_name n;
                  hostname_fits = c_str-FitsIn max_name d.name h';
                  service_type_fits = nothing;
                  port_fits = p;
                  address_fits = empty;
                  txt_fits = nothing;
                  rrtype_fits = t;
                }
              ])

    read_txt-Ensures :
        (at rdlength : ℕ)
        → 1 ≤ rdlength
        → at + rdlength ≤ length packet
        → Ensures (AllRows Addr) (read_txt packet rr_name rrtype at rdlength)
    unfolding read_txt
    read_txt-Ensures at rdlength one h =
        Ensures-bind IsByte (AllRows Addr) (byte_at packet at) _
          (byte_at-Ensures packet at bytes (omega arith))
          λ txt_len b.
            let (txt, e, l) =
              bytes_at_bounds packet (at + 1) (txt_copy_len txt_len rdlength) (ground arith) in
            rw e (record {
              instance_fits = copied-FitsIn rr_name n;
              hostname_fits = nothing;
              service_type_fits = nothing;
              port_fits = omega arith;
              address_fits = empty;
              txt_fits = c_str-FitsIn max_txt txt (ground arith);
              rrtype_fits = t;
            })

    pub read_rdata-Ensures :
        (at rdlength : ℕ)
        → at + rdlength ≤ length packet
        → Ensures (AllRows Addr) (read_rdata net packet rr_name rrtype at rdlength)
    unfolding read_rdata
    read_rdata-Ensures at rdlength h =
        Ensures-if (AllRows Addr) (rrtype == rr_a && rdlength == 4) _ _
          (λ a. read_address-Ensures net.ntop4 at 4 printed4 (ground arith))
          λ _.
            Ensures-if (AllRows Addr) (rrtype == rr_aaaa && rdlength == 16) _ _
              (λ a. read_address-Ensures net.ntop6 at 16 printed6 (ground arith))
              λ _.
                Ensures-if (AllRows Addr) (rrtype == rr_ptr) _ _
                  (λ a. read_ptr-Ensures at (omega arith))
                  λ _.
                    Ensures-if (AllRows Addr) (rrtype == rr_srv && leb 6 rdlength) _ _
                      (λ a. read_srv-Ensures at (ground arith))
                      λ _.
                        Ensures-if (AllRows Addr) (rrtype == rr_txt && leb 1 rdlength) _ _
                          (λ a. read_txt-Ensures at rdlength (ground arith) h) λ _. tt
