-- ===== src/Response/Records.antt =====
-- What the record writers append, in bytes.
use umdns.Message.{rr_srv, rr_ptr, rr_txt}
use umdns.Name.Encode.{encode, all_short, append_name-Appends}
use umdns.Name.{max_name, tokens, append_name}
use umdns.Outcome.{require, ◌>>◌, require, Outcome, ok, ◌>>=◌}
use umdns.Prelude.{
  refl, ap, ◌-◌, ltb, suc, not, length-take, length-append, append_assoc, ℕ, ◌+◌, ◌%◌, ◌<◌, ◌≡◌,
  true, List, [], ◌∷◌, ◌++◌, length, take, arith,
}
use umdns.Response.{
  append_srv_data, append_srv, append_ptr, append_rr_header, append_address, append_txt,
  append_measured, flush_class, ttl_seconds, cut_len,
}
use umdns.Text.{Bytes, Text, snprintf}
use umdns.Wire.Appends.{
  Appends-eq, Appends, emit-Appends, emit_u16-Appends, emit_u32-Appends, Appends-bind,
  Appends-require,
}
use umdns.Wire.Laws.{filled, copy_to-append}
use umdns.Wire.{Writer, emit, emit_u16, emit_u32, u16_bytes, u32_bytes, write_u16}

-- The labels that the encoder writes of a name.
abbrev pub labels : Text → List Text
labels name = tokens (snprintf max_name name)

-- Type, class, time to live and data length.
abbrev pub fixed_bytes : ℕ → ℕ → ℕ → ℕ → Bytes
fixed_bytes rrtype rrclass ttl rdlength =
    u16_bytes rrtype ++ (u16_bytes rrclass ++ (u32_bytes ttl ++ u16_bytes rdlength))

-- A record of the program's class and time to live.
abbrev pub record_bytes : List Text → ℕ → Bytes → Bytes
record_bytes ts rrtype rdata =
    encode ts ++ (fixed_bytes rrtype flush_class ttl_seconds (length rdata) ++ rdata)

-- The data of an SRV record of priority and weight 0.
abbrev pub srv_bytes : ℕ → List Text → Bytes
srv_bytes port target = u16_bytes 0 ++ (u16_bytes 0 ++ (u16_bytes port ++ encode target))

-- The data length goes over the two zeros written for it.
write_rdlength :
    (rrtype : ℕ) (labels_bytes front src rest : Bytes) (n v : ℕ)
    → n ≡ length front + length labels_bytes + 8
    → write_u16
        (((front ++ (labels_bytes ++ fixed_bytes rrtype flush_class ttl_seconds 0)) ++ src) ++ rest)
        n
        v
      ≡ ok (
          (front ++ (labels_bytes ++ (fixed_bytes rrtype flush_class ttl_seconds v ++ src)))
          ++ rest)
unfolding write_u16
write_rdlength rrtype labels_bytes front src rest n v e =
    let fixed = u16_bytes rrtype ++ (u16_bytes flush_class ++ u32_bytes ttl_seconds) in
    let at_end : n ≡ length (front ++ (labels_bytes ++ fixed)) =
      omega
        (arith, length-append front (labels_bytes ++ fixed), length-append labels_bytes fixed) in
    let p =
      copy_to-append (front ++ (labels_bytes ++ fixed)) (0 ∷ 0 ∷ []) (src ++ rest) (u16_bytes v) n
        at_end refl in
    simp append_assoc (simp append_assoc at p)

written :
    (rrtype : ℕ) (labels_bytes front src rest : Bytes) (n v offset : ℕ)
    → n ≡ length front + length labels_bytes + 8
    → v ≡ length src
    → offset
      ≡ length (
          front
          ++ (labels_bytes ++ (fixed_bytes rrtype flush_class ttl_seconds (length src) ++ src)))
    → (write_u16
          (((front ++ (labels_bytes ++ fixed_bytes rrtype flush_class ttl_seconds 0)) ++ src)
            ++ rest)
          n
          v
        >>= λ out. let r : Outcome Writer = ok (record { out = out; offset = offset }) in r)
      ≡ ok (
          filled
            (front
              ++ (labels_bytes ++ (fixed_bytes rrtype flush_class ttl_seconds (length src) ++ src)))
            rest)
written rrtype labels_bytes front src rest n v offset e ev eo =
    rw (ev, eo, write_rdlength rrtype labels_bytes front src rest n (length src) e)

module _ (out_len : ℕ) (name : Text) (short : all_short (labels name) ≡ true) where
  append_rr_header-Appends :
      (rrtype rrclass ttl rdlength : ℕ)
      → Appends out_len
          (append_rr_header out_len name rrtype rrclass ttl rdlength)
          (encode (labels name) ++ fixed_bytes rrtype rrclass ttl rdlength)
  unfolding append_rr_header
  append_rr_header-Appends rrtype rrclass ttl rdlength =
      Appends-bind out_len (append_name out_len name) _ _ _ (append_name-Appends out_len name short)
        (Appends-require out_len 10
          (λ w. emit_u16 rrtype w >>= λ w.
            emit_u16 rrclass w >>= λ w. emit_u32 ttl w >>= emit_u16 rdlength)
          _ (omega arith)
          (Appends-bind out_len (emit_u16 rrtype)
            (λ w. emit_u16 rrclass w >>= λ w. emit_u32 ttl w >>= emit_u16 rdlength) _ _
            (emit_u16-Appends out_len rrtype)
            (Appends-bind out_len (emit_u16 rrclass) (λ w. emit_u32 ttl w >>= emit_u16 rdlength) _ _
              (emit_u16-Appends out_len rrclass)
              (Appends-bind out_len (emit_u32 ttl) (emit_u16 rdlength) _ _
                (emit_u32-Appends out_len ttl) (emit_u16-Appends out_len rdlength)))))

  Appends-record :
      (m : Writer → Outcome Writer) (rrtype : ℕ) (rdata : Bytes)
      → Appends out_len m (
          (encode (labels name) ++ fixed_bytes rrtype flush_class ttl_seconds (length rdata))
          ++ rdata)
      → Appends out_len m (record_bytes (labels name) rrtype rdata)
  Appends-record m rrtype rdata h =
      rw
        (append_assoc (encode (labels name))
          (fixed_bytes rrtype flush_class ttl_seconds (length rdata)) rdata)
        at h

  pub append_address-Appends :
      (rrtype size : ℕ) (addr : Bytes)
      → length addr ≡ size
      → Appends out_len
          (append_address out_len name rrtype size addr)
          (record_bytes (labels name) rrtype addr)
  unfolding append_address
  append_address-Appends rrtype size addr e =
      Appends-record (append_address out_len name rrtype size addr) rrtype addr (
        rw e (
          Appends-bind out_len (append_rr_header out_len name rrtype flush_class ttl_seconds size)
            (λ w. require (not (ltb out_len (w.offset + size))) >> emit addr w) _ _
            (append_rr_header-Appends rrtype flush_class ttl_seconds size)
            (Appends-require out_len size (emit addr) addr (omega arith)
              (emit-Appends out_len addr))))

  pub append_txt-Appends :
      (txt : Text)
      → Appends out_len
          (append_txt out_len name txt)
          (record_bytes (labels name) rr_txt (cut_len txt ∷ take (cut_len txt) txt))
  unfolding append_txt
  append_txt-Appends txt =
      let n = cut_len txt in
      let size : length (take n txt) ≡ n = ground (arith, length-take n txt) in
      let rdlength : suc (length (take n txt)) ≡ (n + 1) % 65536 = ground arith in
      let first : n % 256 ≡ n = ground arith in
      Appends-record (append_txt out_len name txt) rr_txt (n ∷ take n txt) (
        rw rdlength (
          Appends-bind out_len
            (append_rr_header out_len name rr_txt flush_class ttl_seconds ((n + 1) % 65536))
            (λ w.
              require (not (ltb out_len (w.offset + (n + 1))))
              >> (emit (n % 256 ∷ []) w >>= emit (take n txt)))
            _ _ (append_rr_header-Appends rr_txt flush_class ttl_seconds ((n + 1) % 65536))
            (Appends-require out_len (n + 1) (λ w. emit (n % 256 ∷ []) w >>= emit (take n txt))
              (n ∷ take n txt) (omega arith)
              (Appends-bind out_len (emit (n % 256 ∷ [])) (emit (take n txt)) (n ∷ []) _
                (Appends-eq out_len (emit (n % 256 ∷ [])) _ _ (ap (λ (b : ℕ). b ∷ []) first)
                  (emit-Appends out_len (n % 256 ∷ [])))
                (emit-Appends out_len (take n txt))))))

  -- The data length is known only behind the data, and goes over the zeros written for it.
  append_measured-Appends :
      (rrtype : ℕ) (rdata : Writer → Outcome Writer) (src : Bytes)
      → length src < 65536
      → Appends out_len rdata src
      → Appends out_len
          (append_measured out_len name rrtype rdata)
          (record_bytes (labels name) rrtype src)
  unfolding append_measured
  append_measured-Appends rrtype rdata src small f front rest e h =
      let labels_bytes = encode (labels name) in
      let fixed = fixed_bytes rrtype flush_class ttl_seconds 0 in
      let head = front ++ (labels_bytes ++ fixed) in
      let size =
        length-append front
          (labels_bytes ++ (fixed_bytes rrtype flush_class ttl_seconds (length src) ++ src)) in
      let size' =
        length-append labels_bytes
          (fixed_bytes rrtype flush_class ttl_seconds (length src) ++ src) in
      let (r1, e1, l1) =
        append_rr_header-Appends rrtype flush_class ttl_seconds 0 front rest e
          (omega (arith, size, size', length-append labels_bytes fixed)) in
      let (r2, e2, l2) = f head r1 l1 (
        omega (
          arith,
          size,
          size',
          length-append front (labels_bytes ++ fixed),
          length-append labels_bytes fixed,
        )) in
      let at_length : length head - 2 ≡ length front + length labels_bytes + 8 =
        omega
          (arith, length-append front (labels_bytes ++ fixed), length-append labels_bytes fixed) in
      let measured : (length (head ++ src) - length head) % 65536 ≡ length src =
        omega (arith, length-append head src) in
      let total : length (head ++ src) ≡ length (front ++ record_bytes (labels name) rrtype src) =
        omega (
          arith,
          length-append head src,
          size,
          size',
          length-append front (labels_bytes ++ fixed),
          length-append labels_bytes fixed,
        ) in
      (
        r2,
        rw (e1, e2) (written rrtype labels_bytes front src r2 _ _ _ at_length measured total),
        omega arith,
      )

  pub append_ptr-Appends :
      (target : Text)
      → all_short (labels target) ≡ true
      → length (encode (labels target)) < 65536
      → Appends out_len
          (append_ptr out_len name target)
          (record_bytes (labels name) rr_ptr (encode (labels target)))
  unfolding append_ptr
  append_ptr-Appends target short' small =
      append_measured-Appends rr_ptr (append_name out_len target) (encode (labels target)) small
        (append_name-Appends out_len target short')

  pub append_srv-Appends :
      (port : ℕ) (target : Text)
      → all_short (labels target) ≡ true
      → length (encode (labels target)) < 65530
      → Appends out_len
          (append_srv out_len name port target)
          (record_bytes (labels name) rr_srv (srv_bytes port (labels target)))
  unfolding append_srv append_srv_data
  append_srv-Appends port target short' small =
      append_measured-Appends rr_srv (append_srv_data out_len port target)
        (srv_bytes port (labels target)) (omega arith)
        (Appends-require out_len 6
          (λ w. emit_u16 0 w >>= λ w.
            emit_u16 0 w >>= λ w. emit_u16 port w >>= append_name out_len target)
          _ (omega arith)
          (Appends-bind out_len (emit_u16 0)
            (λ w. emit_u16 0 w >>= λ w. emit_u16 port w >>= append_name out_len target) _ _
            (emit_u16-Appends out_len 0)
            (Appends-bind out_len (emit_u16 0) (λ w. emit_u16 port w >>= append_name out_len target)
              _ _ (emit_u16-Appends out_len 0)
              (Appends-bind out_len (emit_u16 port) (append_name out_len target) _ _
                (emit_u16-Appends out_len port) (append_name-Appends out_len target short')))))
