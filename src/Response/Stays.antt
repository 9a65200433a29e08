-- ===== src/Response/Stays.antt =====
-- The appends of src/common/mdns.c on any input.
use umdns.Message.{rr_txt, rr_ptr, rr_srv}
use umdns.Name.{append_label, append_labels, append_name, max_name, tokens}
use umdns.Outcome.{
  Outcome, require, Ensures, Ensures-bind, Ensures-weaken, Ensures-require, ◌>>=◌, ◌>>◌,
}
use umdns.Prelude.{
  ◌≡◌, ◌-◌, ltb, length, take, length-take, ℕ, ◌+◌, ◌-◌, ◌%◌, ◌≤◌, ◌≡◌, not, List, [], ◌∷◌, arith,
}
use umdns.Query.{append_question}
use umdns.Response.{
  append_rr_header, append_address, append_txt, append_measured, append_ptr, append_srv_data,
  append_srv, cut_len, flush_class, ttl_seconds,
}
use umdns.Text.{Bytes, Text, snprintf}
use umdns.Wire.{Writer, emit, emit_u16, emit_u32, write_u16, u16_bytes}
use umdns.Wire.Room.{
  InRoom, Writes, Stays, copy_to-Ensures, emit-Writes, emit_u16-Writes, emit_u32-Writes,
  Writes-bind, Writes-require, Stays-bind,
}

module _ (out_len : ℕ) where
  append_label-Stays : (token : Text) → Stays out_len (append_label out_len token)
  unfolding append_label
  append_label-Stays token w h =
      Ensures-require _ _ (emit (length token % 256 ∷ []) w >>= emit token) (λ e.
        Ensures-weaken (λ v. InRoom out_len v × (v.offset ≡ w.offset + (1 + length token))) _ _
          (Writes-bind out_len 1 (length token) (emit (length token % 256 ∷ [])) (emit token)
            (emit-Writes out_len (length token % 256 ∷ [])) (emit-Writes out_len token) w h
            (ground arith))
          (λ v k. (k.0, omega (arith, k.1))))

  append_labels-Stays : (ts : List Text) → Stays out_len (append_labels out_len ts)
  unfolding append_labels
  append_labels-Stays [] w h = (h, omega arith)
  append_labels-Stays (t ∷ ts) w h =
      Stays-bind out_len (append_label out_len t) (append_labels out_len ts) (append_label-Stays t)
        (append_labels-Stays ts) w h

  append_name-Stays : (name : Text) → Stays out_len (append_name out_len name)
  unfolding append_name
  append_name-Stays name =
      Stays-bind out_len (append_labels out_len (tokens (snprintf max_name name)))
        (λ w. require (not (ltb out_len (w.offset + 1))) >> emit (0 ∷ []) w)
        (append_labels-Stays (tokens (snprintf max_name name)))
        (Writes-require out_len 1 (emit (0 ∷ [])) (emit-Writes out_len (0 ∷ [])))

  pub append_question-Stays :
      (qtype : ℕ) (fqdn : Text) → Stays out_len (append_question out_len qtype fqdn)
  unfolding append_question
  append_question-Stays qtype fqdn =
      Stays-bind out_len (append_name out_len fqdn)
        (λ w. require (not (ltb out_len (w.offset + 4))) >> (emit_u16 qtype w >>= emit_u16 1))
        (append_name-Stays fqdn)
        (Writes-require out_len 4 (λ w. emit_u16 qtype w >>= emit_u16 1)
          (Writes-bind out_len 2 2 (emit_u16 qtype) (emit_u16 1) (emit_u16-Writes out_len qtype)
            (emit_u16-Writes out_len 1)))

  -- The ten bytes behind the name stand in front of the offset then.
  append_rr_header-Stays :
      (name : Text) (rrtype rrclass ttl rdlength : ℕ)
      → Stays out_len (append_rr_header out_len name rrtype rrclass ttl rdlength)
  unfolding append_rr_header
  append_rr_header-Stays name rrtype rrclass ttl rdlength =
      let f2 = λ (w : Writer). emit_u32 ttl w >>= emit_u16 rdlength in
      let f1 = λ (w : Writer). emit_u16 rrclass w >>= f2 in
      let f0 = λ (w : Writer). emit_u16 rrtype w >>= f1 in
      Stays-bind out_len (append_name out_len name)
        (λ w. require (not (ltb out_len (w.offset + 10))) >> f0 w) (append_name-Stays name)
        (Writes-require out_len 10 f0 (
          Writes-bind out_len 2 8 (emit_u16 rrtype) f1 (emit_u16-Writes out_len rrtype) (
            Writes-bind out_len 2 6 (emit_u16 rrclass) f2 (emit_u16-Writes out_len rrclass) (
              Writes-bind out_len 4 2 (emit_u32 ttl) (emit_u16 rdlength)
                (emit_u32-Writes out_len ttl) (emit_u16-Writes out_len rdlength)))))

  pub append_address-Stays :
      (name : Text) (rrtype : ℕ) (addr : Bytes)
      → Stays out_len (append_address out_len name rrtype (length addr) addr)
  unfolding append_address
  append_address-Stays name rrtype addr =
      Stays-bind out_len
        (append_rr_header out_len name rrtype flush_class ttl_seconds (length addr))
        (λ w. require (not (ltb out_len (w.offset + length addr))) >> emit addr w)
        (append_rr_header-Stays name rrtype flush_class ttl_seconds (length addr))
        (Writes-require out_len (length addr) (emit addr) (emit-Writes out_len addr))

  pub append_txt-Stays : (name txt : Text) → Stays out_len (append_txt out_len name txt)
  unfolding append_txt
  append_txt-Stays name txt =
      let n = cut_len txt in
      let size : length (take n txt) ≡ n = ground (arith, length-take n txt) in
      let body = λ (w : Writer). emit (n % 256 ∷ []) w >>= emit (take n txt) in
      let writes : Writes out_len (n + 1) body = λ w h room.
        Ensures-weaken (λ v. InRoom out_len v × (v.offset ≡ w.offset + (1 + length (take n txt)))) _
          (body w)
          (Writes-bind out_len 1 (length (take n txt)) (emit (n % 256 ∷ [])) (emit (take n txt))
            (emit-Writes out_len (n % 256 ∷ [])) (emit-Writes out_len (take n txt)) w h
            (omega (arith, size)))
          (λ v k. (k.0, omega (arith, k.1, size))) in
      Stays-bind out_len
        (append_rr_header out_len name rr_txt flush_class ttl_seconds ((n + 1) % 65536))
        (λ w. require (not (ltb out_len (w.offset + (n + 1)))) >> body w)
        (append_rr_header-Stays name rr_txt flush_class ttl_seconds ((n + 1) % 65536))
        (Writes-require out_len (n + 1) body writes)

  -- The length goes over two bytes of the record's head.
  append_measured-Stays :
      (name : Text) (rrtype : ℕ) (rdata : Writer → Outcome Writer)
      → Stays out_len rdata
      → Stays out_len (append_measured out_len name rrtype rdata)
  unfolding append_measured write_u16
  append_measured-Stays name rrtype rdata f w h =
      Ensures-bind (λ v. InRoom out_len v × (w.offset ≤ v.offset)) _
        (append_rr_header out_len name rrtype flush_class ttl_seconds 0 w) _
        (append_rr_header-Stays name rrtype flush_class ttl_seconds 0 w h)
        (λ start k.
          Ensures-bind (λ v. InRoom out_len v × (start.offset ≤ v.offset)) _ (rdata start) _
            (f start k.0)
            (λ v l.
              Ensures-bind (λ (out : Bytes). length out ≡ length v.out) _
                (write_u16 v.out (start.offset - 2) ((v.offset - start.offset) % 65536)) _
                (copy_to-Ensures v.out (start.offset - 2)
                  (u16_bytes ((v.offset - start.offset) % 65536))
                  (omega (arith, k.0.start, k.0.inside, l.0.size)))
                (λ out e. (
                  record { size = omega (arith, l.0.size); start = l.0.start; inside = l.0.inside },
                  omega (arith, k.1, l.1),
                ))))

  pub append_ptr-Stays : (name target : Text) → Stays out_len (append_ptr out_len name target)
  unfolding append_ptr
  append_ptr-Stays name target =
      append_measured-Stays name rr_ptr (append_name out_len target) (append_name-Stays target)

  -- A write of `m` bytes and what stays in the buffer where `n` more are free.
  Writes-Stays :
      (m n : ℕ) (f g : Writer → Outcome Writer)
      → Writes out_len m f
      → ((w : Writer)
          → InRoom out_len w
          → w.offset + n ≤ out_len
          → Ensures (λ v. InRoom out_len v × (w.offset ≤ v.offset)) (g w))
      → (w : Writer) → InRoom out_len w
      → w.offset + (m + n) ≤ out_len
      → Ensures (λ v. InRoom out_len v × (w.offset ≤ v.offset)) (f w >>= g)
  Writes-Stays m n f g p q w h room =
      Ensures-bind (λ v. InRoom out_len v × (v.offset ≡ w.offset + m)) _ (f w) g
        (p w h (omega arith))
        (λ v k.
          Ensures-weaken (λ u. InRoom out_len u × (v.offset ≤ u.offset)) _ (g v)
            (q v k.0 (omega (arith, k.1))) (λ u l. (l.0, omega (arith, k.1, l.1))))

  pub append_srv-Stays :
      (name : Text) (port : ℕ) (target : Text) → Stays out_len (append_srv out_len name port target)
  unfolding append_srv append_srv_data
  append_srv-Stays name port target =
      let f2 = λ (w : Writer). emit_u16 port w >>= append_name out_len target in
      let f1 = λ (w : Writer). emit_u16 0 w >>= f2 in
      let f0 = λ (w : Writer). emit_u16 0 w >>= f1 in
      append_measured-Stays name rr_srv (append_srv_data out_len port target) (λ w h.
        Ensures-require _ (not (ltb out_len (w.offset + 6))) (f0 w) (λ e.
          Writes-Stays 2 4 (emit_u16 0) f1 (emit_u16-Writes out_len 0)
            (Writes-Stays 2 2 (emit_u16 0) f2 (emit_u16-Writes out_len 0) (
              Writes-Stays 2 0 (emit_u16 port) (append_name out_len target)
                (emit_u16-Writes out_len port) (λ w h room. append_name-Stays target w h)))
            w h (ground arith)))
