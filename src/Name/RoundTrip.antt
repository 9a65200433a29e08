-- ===== src/Name/RoundTrip.antt =====
-- `umdns_decode_name` of src/common/mdns.c on what `umdns_append_name` has written.
use umdns.Outcome.{ok}
use umdns.Prelude.{
  append-nil, lt→ltb, lt→leb_false, ℕ, zero, suc, ◌+◌, ◌-◌, ◌≤◌, ◌<◌, ◌≡◌, refl, sym, ap, ◌∙◌, Bool,
  true, false, not, ◌&&◌, ◌||◌, List, [], ◌∷◌, ◌++◌, append_assoc, arith, ltb, leb, ◌==◌,
  if◌then◌else◌, length, length-append, All,
}
use umdns.Text.{Bytes, Text}
use umdns.Wire.Laws.{byte_at-cons, byte_at-append, bytes_at-append}
use umdns.Wire.{byte_at, bytes_at}
use umdns.Name.{
  decode_fuel, Cursor, is_pointer, copy_label, more_follows, decode_loop, decode_name,
  decode_name_internal,
}
use umdns.Name.Encode.{encode, all_short}
use umdns.Name.Labels.{width_lem, length-join, join, IsToken}

abbrev short_lengths : ℕ → Bool
short_lengths zero = true
short_lengths (suc n) = not (is_pointer n) && short_lengths n

short_lengths_sound : (n len : ℕ) → short_lengths n ≡ true → len < n → is_pointer len ≡ false
short_lengths_sound zero len h lt = absurd (omega arith)
short_lengths_sound (suc n) len h lt = ground (arith, short_lengths_sound n len)

is_pointer_short : (len : ℕ) → len < 64 → is_pointer len ≡ false
unfolding is_pointer
is_pointer_short len h = short_lengths_sound 64 len refl h

-- One round of the loop, on a label with byte `b` behind it.
label_round :
    (packet front t : Bytes) (b : ℕ) (rest : Bytes) (fuel out_len : ℕ) (c : Cursor)
    → packet ≡ front ++ (length t ∷ (t ++ (b ∷ rest)))
    → c.pos ≡ length front
    → 1 ≤ length t
    → length t ≤ 63
    → length c.out + length t + 2 ≤ out_len
    → decode_loop (suc fuel) packet out_len c
      ≡ decode_loop fuel packet out_len (record c {
        pos = c.pos + 1 + length t;
        out = if not (b == 0) then c.out ++ t ++ (b'.' ∷ []) else c.out ++ t;
      })
unfolding decode_loop copy_label more_follows
label_round packet front t b rest fuel out_len c e pos nonempty short room =
    let len : length packet ≡ length front + length t + 2 + length rest = omega (
      arith,
      ap length e,
      length-append front (length t ∷ (t ++ (b ∷ rest))),
      length-append t (b ∷ rest),
    ) in
    let e1 : packet ≡ (front ++ (length t ∷ [])) ++ (t ++ (b ∷ rest)) =
      e ∙ sym (append_assoc front (length t ∷ []) (t ++ (b ∷ rest))) in
    let at_len : byte_at packet c.pos ≡ ok (length t) = rw e (byte_at-cons front _ _ c.pos pos) in
    let label : bytes_at packet (c.pos + 1) (length t) ≡ ok t = rw e1 (
      bytes_at-append (front ++ (length t ∷ [])) t (b ∷ rest) (c.pos + 1) (length t)
        (omega (arith, length-append front (length t ∷ []))) refl) in
    let next : byte_at packet (c.pos + 1 + length t) ≡ ok b = rw e1 (
      byte_at-append (front ++ (length t ∷ [])) (t ++ (b ∷ rest)) _ (length t)
        (omega (arith, length-append front (length t ∷ [])))
      ∙ byte_at-cons t b rest (length t) refl) in
    let inside : leb (length packet) c.pos ≡ false = lt→leb_false _ _ (omega arith) in
    let some_byte : (length t == 0) ≡ false = ground arith in
    let fits : (ltb (length packet) (c.pos + 1 + length t)
          || ltb out_len (length c.out + length t + 2))
        ≡ false =
      ground arith in
    let next_in : ltb (c.pos + 1 + length t) (length packet) ≡ true = lt→ltb _ _ (omega arith) in
    rw
      (
        inside,
        at_len,
        some_byte,
        is_pointer_short (length t) (omega arith),
        fits,
        label,
        next_in,
        next,
      )
      (ground (arith, length-append c.out t))

-- The offset behind the name, unless a pointer has fixed it.
abbrev end_of : Cursor → ℕ → ℕ
end_of c n = if c.jumped then c.offset else n

root_round :
    (packet front rest : Bytes) (fuel out_len : ℕ) (c : Cursor)
    → packet ≡ front ++ (0 ∷ rest)
    → c.pos ≡ length front
    → decode_loop (suc fuel) packet out_len c ≡ ok (record c { offset = end_of c (c.pos + 1) })
unfolding decode_loop
root_round packet front rest fuel out_len c e pos =
    let at_len : byte_at packet c.pos ≡ ok 0 = rw e (byte_at-cons front _ _ c.pos pos) in
    let inside : leb (length packet) c.pos ≡ false =
      lt→leb_false _ _ (omega (arith, ap length e, length-append front (0 ∷ rest))) in
    rw (inside, at_len)

-- The loop over a name as `umdns_append_name` wrote it, from its first byte on.
pub decode_loop-encode :
    (ts : List Text) (fuel : ℕ) (packet front rest : Bytes) (out_len : ℕ) (c : Cursor)
    → packet ≡ front ++ (encode ts ++ rest)
    → c.pos ≡ length front
    → All IsToken ts
    → all_short ts ≡ true
    → length ts < fuel
    → length c.out + length (join ts) + 2 ≤ out_len
    → decode_loop fuel packet out_len c
      ≡ ok (record c {
        pos = length front + length (encode ts) - 1;
        out = c.out ++ join ts;
        offset = end_of c (length front + length (encode ts));
      })
decode_loop-encode ts zero packet front rest out_len c e pos all short m room = absurd (omega arith)
decode_loop-encode [] (suc fuel) packet front rest out_len c e pos all short m room =
    root_round packet front rest fuel out_len c e pos ∙ ground (arith, append-nil c.out)
decode_loop-encode (t ∷ []) (suc fuel) packet front rest out_len c e pos all short m room =
    let behind : front ++ (length t ∷ (t ++ (0 ∷ rest))) ≡ (front ++ (length t ∷ t)) ++ (0 ∷ rest) =
      sym (append_assoc front (length t ∷ t) (0 ∷ rest)) in
    let e' : packet ≡ front ++ (length t ∷ (t ++ (0 ∷ rest))) = e ∙ rw append_assoc in
    label_round packet front t 0 rest fuel out_len c e' pos all.0.0 (ground arith) (omega arith)
    ∙ decode_loop-encode [] fuel packet (front ++ (length t ∷ t)) rest out_len
        (record c { pos = c.pos + 1 + length t; out = c.out ++ t }) (e' ∙ behind)
        (omega (arith, length-append front (length t ∷ t))) tt refl (omega arith)
        (omega (arith, length-append c.out t))
    ∙ ground (
      arith,
      append-nil (c.out ++ t),
      length-append front (length t ∷ t),
      length-append t (0 ∷ []),
    )
decode_loop-encode (t ∷ u ∷ us) (suc fuel) packet front rest out_len c e pos all short m room =
    let next = encode (u ∷ us) ++ rest in
    let behind : front ++ (length t ∷ (t ++ next)) ≡ (front ++ (length t ∷ t)) ++ next =
      sym (append_assoc front (length t ∷ t) next) in
    let e' : packet ≡ front ++ (length t ∷ (t ++ next)) =
      e ∙ ap (λ (x : Bytes). front ++ (length t ∷ x)) (append_assoc t (encode (u ∷ us)) rest) in
    let dot = b'.' ∷ join (u ∷ us) in
    let wide = length-append t dot in
    let some_next : (length u == 0) ≡ false = ground (arith, all.1.0.0) in
    label_round packet front t (length u) ((u ++ encode us) ++ rest) fuel out_len c e' pos all.0.0
      (ground arith) (omega (arith, wide))
    ∙ rw some_next (
        decode_loop-encode (u ∷ us) fuel packet (front ++ (length t ∷ t)) rest out_len
          (record c { pos = c.pos + 1 + length t; out = c.out ++ t ++ (b'.' ∷ []) }) (e' ∙ behind)
          (omega (arith, length-append front (length t ∷ t))) all.1 (ground arith) (omega arith)
          (omega (arith, wide, length-append (c.out ++ t) (b'.' ∷ []), length-append c.out t))
        ∙ ground (
          arith,
          append_assoc (c.out ++ t) (b'.' ∷ []) (join (u ∷ us)),
          append_assoc c.out t dot,
          length-append front (length t ∷ t),
          length-append t (encode (u ∷ us)),
        ))

-- A name that `umdns_append_name` wrote at `offset`, of at most `out_len` - 2 bytes in dotted form, is
-- read back with the offset behind it.
pub decode_name-encode :
    (ts : List Text) (front rest : Bytes) (offset out_len : ℕ)
    → offset ≡ length front
    → All IsToken ts
    → all_short ts ≡ true
    → length (join ts) + 2 ≤ out_len
    → decode_name (front ++ (encode ts ++ rest)) offset out_len
      ≡ ok (record { name = join ts; offset = offset + length (encode ts) })
unfolding decode_name decode_name_internal
decode_name-encode ts front rest offset out_len e all short room =
    rw
      (decode_loop-encode ts (decode_fuel out_len) _ front rest out_len
        (record { pos = offset; out = []; jumped = false; offset = offset; depth = 0 }) refl e all
        short (omega (arith, length-join ts, width_lem ts all)) (omega arith))
      (ground arith)
