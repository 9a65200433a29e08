-- ===== src/Name/Safety.antt =====
-- `umdns_decode_name` of src/common/mdns.c on any packet, well formed or not.
use umdns.Outcome.{ok, Ensures, Ensures-bind}
use umdns.Prelude.{
  ℕ, zero, suc, ◌+◌, ◌-◌, ◌≤◌, ◌<◌, ◌≡◌, ◌≢◌, Bool, false, not, ◌||◌, inl, inr, ◌++◌, [], ◌∷◌,
  arith, ltb, leb, ◌==◌, Bool-cases, lt→leb_false, length, length-append,
}
use umdns.Text.{Bytes}
use umdns.Wire.Reads.{byte_at_bounds, bytes_at_bounds}
use umdns.Name.{
  Cursor, Decoded, is_pointer, follow_pointer, more_follows, copy_label, advance, decode_loop,
  decode_fuel, decode_name_internal, decode_name,
}

module _ (packet : Bytes) (out_len : ℕ) where
  -- What holds before every round of the loop.
  record Inv (c : Cursor) : Type 0 where
    fits : length c.out < out_len
    inside : c.offset ≤ length packet
    few_jumps : c.depth ≤ 10

  -- Falls in every round: the jumps left and the room left in `out`.
  abbrev measure : Cursor → ℕ
  measure c = (10 - c.depth) + (out_len - length c.out)

  abbrev Smaller : Cursor → Cursor → Type 0
  Smaller c c' = Inv c' × (measure c' < measure c)

  follow_pointer-Ensures :
      (len : ℕ) (c : Cursor) → Inv c → Ensures (Smaller c) (follow_pointer packet len c)
  unfolding follow_pointer
  follow_pointer-Ensures len c v = elim (Bool-cases (leb (length packet) (c.pos + 1))) [
    | inl y ↦ ground arith
    | inr n ↦
        let (low, e) = byte_at_bounds packet (c.pos + 1) (ground arith) in rw (n, e) (ground arith)
  ]

  more_follows_total : (pos : ℕ) → (b : Bool) × (more_follows packet pos ≡ ok b)
  unfolding more_follows
  more_follows_total pos = elim (Bool-cases (ltb pos (length packet))) [
    | inl y ↦ let (b, e) = byte_at_bounds packet pos (ground arith) in (not (b == 0), rw (y, e))
    | inr n ↦ (false, rw n)
  ]

  copy_label-Ensures :
      (len : ℕ) (c : Cursor)
      → len ≢ 0
      → Inv c
      → Ensures (Smaller c) (copy_label packet out_len len c)
  unfolding copy_label
  copy_label-Ensures len c ne v =
      elim (Bool-cases
        (ltb (length packet) (c.pos + 1 + len) || ltb out_len (length c.out + len + 2))) [
          | inl y ↦ rw y tt
          | inr n ↦
              let (label, e, l) = bytes_at_bounds packet (c.pos + 1) len (ground arith) in
              let (dotted, d) = more_follows_total (c.pos + 1 + len) in
              rw (n, e, d)
                (ground
                  (arith, length-append c.out label, length-append (c.out ++ label) (b'.' ∷ [])))
        ]

  advance-Ensures :
      (len : ℕ) (c : Cursor) → len ≢ 0 → Inv c → Ensures (Smaller c) (advance packet out_len len c)
  advance-Ensures len c ne v = elim (Bool-cases (is_pointer len)) [
    | inl y ↦ rw y (follow_pointer-Ensures len c v)
    | inr n ↦ rw n (copy_label-Ensures len c ne v)
  ]

  decode_loop-Ensures :
      (fuel : ℕ) (c : Cursor)
      → measure c < fuel
      → Inv c
      → Ensures Inv (decode_loop fuel packet out_len c)
  unfolding decode_loop
  decode_loop-Ensures zero c m v = absurd (omega arith)
  decode_loop-Ensures (suc fuel) c m v = elim (Bool-cases (leb (length packet) c.pos)) [
    | inl y ↦ rw y v
    | inr n ↦
        let (len, e) = byte_at_bounds packet c.pos (ground arith) in
        elim (Bool-cases (len == 0)) [
          | inl z ↦ rw (n, e, z) (ground arith)
          | inr nz ↦
              rw (n, e, nz)
                (Ensures-bind (Smaller c) Inv (advance packet out_len len c) _
                  (advance-Ensures len c (ground arith) v)
                  (λ c' s. decode_loop-Ensures fuel c' (omega arith) s.0))
        ]
  ]

-- Where the call may leave `out` and `*offset`.
abbrev pub IsBounded : Bytes → ℕ → Decoded → Type 0
IsBounded packet out_len d = (length d.name < out_len) × (d.offset ≤ length packet)

-- From every offset inside any packet the decoder ends with a name or an error, and it reads and
-- writes inside the arrays only: the name and its NUL fit `out`, and the offset stays in the packet.
pub decode_name-Ensures :
    (packet : Bytes) (offset out_len : ℕ)
    → offset ≤ length packet
    → 0 < out_len
    → Ensures (IsBounded packet out_len) (decode_name packet offset out_len)
unfolding decode_name decode_name_internal
decode_name-Ensures packet offset out_len h pos =
    Ensures-bind (Inv packet out_len) _ (decode_loop (decode_fuel out_len) packet out_len _) _
      (decode_loop-Ensures packet out_len (decode_fuel out_len) _ (omega arith) (omega arith))
      (λ c v. rw (lt→leb_false out_len (length c.out) v.fits) (ground arith))
