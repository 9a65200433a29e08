-- ===== src/Wire/Room.antt =====
-- Writes into a buffer and its room.
use umdns.Outcome.{
  Outcome, require, Ensures, Ensures-bind, Ensures-weaken, Ensures-require, ◌>>=◌, ◌>>◌,
}
use umdns.Prelude.{
  ltb, length, take, drop, length-append, le→leb, length-take, length-drop, ℕ, ◌+◌, ◌≤◌, ◌≡◌, refl,
  not, ◌++◌, arith,
}
use umdns.Text.{Bytes}
use umdns.Wire.{
  copy_to, write_u16, write_u32, Writer, emit, emit_u16, emit_u32, u16_bytes, u32_bytes,
}

-- The offset is behind the header and not behind the end of the buffer.
pub record InRoom (out_len : ℕ) (w : Writer) : Type 0 where
  pub size : length w.out ≡ out_len
  pub start : 12 ≤ w.offset
  pub inside : w.offset ≤ out_len

-- Where there are `n` bytes of room, the call writes `n` bytes.
abbrev pub Writes : ℕ → ℕ → (Writer → Outcome Writer) → Type 0
Writes out_len n f =
    (w : Writer)
    → InRoom out_len w
    → w.offset + n ≤ out_len
    → Ensures (λ v. InRoom out_len v × (v.offset ≡ w.offset + n)) (f w)

-- The call leaves the offset in the buffer, and does not take it back; or it fails.
abbrev pub Stays : ℕ → (Writer → Outcome Writer) → Type 0
Stays out_len f =
    (w : Writer) → InRoom out_len w → Ensures (λ v. InRoom out_len v × (w.offset ≤ v.offset)) (f w)

pub copy_to-Ensures :
    (out : Bytes) (offset : ℕ) (src : Bytes)
    → offset + length src ≤ length out
    → Ensures (λ v. length v ≡ length out) (copy_to out offset src)
unfolding copy_to
copy_to-Ensures out offset src h =
    rw (le→leb _ _ h, Ensures)
      (omega (
        arith,
        length-append (take offset out) (src ++ drop (offset + length src) out),
        length-append src (drop (offset + length src) out),
        length-take offset out,
        length-drop (offset + length src) out,
      ))

module _ (out_len : ℕ) where
  pub emit-Writes : (src : Bytes) → Writes out_len (length src) (emit src)
  unfolding emit
  emit-Writes src w h room =
      Ensures-bind (λ v. length v ≡ length w.out) _ (copy_to w.out w.offset src) _
        (copy_to-Ensures w.out w.offset src (omega (arith, h.size)))
        (λ v e. (
          record {
            size = omega (arith, h.size);
            start = omega (arith, h.start);
            inside = omega arith;
          },
          refl,
        ))

  pub emit_u16-Writes : (value : ℕ) → Writes out_len 2 (emit_u16 value)
  unfolding emit_u16 write_u16 emit
  emit_u16-Writes value = emit-Writes (u16_bytes value)

  pub emit_u32-Writes : (value : ℕ) → Writes out_len 4 (emit_u32 value)
  unfolding emit_u32 write_u32 emit
  emit_u32-Writes value = emit-Writes (u32_bytes value)

  pub Writes-bind :
      (m n : ℕ) (f g : Writer → Outcome Writer)
      → Writes out_len m f
      → Writes out_len n g
      → Writes out_len (m + n) (λ w. f w >>= g)
  Writes-bind m n f g p q w h room =
      Ensures-bind (λ v. InRoom out_len v × (v.offset ≡ w.offset + m)) _ (f w) g
        (p w h (omega arith))
        (λ v k.
          Ensures-weaken (λ u. InRoom out_len u × (u.offset ≡ v.offset + n)) _ (g v)
            (q v k.0 (omega (arith, k.1))) (λ u l. (l.0, omega (arith, k.1, l.1))))

  -- The test for room in front of a write.
  pub Writes-require :
      (n : ℕ) (f : Writer → Outcome Writer)
      → Writes out_len n f
      → Stays out_len (λ w. require (not (ltb out_len (w.offset + n))) >> f w)
  Writes-require n f p w h = Ensures-require _ (not (ltb out_len (w.offset + n))) (f w) (λ e.
      Ensures-weaken (λ v. InRoom out_len v × (v.offset ≡ w.offset + n)) _ (f w)
        (p w h (ground arith)) (λ v k. (k.0, omega (arith, k.1))))

  pub Stays-bind :
      (f g : Writer → Outcome Writer)
      → Stays out_len f
      → Stays out_len g
      → Stays out_len (λ w. f w >>= g)
  Stays-bind f g p q w h =
      Ensures-bind (λ v. InRoom out_len v × (w.offset ≤ v.offset)) _ (f w) g (p w h)
        (λ v k.
          Ensures-weaken (λ u. InRoom out_len u × (v.offset ≤ u.offset)) _ (g v) (q v k.0)
            (λ u l. (l.0, omega (arith, k.1, l.1))))
