-- ===== src/Wire/Laws.antt =====
-- A buffer as the bytes written so far with the rest of the array behind them.
use umdns.Outcome.{ok}
use umdns.Prelude.{
  ℕ, ◌+◌, ◌≤◌, ◌≡◌, refl, ◌∷◌, ◌++◌, append_assoc, arith, length, drop, length-append, take-append,
  drop-append, get_elem?-append_right,
}
use umdns.Text.{Bytes}
use umdns.Wire.{
  write_u32, write_u16, emit_u32, emit_u16, byte_at, bytes_at, copy_to, u16_bytes, u32_bytes,
  Writer, emit,
}

-- The buffer in which `front` has been written and `rest` is what is left of the array.
abbrev pub filled : Bytes → Bytes → Writer
filled front rest = record { out = front ++ rest; offset = length front }

pub copy_to-filled :
    (front rest src : Bytes) (n : ℕ)
    → n ≡ length front
    → length src ≤ length rest
    → copy_to (front ++ rest) n src ≡ ok (front ++ (src ++ drop (length src) rest))
unfolding copy_to
copy_to-filled front rest src n e h = ground (
  arith,
  length-append front rest,
  take-append n front rest e,
  drop-append (n + length src) (length src) front rest (omega arith),
)

-- Writing over bytes that are there already changes nothing else.
pub copy_to-append :
    (front old rest src : Bytes) (n : ℕ)
    → n ≡ length front
    → length src ≡ length old
    → copy_to (front ++ (old ++ rest)) n src ≡ ok (front ++ (src ++ rest))
copy_to-append front old rest src n e h = cc (
  copy_to-filled front (old ++ rest) src n e (omega (arith, length-append old rest)),
  drop-append (length src) 0 old rest (omega arith),
)

pub emit-filled :
    (src front rest : Bytes)
    → length src ≤ length rest
    → emit src (filled front rest) ≡ ok (filled (front ++ src) (drop (length src) rest))
unfolding emit
emit-filled src front rest h =
    rw (copy_to-filled front rest src (length front) refl h) (rw (append_assoc, length-append) refl)

pub byte_at-append :
    (front rest : Bytes) (n k : ℕ)
    → n ≡ length front + k
    → byte_at (front ++ rest) n ≡ byte_at rest k
unfolding byte_at
byte_at-append front rest n k e = rw (get_elem?-append_right n k front rest e, byte_at)

pub byte_at-cons :
    (front : Bytes) (b : ℕ) (rest : Bytes) (n : ℕ)
    → n ≡ length front
    → byte_at (front ++ (b ∷ rest)) n ≡ ok b
unfolding byte_at
byte_at-cons front b rest n e = byte_at-append front (b ∷ rest) n 0 (omega arith)

pub bytes_at-append :
    (front src rest : Bytes) (n k : ℕ)
    → n ≡ length front
    → k ≡ length src
    → bytes_at (front ++ (src ++ rest)) n k ≡ ok src
unfolding bytes_at
bytes_at-append front src rest n k e h = ground (
  arith,
  length-append front (src ++ rest),
  length-append src rest,
  drop-append n 0 front (src ++ rest) (omega arith),
  take-append k src rest h,
)

pub emit_u16-filled :
    (v : ℕ) (front rest : Bytes)
    → 2 ≤ length rest
    → emit_u16 v (filled front rest) ≡ ok (filled (front ++ u16_bytes v) (drop 2 rest))
unfolding emit_u16 write_u16
emit_u16-filled v front rest h =
    rw (copy_to-filled front rest (u16_bytes v) (length front) refl h)
      (rw (append_assoc, length-append) refl)

pub emit_u32-filled :
    (v : ℕ) (front rest : Bytes)
    → 4 ≤ length rest
    → emit_u32 v (filled front rest) ≡ ok (filled (front ++ u32_bytes v) (drop 4 rest))
unfolding emit_u32 write_u32
emit_u32-filled v front rest h =
    rw (copy_to-filled front rest (u32_bytes v) (length front) refl h)
      (rw (append_assoc, length-append) refl)
