-- ===== src/Wire/Reads.antt =====
-- Reads of a packet, inside the array and behind a write.
use umdns.Outcome.{ok, Ensures, Ensures-bind}
use umdns.Prelude.{
  [], ◌∷◌, ◌++◌, ◌∷◌, ◌^◌, get_elem?-lt, ◌<◌, length-drop, length-take, arith, le→leb, drop, take,
  ◌≡◌, length, ◌≤◌, All, ℕ, zero, suc, ◌+◌,
}
use umdns.Text.{Bytes}
use umdns.Wire.{IsByte, byte_at, bytes_at, read_u16, read_u32, u16_bytes, u32_bytes}
use umdns.Wire.Laws.{byte_at-append}

-- A read inside the array is no fault.
pub byte_at_bounds :
    (packet : Bytes) (pos : ℕ) → pos < length packet → (b : ℕ) × (byte_at packet pos ≡ ok b)
unfolding byte_at
byte_at_bounds packet pos h = let (b, e) = get_elem?-lt packet pos h in (b, rw (e, byte_at))

pub byte_at-Ensures :
    (packet : Bytes) (pos : ℕ)
    → All IsByte packet
    → pos < length packet
    → Ensures IsByte (byte_at packet pos)
unfolding byte_at
byte_at-Ensures [] pos a h = absurd (omega arith)
byte_at-Ensures (b ∷ bs) zero a h = a.0
byte_at-Ensures (b ∷ bs) (suc pos) a h = byte_at-Ensures bs pos a.1 (omega arith)

pub bytes_at_bounds :
    (packet : Bytes) (pos n : ℕ)
    → pos + n ≤ length packet
    → (bs : Bytes) × (bytes_at packet pos n ≡ ok bs) × (length bs ≡ n)
unfolding bytes_at
bytes_at_bounds packet pos n h = (
  take n (drop pos packet),
  rw (le→leb _ _ h),
  omega (arith, length-take n (drop pos packet), length-drop pos packet),
)

pub read_u16-Ensures :
    (packet : Bytes) (pos : ℕ)
    → All IsByte packet
    → pos + 2 ≤ length packet
    → Ensures (λ v. v < 2 ^ 16) (read_u16 packet pos)
unfolding read_u16
read_u16-Ensures packet pos a h =
    Ensures-bind IsByte _ (byte_at packet pos) _ (byte_at-Ensures packet pos a (omega arith))
      λ high p.
        Ensures-bind IsByte _ (byte_at packet (pos + 1)) _
          (byte_at-Ensures packet (pos + 1) a (omega arith)) λ low q. omega arith

pub read_u32-Ensures :
    (packet : Bytes) (pos : ℕ)
    → All IsByte packet
    → pos + 4 ≤ length packet
    → Ensures (λ v. v < 2 ^ 32) (read_u32 packet pos)
unfolding read_u32
read_u32-Ensures packet pos a h =
    Ensures-bind (λ v. v < 2 ^ 16) _ (read_u16 packet pos) _
      (read_u16-Ensures packet pos a (omega arith))
      λ high p.
        Ensures-bind (λ v. v < 2 ^ 16) _ (read_u16 packet (pos + 2)) _
          (read_u16-Ensures packet (pos + 2) a (omega arith)) λ low q. omega arith

-- What is written in network order is read back.
pub read_u16-append :
    (front : Bytes) (v : ℕ) (rest : Bytes) (n : ℕ)
    → v < 2 ^ 16
    → n ≡ length front
    → read_u16 (front ++ (u16_bytes v ++ rest)) n ≡ ok v
unfolding read_u16 byte_at
read_u16-append front v rest n h e = ground (
  arith,
  byte_at-append front (u16_bytes v ++ rest) n 0 (omega arith),
  byte_at-append front (u16_bytes v ++ rest) (n + 1) 1 (omega arith),
)

pub read_u32-append :
    (front : Bytes) (v : ℕ) (rest : Bytes) (n : ℕ)
    → v < 2 ^ 32
    → n ≡ length front
    → read_u32 (front ++ (u32_bytes v ++ rest)) n ≡ ok v
unfolding read_u32 read_u16 byte_at
read_u32-append front v rest n h e = ground (
  arith,
  byte_at-append front (u32_bytes v ++ rest) n 0 (omega arith),
  byte_at-append front (u32_bytes v ++ rest) (n + 1) 1 (omega arith),
  byte_at-append front (u32_bytes v ++ rest) (n + 2) 2 (omega arith),
  byte_at-append front (u32_bytes v ++ rest) (n + 2 + 1) 3 (omega arith),
)
