-- ===== src/Wire.antt =====
-- Reads and writes of bytes in a packet, most significant byte first: `umdns_read_u16`,
-- `umdns_read_u32`, `umdns_write_u16` and `umdns_write_u32` of src/common/mdns.c, with `memcpy` as
-- an access that faults outside of the array.
pub mod Laws
pub mod Reads
pub mod Appends
pub mod Room
use umdns.Outcome.{Outcome, ok, fault, in_bounds, ◌>>=◌, ◌>>◌}
use umdns.Prelude.{
  ℕ, ◌+◌, ◌*◌, ◌/◌, ◌%◌, ◌<◌, Option, none, some, List, [], ◌∷◌, ◌++◌, leb, length, take, drop,
  get_elem?,
}
use umdns.Text.{Bytes}

abbrev pub IsByte : ℕ → Type 0
IsByte b = b < 256

-- `packet[pos]`.
unfoldable pub byte_at : Bytes → ℕ → Outcome ℕ
byte_at packet pos = elim (get_elem? packet pos) [ none ↦ fault | some b ↦ ok b ]

-- The `n` bytes that `memcpy(dst, packet + pos, n)` reads.
unfoldable pub bytes_at : Bytes → ℕ → ℕ → Outcome Bytes
bytes_at packet pos n = do in_bounds (leb (pos + n) (length packet)); ok (take n (drop pos packet))

-- `memcpy(out + offset, src, n)` where `src` holds the bytes given.
unfoldable pub copy_to : Bytes → ℕ → Bytes → Outcome Bytes
copy_to out offset src = do
  in_bounds (leb (offset + length src) (length out))
  ok (take offset out ++ (src ++ drop (offset + length src) out))

-- `umdns_read_u16`.
unfoldable pub read_u16 : Bytes → ℕ → Outcome ℕ
read_u16 packet pos = do
  high ← byte_at packet pos
  low ← byte_at packet (pos + 1)
  ok (high * 256 + low)

-- `umdns_read_u32`.
unfoldable pub read_u32 : Bytes → ℕ → Outcome ℕ
read_u32 packet pos = do
  high ← read_u16 packet pos
  low ← read_u16 packet (pos + 2)
  ok (high * 65536 + low)

-- The network order of a `uint16_t` and of a `uint32_t`.
abbrev pub u16_bytes : ℕ → Bytes
u16_bytes value = value / 256 % 256 ∷ value % 256 ∷ []

abbrev pub u32_bytes : ℕ → Bytes
u32_bytes value =
    value / 16777216 % 256 ∷ value / 65536 % 256 ∷ value / 256 % 256 ∷ value % 256 ∷ []

-- `umdns_write_u16`.
unfoldable pub write_u16 : Bytes → ℕ → ℕ → Outcome Bytes
write_u16 out offset value = copy_to out offset (u16_bytes value)

-- `umdns_write_u32`.
unfoldable pub write_u32 : Bytes → ℕ → ℕ → Outcome Bytes
write_u32 out offset value = copy_to out offset (u32_bytes value)

-- An output buffer with the offset behind what has been written: `out` and `offset`.
pub record Writer : Type 0 where
  pub out : Bytes
  pub offset : ℕ

-- A write at the offset, which then moves behind what was written.
unfoldable pub emit : Bytes → Writer → Outcome Writer
emit src w = do
  out ← copy_to w.out w.offset src
  ok (record { out = out; offset = w.offset + length src })

unfoldable pub emit_u16 : ℕ → Writer → Outcome Writer
emit_u16 value w = do
  out ← write_u16 w.out w.offset value
  ok (record { out = out; offset = w.offset + 2 })

unfoldable pub emit_u32 : ℕ → Writer → Outcome Writer
emit_u32 value w = do
  out ← write_u32 w.out w.offset value
  ok (record { out = out; offset = w.offset + 4 })
