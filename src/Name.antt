-- ===== src/Name.antt =====
-- Domain names in packets: `umdns_append_name`, `umdns_decode_name_internal` and
-- `umdns_decode_name` of src/common/mdns.c.
pub mod Encode
pub mod Labels
pub mod Safety
pub mod RoundTrip
use umdns.Outcome.{Outcome, ok, stuck, require, in_bounds, ◌>>=◌, ◌>>◌}
use umdns.Prelude.{
  ℕ, zero, suc, ◌+◌, ◌*◌, ◌%◌, Bool, true, false, not, ◌||◌, List, [], ◌∷◌, ◌++◌, ltb, leb, ◌==◌,
  if◌then◌else◌, length, bit_and, bit_or,
}
use umdns.Text.{Bytes, Text, snprintf}
use umdns.Wire.{byte_at, bytes_at, Writer, emit}

-- UMDNS_MAX_NAME.
abbrev pub max_name : ℕ
max_name = 256

-- A byte in front of the first of the pieces.
abbrev pub cons_head : ℕ → List Text → List Text
cons_head c [] = (c ∷ []) ∷ []
cons_head c (t ∷ ts) = (c ∷ t) ∷ ts

-- The pieces between the dots, the empty ones too.
unfoldable pub split_dots : Text → List Text
split_dots [] = [] ∷ []
split_dots (c ∷ cs) = if c == b'.' then [] ∷ split_dots cs else cons_head c (split_dots cs)

abbrev pub drop_empty : List Text → List Text
drop_empty [] = []
drop_empty ([] ∷ ts) = drop_empty ts
drop_empty ((c ∷ t) ∷ ts) = (c ∷ t) ∷ drop_empty ts

-- What the calls of `strtok_r` with "." give one after the other: no token is empty.
unfoldable pub tokens : Text → List Text
unfolding split_dots
tokens s = drop_empty (split_dots s)

-- One round of the loop of `umdns_append_name`.
unfoldable pub append_label : ℕ → Text → Writer → Outcome Writer
append_label out_len token w = do
  require (not (ltb 63 (length token) || ltb out_len (w.offset + length token + 2)))
  w ← emit (length token % 256 ∷ []) w
  emit token w

unfoldable pub append_labels : ℕ → List Text → Writer → Outcome Writer
append_labels out_len [] w = ok w
append_labels out_len (token ∷ rest) w = do
  w ← append_label out_len token w
  append_labels out_len rest w

-- `umdns_append_name`; the copy of the name has UMDNS_MAX_NAME bytes.
unfoldable pub append_name : ℕ → Text → Writer → Outcome Writer
append_name out_len name w = do
  w ← append_labels out_len (tokens (snprintf max_name name)) w
  require (not (ltb out_len (w.offset + 1)))
  emit (0 ∷ []) w

-- The variables of the loop of `umdns_decode_name_internal`; `out` is what is written up to
-- `out_pos`, and `offset` is `*offset`.
pub record Cursor : Type 0 where
  pub pos : ℕ
  pub out : Bytes
  pub jumped : Bool
  pub offset : ℕ
  pub depth : ℕ

-- `(len & 0xC0) == 0xC0`.
unfoldable pub is_pointer : ℕ → Bool
is_pointer len = bit_and len 0xC0 == 0xC0

-- `((len & 0x3F) << 8) | low`.
unfoldable pub pointer_to : ℕ → ℕ → ℕ
pointer_to len low = bit_or (bit_and len 0x3F * 256) low

-- The branch for a compression pointer.
unfoldable pub follow_pointer : Bytes → ℕ → Cursor → Outcome Cursor
follow_pointer packet len c = do
  require (not (leb (length packet) (c.pos + 1)))
  low ← byte_at packet (c.pos + 1)
  let pointer = pointer_to len low
  require (not (leb (length packet) pointer))
  require (not (ltb 10 (c.depth + 1)))
  ok (record {
    pos = pointer;
    out = c.out;
    jumped = true;
    offset = if c.jumped then c.offset else c.pos + 2;
    depth = c.depth + 1;
  })

-- `pos < packet_len && packet[pos] != 0`.
unfoldable pub more_follows : Bytes → ℕ → Outcome Bool
more_follows packet pos =
    if ltb pos (length packet) then (do b ← byte_at packet pos; ok (not (b == 0))) else ok false

-- The branch for a label of `len` bytes.
unfoldable pub copy_label : Bytes → ℕ → ℕ → Cursor → Outcome Cursor
copy_label packet out_len len c = do
  let pos = c.pos + 1
  require (not (ltb (length packet) (pos + len) || ltb out_len (length c.out + len + 2)))
  label ← bytes_at packet pos len
  in_bounds (leb (length c.out + len) out_len)
  let out = c.out ++ label
  dotted ← more_follows packet (pos + len)
  in_bounds (not dotted || ltb (length out) out_len)
  ok (record c { pos = pos + len; out = if dotted then out ++ (b'.' ∷ []) else out })

abbrev pub advance : Bytes → ℕ → ℕ → Cursor → Outcome Cursor
advance packet out_len len c =
    if is_pointer len then follow_pointer packet len c else copy_label packet out_len len c

-- The loop, with fuel for its rounds.
unfoldable pub decode_loop : ℕ → Bytes → ℕ → Cursor → Outcome Cursor
decode_loop zero packet out_len c = stuck
decode_loop (suc fuel) packet out_len c =
    if leb (length packet) c.pos
    then ok c
    else (byte_at packet c.pos >>= λ len.
        if len == 0
        then ok (record c { offset = if c.jumped then c.offset else c.pos + 1 })
        else (advance packet out_len len c >>= λ c'. decode_loop fuel packet out_len c'))

-- The bytes left in `out` in front of the NUL that ends them, and `*offset`.
pub record Decoded : Type 0 where
  pub name : Bytes
  pub offset : ℕ

-- A label takes a byte of `out` at least and a pointer one of the ten jumps.
abbrev pub decode_fuel : ℕ → ℕ
decode_fuel out_len = out_len + 12

-- `umdns_decode_name_internal`.
unfoldable pub decode_name_internal : Bytes → ℕ → ℕ → ℕ → Outcome Decoded
decode_name_internal packet offset out_len depth = do
  require (not (ltb 10 depth))
  c ←
      decode_loop (decode_fuel out_len) packet out_len
        (record { pos = offset; out = []; jumped = false; offset = offset; depth = depth })
  require (not (leb out_len (length c.out)))
  in_bounds (ltb (length c.out) out_len)
  ok (record { name = c.out; offset = c.offset })

-- `umdns_decode_name`.
unfoldable pub decode_name : Bytes → ℕ → ℕ → Outcome Decoded
decode_name packet offset out_len = decode_name_internal packet offset out_len 0
