-- ===== src/Wire/Appends.antt =====
-- Writers that append: behind what has been written they write the bytes given, if there is room.
use umdns.Outcome.{require, ◌>>=◌, ◌>>◌, Outcome, ok}
use umdns.Prelude.{
  false, not, append_assoc, le→ltb_false, ltb, ◌++◌, ℕ, ◌+◌, ◌≤◌, ◌≡◌, length, length-append,
  length-drop, arith, drop,
}
use umdns.Text.{Bytes}
use umdns.Wire.{Writer, emit, emit_u16, emit_u32, u16_bytes, u32_bytes}
use umdns.Wire.Laws.{filled, emit-filled, emit_u16-filled, emit_u32-filled}

-- The array of `out_len` bytes after `front` and `src` have been written.
abbrev pub Filled : ℕ → Outcome Writer → Bytes → Type 0
Filled out_len r front =
    (rest : Bytes) × (r ≡ ok (filled front rest)) × (out_len ≡ length front + length rest)

abbrev pub Appends : ℕ → (Writer → Outcome Writer) → Bytes → Type 0
Appends out_len m src =
    (front rest : Bytes)
    → out_len ≡ length front + length rest
    → length front + length src ≤ out_len
    → Filled out_len (m (filled front rest)) (front ++ src)

by_drop :
    (out_len : ℕ) (src front rest : Bytes)
    → out_len ≡ length front + length rest
    → length front + length src ≤ out_len
    → out_len ≡ length (front ++ src) + length (drop (length src) rest)
by_drop out_len src front rest e h =
    omega (arith, length-append front src, length-drop (length src) rest)

pub emit-Appends : (out_len : ℕ) (src : Bytes) → Appends out_len (emit src) src
emit-Appends out_len src front rest e h = (
  drop (length src) rest,
  emit-filled src front rest (omega arith),
  by_drop out_len src front rest e h,
)

pub emit_u16-Appends : (out_len v : ℕ) → Appends out_len (emit_u16 v) (u16_bytes v)
emit_u16-Appends out_len v front rest e h = (
  drop 2 rest,
  emit_u16-filled v front rest (omega arith),
  by_drop out_len (u16_bytes v) front rest e h,
)

pub emit_u32-Appends : (out_len v : ℕ) → Appends out_len (emit_u32 v) (u32_bytes v)
emit_u32-Appends out_len v front rest e h = (
  drop 4 rest,
  emit_u32-filled v front rest (omega arith),
  by_drop out_len (u32_bytes v) front rest e h,
)

pub Appends-bind :
    (out_len : ℕ) (m n : Writer → Outcome Writer) (a b : Bytes)
    → Appends out_len m a
    → Appends out_len n b
    → Appends out_len (λ w. m w >>= n) (a ++ b)
Appends-bind out_len m n a b f g front rest e h =
    let (rest1, e1, l1) = f front rest e (omega (arith, length-append a b)) in
    let (rest2, e2, l2) =
      g (front ++ a) rest1 l1 (omega (arith, length-append front a, length-append a b)) in
    (rest2, rw (e1, ← append_assoc front a b) e2, rw (← append_assoc front a b) l2)

-- A test that so many bytes are left, in front of a write of as many at least.
pub Appends-require :
    (out_len k : ℕ) (m : Writer → Outcome Writer) (src : Bytes)
    → k ≤ length src
    → Appends out_len m src
    → Appends out_len (λ w. require (not (ltb out_len (w.offset + k))) >> m w) src
Appends-require out_len k m src le f front rest e h =
    let (rest1, e1, l1) = f front rest e h in
    let room : ltb out_len (length front + k) ≡ false = le→ltb_false _ _ (omega arith) in
    (rest1, rw room e1, l1)

pub Appends-eq :
    (out_len : ℕ) (m : Writer → Outcome Writer) (src src' : Bytes)
    → src ≡ src'
    → Appends out_len m src
    → Appends out_len m src'
Appends-eq out_len m src src' e h = rw e at h
