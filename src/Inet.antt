-- ===== src/Inet.antt =====
-- `inet_pton` and `inet_ntop` of the C library, which the program calls and does not implement.
use umdns.Prelude.{◌<◌, ℕ, Option, some, length, ◌≡◌}
use umdns.Text.{IsText, Bytes, Text}

-- The address that `inet_pton` stores where it returns 1, and the text that `inet_ntop` writes into an array
-- of that size, or `none` for its NULL.
pub record Inet : Type 0 where
  pub pton4 : Text → Option Bytes
  pub pton6 : Text → Option Bytes
  pub ntop4 : Bytes → ℕ → Option Text
  pub ntop6 : Bytes → ℕ → Option Text

-- An IPv4 address has four bytes, an IPv6 address sixteen.
pub record IsInet (net : Inet) : Type 0 where
  pub pton4_len : (s : Text) (a : Bytes) → net.pton4 s ≡ some a → length a ≡ 4
  pub pton6_len : (s : Text) (a : Bytes) → net.pton6 s ≡ some a → length a ≡ 16

-- A text that fits an array of so many bytes, its NUL included.
abbrev pub FitsIn : ℕ → Text → Type 0
FitsIn size t = (length t < size) × IsText t

-- `inet_ntop` writes a text that fits the array, or fails.
pub record IsPrinting (net : Inet) : Type 0 where
  pub ntop4_fits : (a : Bytes) (size : ℕ) (t : Text) → net.ntop4 a size ≡ some t → FitsIn size t
  pub ntop6_fits : (a : Bytes) (size : ℕ) (t : Text) → net.ntop6 a size ≡ some t → FitsIn size t
