-- ===== src/Header.antt =====
-- The message header in a buffer that `memset` has cleared, and the counts written into it last, as
-- the builders of src/common/mdns.c do.
use umdns.Message.{header_len}
use umdns.Name.{max_name, tokens}
use umdns.Outcome.{ok}
use umdns.Text.{IsText}
use umdns.Text.Laws.{normalize_local_name-IsText, length-normalize_local_name}
use umdns.Name.Labels.{IsToken, tokens-All}
use umdns.Prelude.{
  take_all, All, ◌∙◌, arith, ◌-◌, ◌+◌, ◌≤◌, ◌≡◌, ◌++◌, ℕ, some, refl, replicate, length, List,
  length-replicate, ap, replicate-add,
}
use umdns.Text.{Bytes, Text, snprintf, normalize_local_name}
use umdns.Wire.{Writer, write_u16, u16_bytes}
use umdns.Wire.Laws.{filled, copy_to-append}

-- `memset(out, 0, out_len)` with the offset behind the header.
abbrev pub blank : ℕ → Writer
blank out_len = record { out = replicate out_len 0; offset = header_len }

abbrev pub zeros : ℕ → Bytes
zeros n = replicate n 0

-- The header with one question and the flags given.
abbrev pub header_bytes : ℕ → ℕ → ℕ → Bytes
header_bytes flags qdcount ancount =
    u16_bytes 0 ++ (u16_bytes flags ++ (u16_bytes qdcount ++ (u16_bytes ancount ++ zeros 4)))

blank-filled :
    (out_len : ℕ) → header_len ≤ out_len → blank out_len ≡ filled (zeros 12) (zeros (out_len - 12))
blank-filled out_len h =
    let e : out_len ≡ 12 + (out_len - 12) = omega arith in
    let all : zeros out_len ≡ zeros 12 ++ zeros (out_len - 12) =
      ap zeros e ∙ replicate-add 12 (out_len - 12) 0 in
    ap (λ (x : Bytes). let w : Writer = record { out = x; offset = 12 } in w) all

length-zeros : (n : ℕ) → length (zeros n) ≡ n
length-zeros n = length-replicate n 0

-- The 12 bytes of the header are there, and zero, before anything is written.
pub blank-Filled :
    (out_len : ℕ)
    → header_len ≤ out_len
    → (rest : Bytes) × (blank out_len ≡ filled (zeros 12) rest) × (out_len ≡ 12 + length rest)
blank-Filled out_len h =
    (zeros (out_len - 12), blank-filled out_len h, omega (arith, length-zeros (out_len - 12)))

-- The labels of the name that the message carries.
abbrev pub labels_of : Text → List Text
labels_of name = tokens (snprintf max_name (normalize_local_name (some name) max_name))

-- The count of questions goes over two zeros of the header.
pub write_qdcount :
    (body rest : Bytes)
    → write_u16 ((zeros 12 ++ body) ++ rest) 4 1 ≡ ok ((header_bytes 0 1 0 ++ body) ++ rest)
unfolding write_u16
write_qdcount body rest =
    copy_to-append (zeros 4) (zeros 2) (zeros 6 ++ (body ++ rest)) (u16_bytes 1) 4 refl refl

-- Flags and the count of answers, as the responses write them.
pub write_flags :
    (flags : ℕ) (body rest : Bytes)
    → write_u16 ((zeros 12 ++ body) ++ rest) 2 flags ≡ ok ((header_bytes flags 0 0 ++ body) ++ rest)
unfolding write_u16
write_flags flags body rest =
    copy_to-append (zeros 2) (zeros 2) (zeros 8 ++ (body ++ rest)) (u16_bytes flags) 2 refl refl

pub write_ancount :
    (flags ancount : ℕ) (body rest : Bytes)
    → write_u16 ((header_bytes flags 0 0 ++ body) ++ rest) 6 ancount
      ≡ ok ((header_bytes flags 0 ancount ++ body) ++ rest)
unfolding write_u16
write_ancount flags ancount body rest =
    copy_to-append (zeros 2 ++ (u16_bytes flags ++ zeros 2)) (zeros 2) (zeros 4 ++ (body ++ rest))
      (u16_bytes ancount) 6 refl refl

-- The copy of the normalised name loses nothing.
pub labels_of_lem :
    (name : Text) → labels_of name ≡ tokens (normalize_local_name (some name) max_name)
labels_of_lem name =
    ap tokens
      (take_all 255 _ (omega (arith, length-normalize_local_name name max_name (omega arith))))

pub labels_of-All : (name : Text) → IsText name → All IsToken (labels_of name)
labels_of-All name h = rw labels_of_lem (tokens-All _ (normalize_local_name-IsText name max_name h))
