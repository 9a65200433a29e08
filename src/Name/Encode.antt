-- ===== src/Name/Encode.antt =====
-- What `umdns_append_name` of src/common/mdns.c writes, and when it fails.
use umdns.Outcome.{Outcome, ok, err, ◌>>=◌}
use umdns.Prelude.{
  ℕ, suc, ◌+◌, ◌%◌, ◌≤◌, Bool, true, false, ◌&&◌, ◌≡◌, ◌∙◌, inl, inr, List, [], ◌∷◌, ◌++◌,
  append_assoc, arith, ltb, leb, if◌then◌else◌, Bool-cases, leb→le, length, drop, length-append,
  length-drop, drop-drop,
}
use umdns.Text.{Bytes, Text, snprintf}
use umdns.Wire.Appends.{Appends}
use umdns.Prelude.{le→leb}
use umdns.Wire.Laws.{filled, emit-filled}
use umdns.Wire.{Writer, emit}
use umdns.Name.{max_name, tokens, append_label, append_labels, append_name}

-- The labels, each behind its length, and the root label.
abbrev pub encode : List Text → Bytes
encode [] = 0 ∷ []
encode (t ∷ ts) = length t ∷ (t ++ encode ts)

-- No label is longer than 63 bytes.
abbrev pub all_short : List Text → Bool
all_short [] = true
all_short (t ∷ ts) = leb (length t) 63 && all_short ts

-- The labels can be written into so many bytes.
abbrev pub encodable : List Text → ℕ → Bool
encodable ts room = all_short ts && leb (length (encode ts)) room

append_label-filled :
    (out_len : ℕ) (t front rest : Bytes)
    → out_len ≡ length front + length rest
    → length t ≤ 63
    → length t + 2 ≤ length rest
    → append_label out_len t (filled front rest)
      ≡ ok (filled (front ++ (length t ∷ t)) (drop (suc (length t)) rest))
unfolding append_label
append_label-filled out_len t front rest e h k = ground (
  arith,
  emit-filled (length t % 256 ∷ []) front rest (omega arith),
  emit-filled t (front ++ length t ∷ []) (drop 1 rest) (omega (arith, length-drop 1 rest)),
  append_assoc front (length t ∷ []) t,
  drop-drop (length t) 1 rest,
)

append_label-err :
    (out_len : ℕ) (t front rest : Bytes)
    → out_len ≡ length front + length rest
    → (leb (length t) 63 && leb (length t + 2) (length rest)) ≡ false
    → append_label out_len t (filled front rest) ≡ err
unfolding append_label
append_label-err out_len t front rest e h = ground arith

length-encode_pos : (ts : List Text) → 1 ≤ length (encode ts)
length-encode_pos [] = omega arith
length-encode_pos (t ∷ ts) = omega arith

-- The rest of `umdns_append_name` from a round of its loop on.
append_rest : ℕ → List Text → Writer → Outcome Writer
append_rest out_len ts w =
    append_labels out_len ts w >>= λ w. if ltb out_len (w.offset + 1) then err else emit (0 ∷ []) w

append_rest-filled :
    (ts : List Text) (out_len : ℕ) (front rest : Bytes)
    → out_len ≡ length front + length rest
    → append_rest out_len ts (filled front rest) ≡ (
        if encodable ts (length rest)
        then ok (filled (front ++ encode ts) (drop (length (encode ts)) rest))
        else err)
unfolding append_rest append_labels
append_rest-filled [] out_len front rest e = elim (Bool-cases (leb 1 (length rest))) [
  | inl y ↦ ground (arith, emit-filled (0 ∷ []) front rest (leb→le _ _ y))
  | inr n ↦ ground arith
]
append_rest-filled (t ∷ ts) out_len front rest e =
    elim (Bool-cases (leb (length t) 63 && leb (length t + 2) (length rest))) [
      | inl y ↦
          let front' = front ++ (length t ∷ t) in
          let rest' = drop (suc (length t)) rest in
          let short : length t ≤ 63 = ground arith in
          let room : length t + 2 ≤ length rest = ground arith in
          rw (append_label-filled out_len t front rest e short room) (
            append_rest-filled ts out_len front' rest'
              (omega (arith, length-append front (length t ∷ t), length-drop (suc (length t)) rest))
            ∙ ground (
              arith,
              append_assoc front (length t ∷ t) (encode ts),
              drop-drop (length (encode ts)) (suc (length t)) rest,
              length-drop (suc (length t)) rest,
              length-append t (encode ts),
            ))
      | inr n ↦
          rw (append_label-err out_len t front rest e n)
            (ground (arith, length-append t (encode ts), length-encode_pos ts))
    ]

-- What `umdns_append_name` does, on every branch.
pub append_name-filled :
    (name : Text) (out_len : ℕ) (front rest : Bytes)
    → out_len ≡ length front + length rest
    → append_name out_len name (filled front rest) ≡ (
        let ts = tokens (snprintf max_name name) in
        if encodable ts (length rest)
        then ok (filled (front ++ encode ts) (drop (length (encode ts)) rest))
        else err)
unfolding append_name append_rest
append_name-filled name out_len front rest e =
    ground (arith, append_rest-filled (tokens (snprintf max_name name)) out_len front rest e)

-- With short labels and enough room the labels are appended.
pub append_name-Appends :
    (out_len : ℕ) (name : Text)
    → all_short (tokens (snprintf max_name name)) ≡ true
    → Appends out_len (append_name out_len name) (encode (tokens (snprintf max_name name)))
append_name-Appends out_len name short front rest e h =
    let ts = tokens (snprintf max_name name) in
    let fits : leb (length (encode ts)) (length rest) ≡ true = le→leb _ _ (omega arith) in
    (
      drop (length (encode ts)) rest,
      append_name-filled name out_len front rest e ∙ rw (short, fits),
      omega (arith, length-append front (encode ts), length-drop (length (encode ts)) rest),
    )
