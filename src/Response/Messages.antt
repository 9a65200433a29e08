-- ===== src/Response/Messages.antt =====
-- The responses that the builders write, as lists of records.
use umdns.Answers.Record.{Rr, rr_bytes}
use umdns.Answers.RoundTrip.{rrs_bytes, response_bytes}
use umdns.Header.{zeros, blank, blank-Filled, write_flags, write_ancount}
use umdns.Outcome.{Outcome, ok, ◌>>=◌}
use umdns.Prelude.{
  ◌%◌, length-append, arith, arith, append-nil, arith, ap, ◌∙◌, arith, ◌<◌, arith, ◌+◌, take-append,
  arith, append_assoc, ◌≡◌, ◌++◌, length, arith, ◌≤◌, arith, List, ℕ, [], ◌∷◌, refl,
}
use umdns.Query.RoundTrip.{message}
use umdns.Response.{Reply, counted, finish}
use umdns.Text.{Bytes}
use umdns.Wire.Appends.{Appends}
use umdns.Wire.Laws.{filled}
use umdns.Wire.{Writer}

-- The reply with these records, which fit the buffer.
abbrev pub Replies : ℕ → Outcome Reply → List Rr → Type 0
Replies out_len m rs =
    (rest : Bytes) × (m
      ≡ ok (record { writer = filled (zeros 12 ++ rrs_bytes rs) rest; ancount = length rs }))
    × (out_len ≡ 12 + length (rrs_bytes rs) + length rest)

pub rrs_bytes-append : (xs ys : List Rr) → rrs_bytes (xs ++ ys) ≡ rrs_bytes xs ++ rrs_bytes ys
rrs_bytes-append [] ys = refl
rrs_bytes-append (x ∷ xs) ys = simp (rrs_bytes-append xs ys, append_assoc)

pub blank-Replies :
    (out_len : ℕ)
    → 12 ≤ out_len
    → Replies out_len (ok (record { writer = blank out_len; ancount = 0 })) []
blank-Replies out_len h = let (rest, e, l) = blank-Filled out_len h in (rest, rw e, omega arith)

-- A record more, counted.
pub counted-Replies :
    (out_len : ℕ) (m : Writer → Outcome Writer) (s : Outcome Reply) (rs : List Rr) (r : Rr)
    → Appends out_len m (rr_bytes r)
    → length rs + 1 < 65536
    → 12 + length (rrs_bytes (rs ++ (r ∷ []))) ≤ out_len
    → Replies out_len s rs
    → Replies out_len (s >>= counted m) (rs ++ (r ∷ []))
counted-Replies out_len m s rs r f few room (rest, e, l) =
    let more : rrs_bytes (rs ++ (r ∷ [])) ≡ rrs_bytes rs ++ rr_bytes r =
      rrs_bytes-append rs (r ∷ [])
      ∙ ap (λ (x : Bytes). rrs_bytes rs ++ x) (append-nil (rr_bytes r)) in
    let (rest1, e1, l1) =
      f (zeros 12 ++ rrs_bytes rs) rest (omega arith)
        (omega (arith, ap length more, length-append (rrs_bytes rs) (rr_bytes r))) in
    let count : (length rs + 1) % 65536 ≡ length (rs ++ (r ∷ [])) =
      omega (arith, length-append rs (r ∷ [])) in
    (rest1, rw (e, e1, count, more), omega (arith, ap length more))

-- The finished message.
pub finish-Replies :
    (out_len : ℕ) (s : Outcome Reply) (rs : List Rr)
    → Replies out_len s rs
    → (w : Writer) × ((s >>= finish) ≡ ok w) × (message w ≡ response_bytes rs)
unfolding finish
finish-Replies out_len s rs (rest, e, l) = (
  filled (response_bytes rs) rest,
  rw (
    e,
    write_flags 0x8400 (rrs_bytes rs) rest,
    write_ancount 0x8400 (length rs) (rrs_bytes rs) rest,
  ),
  take-append (length (response_bytes rs)) (response_bytes rs) rest refl,
)

-- A step that adds nothing.
pub same-Replies :
    (out_len : ℕ) (f : Reply → Outcome Reply) (s : Outcome Reply) (rs : List Rr)
    → ((r : Reply) → f r ≡ ok r)
    → Replies out_len s rs
    → Replies out_len (s >>= f) (rs ++ [])
same-Replies out_len f s rs h (rest, e, l) = rw append-nil (rest, rw (e, h), l)
