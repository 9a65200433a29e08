-- ===== src/Table/Print.antt =====
-- `umdns_table_print_results` of src/common/table.c: the text that it prints.
use umdns.Options.Numbers.{numeral, horner}
use umdns.Text.{codes, Text}
use umdns.Message.{Result}
use umdns.Prelude.{
  All-append, inr, inl, Bool-cases, ◌^◌, ◌*◌, ◌<◌, All, ltb, length, take, drop, replicate,
  length-append, take-append, ℕ, zero, suc, ◌+◌, ◌-◌, ◌/◌, ◌%◌, ◌≤◌, ◌≡◌, refl, sym, ap, ◌∙◌, List,
  [], ◌∷◌, ◌++◌, arith, if◌then◌else◌, drop-append, length-replicate,
}

-- `%-…s`: at least so many characters, filled with spaces.
unfoldable pub pad : ℕ → Text → Text
pad n t = t ++ replicate (n - length t) b' '

-- `%u` of a number of at most so many digits.
abbrev pub decimal : ℕ → ℕ → Text
decimal zero n = []
decimal (suc k) n =
    let front = decimal k (n / 10) in
    if ltb n 10 then (b'0' + n) ∷ [] else front ++ ((b'0' + n % 10) ∷ [])

-- A column and the space behind it.
abbrev pub cell : ℕ → Text → Text → Text
cell n t rest = pad n t ++ (b' ' ∷ rest)

-- The format of all lines.
unfoldable pub table_line : Text → Text → Text → Text → Text → Text → Text
table_line instance host service address port txt =
    cell 28 instance
      (cell 24 host (cell 28 service (cell 18 address (cell 6 port (txt ++ codes "\n")))))

-- The line of a row; a port has at most 5 digits.
unfoldable pub result_line : Result → Text
result_line r = table_line r.instance r.hostname r.service_type r.address (decimal 5 r.port) r.txt

abbrev pub result_lines : List Result → Text
result_lines [] = []
result_lines (r ∷ rs) = result_line r ++ result_lines rs

-- `umdns_table_print_results`.
unfoldable pub printed_results : List Result → Text
printed_results rows =
    table_line (codes "INSTANCE") (codes "HOST") (codes "SERVICE") (codes "ADDRESS") (codes "PORT")
      (codes "TXT")
    ++ table_line (codes "----------------------------") (codes "------------------------")
        (codes "----------------------------") (codes "------------------") (codes "------")
        (codes "------------------------------")
    ++ result_lines rows

-- The row's texts are not wider than their columns, and its port is one.
pub record IsNarrow (r : Result) : Type 0 where
  pub instance_fits : length r.instance ≤ 28
  pub host_fits : length r.hostname ≤ 24
  pub service_fits : length r.service_type ≤ 28
  pub address_fits : length r.address ≤ 18
  pub port_fits : r.port < 2 ^ 16

-- A line cut at columns of these widths, with a character between each and the next.
unfoldable pub columns : List ℕ → Text → List Text
columns [] line = line ∷ []
columns (n ∷ ns) line = take n line ∷ columns ns (drop (n + 1) line)

length-decimal : (k n : ℕ) → length (decimal k n) ≤ k
length-decimal zero n = omega arith
length-decimal (suc k) n =
    ground
      (arith, length-decimal k (n / 10), length-append (decimal k (n / 10)) ((b'0' + n % 10) ∷ []))

length-pad : (n : ℕ) (t : Text) → length t ≤ n → length (pad n t) ≡ n
unfolding pad
length-pad n t h = omega (
  arith,
  length-append t (replicate (n - length t) b' '),
  length-replicate {A = ℕ} (n - length t) b' ',
  h,
)

take-cell : (n : ℕ) (t rest : Text) → length t ≤ n → take n (cell n t rest) ≡ pad n t
take-cell n t rest h = take-append n (pad n t) (b' ' ∷ rest) (sym (length-pad n t h))

drop-cell : (n : ℕ) (t rest : Text) → length t ≤ n → drop (n + 1) (cell n t rest) ≡ rest
drop-cell n t rest h =
    drop-append (n + 1) 1 (pad n t) (b' ' ∷ rest) (omega (arith, length-pad n t h))

columns-cell :
    (n : ℕ) (ns : List ℕ) (t rest : Text)
    → length t ≤ n
    → columns (n ∷ ns) (cell n t rest) ≡ pad n t ∷ columns ns rest
unfolding columns
columns-cell n ns t rest h = rw (take-cell n t rest h, drop-cell n t rest h) refl

horner-append : (m : ℕ) (ds : List ℕ) (d : ℕ) → horner m (ds ++ (d ∷ [])) ≡ horner m ds * 10 + d
unfolding horner
horner-append m [] d = refl
horner-append m (e ∷ ds) d = horner-append (m * 10 + e) ds d

numeral-append : (ds : List ℕ) (d : ℕ) → numeral (ds ++ (d ∷ [])) ≡ numeral ds ++ ((b'0' + d) ∷ [])
numeral-append [] d = refl
numeral-append (e ∷ ds) d = ap (◌∷◌ (b'0' + e)) (numeral-append ds d)

-- The digits that are printed have the number as their value.
decimal-numeral :
    (k n : ℕ)
    → n < 10 ^ k
    → (ds : List ℕ) × All (λ d. d < 10) ds × (horner 0 ds ≡ n) × (decimal k n ≡ numeral ds)
unfolding horner
decimal-numeral zero n h = ([], tt, omega (arith, h), refl)
decimal-numeral (suc k) n h = elim (Bool-cases (ltb n 10)) [
  | inl one ↦ (n ∷ [], (ground (arith, one), tt), omega arith, rw one refl)
  | inr more ↦
      let power : 10 ^ suc k ≡ 10 ^ k * 10 = omega arith in
      let (ds, small, value, text) = decimal-numeral k (n / 10) (omega (arith, h, power)) in
      (
        ds ++ ((n % 10) ∷ []),
        All-append (λ d. d < 10) ds ((n % 10) ∷ []) small (omega arith, tt),
        horner-append 0 ds (n % 10) ∙ omega (arith, value),
        rw (more, text) (sym (numeral-append ds (n % 10))),
      )
]

columns-padded :
    (r : Result)
    → IsNarrow r
    → columns (28 ∷ 24 ∷ 28 ∷ 18 ∷ 6 ∷ []) (result_line r)
      ≡ pad 28 r.instance
        ∷ pad 24 r.hostname
        ∷ pad 28 r.service_type
        ∷ pad 18 r.address
        ∷ pad 6 (decimal 5 r.port)
        ∷ (r.txt ++ codes "\n")
        ∷ []
unfolding result_line table_line
columns-padded r h =
    let port = decimal 5 r.port in
    let last = r.txt ++ codes "\n" in
    let after_address = cell 6 port last in
    let after_service = cell 18 r.address after_address in
    let after_host = cell 28 r.service_type after_service in
    let few : length port ≤ 6 = omega (arith, length-decimal 5 r.port) in
    columns-cell 28 (24 ∷ 28 ∷ 18 ∷ 6 ∷ []) r.instance (cell 24 r.hostname after_host)
      h.instance_fits
    ∙ ap (◌∷◌ (pad 28 r.instance)) (
        columns-cell 24 (28 ∷ 18 ∷ 6 ∷ []) r.hostname after_host h.host_fits
        ∙ ap (◌∷◌ (pad 24 r.hostname)) (
            columns-cell 28 (18 ∷ 6 ∷ []) r.service_type after_service h.service_fits
            ∙ ap (◌∷◌ (pad 28 r.service_type)) (
                columns-cell 18 (6 ∷ []) r.address after_address h.address_fits
                ∙ ap (◌∷◌ (pad 18 r.address))
                    (columns-cell 6 [] port last few ∙ unfold columns in refl))))

-- The line of a row that is narrow enough, cut at the widths of the columns, gives the members of the row
-- back in their order, each with spaces behind it up to the width; the port stands there as a numeral of its
-- value, and a newline behind the TXT text.
pub columns-result_line :
    (r : Result)
    → IsNarrow r
    → (ds : List ℕ) × All (λ d. d < 10) ds
      × (horner 0 ds ≡ r.port)
      × (columns (28 ∷ 24 ∷ 28 ∷ 18 ∷ 6 ∷ []) (result_line r)
          ≡ (r.instance ++ replicate (28 - length r.instance) b' ')
            ∷ (r.hostname ++ replicate (24 - length r.hostname) b' ')
            ∷ (r.service_type ++ replicate (28 - length r.service_type) b' ')
            ∷ (r.address ++ replicate (18 - length r.address) b' ')
            ∷ (numeral ds ++ replicate (6 - length (numeral ds)) b' ')
            ∷ (r.txt ++ codes "\n")
            ∷ [])
unfolding pad
columns-result_line r h =
    let (ds, small, value, text) = decimal-numeral 5 r.port (omega (arith, h.port_fits)) in
    (ds, small, value, rw (sym text) (columns-padded r h))
