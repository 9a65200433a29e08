-- ===== src/Response/Identity.antt =====
-- The records that a host has of itself, and the names that can be sent.
use umdns.Answers.Record.{Rr, RData, a, aaaa, txt, IsName, IsRData, IsRr}
use umdns.Name.Labels.{canonical, join}
use umdns.Header.{labels_of_lem, labels_of-All, labels_of}
use umdns.Inet.{Inet, IsInet}
use umdns.Name.Encode.{all_short}
use umdns.Prelude.{
  length-append, ap, All, All-take, All-append, length-take, arith, ◌≤◌, ◌++◌, take, length, true,
  Option, ◌≡◌, List, ℕ, [], ◌∷◌, none, some, refl,
}
use umdns.Query.RoundTrip.{asked_name}
use umdns.Response.{address_of, cut_len}
use umdns.Text.{Bytes, Text, IsText}

abbrev pub address_records : (Bytes → RData) → List Text → Option Bytes → List Rr
address_records d owner none = []
address_records d owner (some addr) = record { owner = owner; rdata = d addr } ∷ []

-- A text of more than 255 bytes is cut.
abbrev pub txt_records : List Text → Option Text → List Rr
txt_records owner none = []
txt_records owner (some []) = []
txt_records owner (some (c ∷ cs)) =
    record { owner = owner; rdata = txt (take (cut_len (c ∷ cs)) (c ∷ cs)) } ∷ []

-- What the server has to say of its host.
abbrev pub hostname_records : Inet → List Text → Option Text → Option Text → Option Text → List Rr
hostname_records net owner ipv4 ipv6 text =
    address_records a owner (address_of net.pton4 ipv4)
    ++ address_records aaaa owner (address_of net.pton6 ipv6)
    ++ txt_records owner text

-- A name that can be sent: its labels have 63 bytes at most, and the whole 254.
pub record IsSendable (name : Text) : Type 0 where
  pub text : IsText name
  pub short : all_short (labels_of name) ≡ true
  pub fits : length (asked_name name) ≤ 254

pub IsSendable-IsName : (name : Text) → IsSendable name → IsName (labels_of name)
unfolding canonical
IsSendable-IsName name h = record {
  tokens = labels_of-All name h.text;
  short = h.short;
  fits = omega (arith, ap length (ap join (labels_of_lem name)), h.fits);
}

abbrev pub IsOptionText : Option Text → Type 0
IsOptionText none = Unit {0}
IsOptionText (some text) = IsText text

pub address_records-All :
    (d : Bytes → RData) (owner : List Text) (o : Option Bytes)
    → IsName owner
    → ((addr : Bytes) → o ≡ some addr → IsRData (d addr))
    → All IsRr (address_records d owner o)
address_records-All d owner none n h = tt
address_records-All d owner (some addr) n h =
    (record { owner_name = n; good_data = h addr refl }, tt)

pub txt_records-All :
    (owner : List Text) (o : Option Text)
    → IsName owner
    → IsOptionText o
    → All IsRr (txt_records owner o)
txt_records-All owner none n h = tt
txt_records-All owner (some []) n h = tt
txt_records-All owner (some (c ∷ cs)) n h = (
  record {
    owner_name = n;
    good_data = (
      ground (arith, length-take (cut_len (c ∷ cs)) (c ∷ cs)),
      All-take _ (cut_len (c ∷ cs)) (c ∷ cs) h,
    );
  },
  tt,
)

pub length-address_records :
    (d : Bytes → RData) (owner : List Text) (o : Option Bytes)
    → length (address_records d owner o) ≤ 1
length-address_records d owner none = omega arith
length-address_records d owner (some addr) = omega arith

pub length-txt_records : (owner : List Text) (o : Option Text) → length (txt_records owner o) ≤ 1
length-txt_records owner none = omega arith
length-txt_records owner (some []) = omega arith
length-txt_records owner (some (c ∷ cs)) = omega arith

pub address_of_len :
    (pton : Text → Option Bytes) (size : ℕ) (o : Option Text) (addr : Bytes)
    → ((s : Text) (b : Bytes) → pton s ≡ some b → length b ≡ size)
    → address_of pton o ≡ some addr
    → length addr ≡ size
address_of_len pton size none addr h e = cc
address_of_len pton size (some text) addr h e = h text addr e

pub hostname_records-All :
    (net : Inet) (hostname : Text) (ipv4 ipv6 text : Option Text)
    → IsInet net
    → IsSendable hostname
    → IsOptionText text
    → All IsRr (hostname_records net (labels_of hostname) ipv4 ipv6 text)
hostname_records-All net hostname ipv4 ipv6 text inet sendable t =
    let owner = labels_of hostname in
    let named = IsSendable-IsName hostname sendable in
    let len4 = λ (addr : Bytes). address_of_len net.pton4 4 ipv4 addr inet.pton4_len in
    let len6 = λ (addr : Bytes). address_of_len net.pton6 16 ipv6 addr inet.pton6_len in
    let xs = address_records a owner (address_of net.pton4 ipv4) in
    let ys = address_records aaaa owner (address_of net.pton6 ipv6) in
    All-append _ (xs ++ ys) (txt_records owner text)
      (All-append _ xs ys (address_records-All a owner _ named len4)
        (address_records-All aaaa owner _ named len6))
      (txt_records-All owner text named t)

pub length-hostname_records :
    (net : Inet) (owner : List Text) (ipv4 ipv6 text : Option Text)
    → length (hostname_records net owner ipv4 ipv6 text) ≤ 3
length-hostname_records net owner ipv4 ipv6 text =
    let xs = address_records a owner (address_of net.pton4 ipv4) in
    let ys = address_records aaaa owner (address_of net.pton6 ipv6) in
    omega (
      arith,
      length-append (xs ++ ys) (txt_records owner text),
      length-append xs ys,
      length-address_records a owner (address_of net.pton4 ipv4),
      length-address_records aaaa owner (address_of net.pton6 ipv6),
      length-txt_records owner text,
    )
