-- ===== src/Response/Hostname.antt =====
-- The answer to a question for the host, from `umdns_mdns_build_response_hostname` to the rows that
-- the asking side gets.
use umdns.Answers.Record.{Rr, RData, a, aaaa, txt, rr_bytes, result_of}
use umdns.Answers.RoundTrip.{response_bytes, rrs_bytes, parse_answers-response_bytes}
use umdns.Answers.{parse_answers}
use umdns.Header.{blank, labels_of}
use umdns.Inet.{Inet, IsInet}
use umdns.Message.{rr_a, rr_aaaa, rr_txt}
use umdns.Name.Encode.{all_short}
use umdns.Name.{max_name}
use umdns.Outcome.{Outcome, ok, ◌>>=◌, bind_assoc}
use umdns.Prelude.{
  ◌∙◌, le→ltb_false, false, ltb, length-append, map, ap, length-take, sym, arith, ◌≤◌, ◌<◌, ◌+◌,
  ◌++◌, take, length, true, Option, ◌≡◌, List, ℕ, [], ◌∷◌, none, some, refl,
}
use umdns.Query.RoundTrip.{message}
use umdns.Response.Messages.{
  Replies, rrs_bytes-append, same-Replies, blank-Replies, counted-Replies, finish-Replies,
}
use umdns.Response.Records.{labels, append_address-Appends, append_txt-Appends, record_bytes}
use umdns.Response.{
  Reply, finish, address_of, add_address, add_txt, append_address, append_txt, cut_len,
  build_response_hostname,
}
use umdns.Text.{Bytes, Text, normalize_local_name}
use umdns.Wire.Appends.{Appends-eq}
use umdns.Wire.{Writer}
use umdns.Response.Identity.{
  address_records, txt_records, hostname_records, IsSendable, IsSendable-IsName, IsOptionText,
  length-address_records, length-txt_records, address_of_len, hostname_records-All,
  length-hostname_records,
}

module _ (out_len : ℕ) (name : Text) (short : all_short (labels name) ≡ true) where
  add_address-Replies :
      (d : Bytes → RData) (rrtype size : ℕ) (o : Option Bytes) (s : Outcome Reply) (rs : List Rr)
      → ((addr : Bytes)
          → rr_bytes (record { owner = labels name; rdata = d addr })
            ≡ record_bytes (labels name) rrtype addr)
      → ((addr : Bytes) → o ≡ some addr → length addr ≡ size)
      → length rs + 1 < 65536
      → 12 + length (rrs_bytes (rs ++ address_records d (labels name) o)) ≤ out_len
      → Replies out_len s rs
      → Replies out_len
          (s >>= add_address out_len name rrtype size o)
          (rs ++ address_records d (labels name) o)
  unfolding add_address
  add_address-Replies d rrtype size none s rs same len few room h =
      same-Replies out_len (add_address out_len name rrtype size none) s rs (λ r. refl) h
  add_address-Replies d rrtype size (some addr) s rs same len few room h =
      counted-Replies out_len (append_address out_len name rrtype size addr) s rs
        (record { owner = labels name; rdata = d addr })
        (Appends-eq out_len (append_address out_len name rrtype size addr) _ _ (sym (same addr))
          (append_address-Appends out_len name short rrtype size addr (len addr refl)))
        few room h

  pub add_txt-Replies :
      (o : Option Text) (s : Outcome Reply) (rs : List Rr)
      → length rs + 1 < 65536
      → 12 + length (rrs_bytes (rs ++ txt_records (labels name) o)) ≤ out_len
      → Replies out_len s rs
      → Replies out_len (s >>= add_txt out_len name o) (rs ++ txt_records (labels name) o)
  unfolding add_txt
  add_txt-Replies none s rs few room h =
      same-Replies out_len (add_txt out_len name none) s rs (λ r. refl) h
  add_txt-Replies (some []) s rs few room h =
      same-Replies out_len (add_txt out_len name (some [])) s rs (λ r. refl) h
  add_txt-Replies (some (c ∷ cs)) s rs few room h =
      let text = take (cut_len (c ∷ cs)) (c ∷ cs) in
      let size : length text ≡ cut_len (c ∷ cs) =
        ground (arith, length-take (cut_len (c ∷ cs)) (c ∷ cs)) in
      counted-Replies out_len (append_txt out_len name (c ∷ cs)) s rs
        (record { owner = labels name; rdata = txt text })
        (Appends-eq out_len (append_txt out_len name (c ∷ cs)) _ _
          (ap (λ (n : ℕ). record_bytes (labels name) rr_txt (n ∷ text)) (sym size))
          (append_txt-Appends out_len name short (c ∷ cs)))
        few room h

-- The message that the builder leaves in the buffer is the response with the records of the host.
pub build_response_hostname-bytes :
    (net : Inet) (hostname : Text) (ipv4 ipv6 text : Option Text) (out_len : ℕ)
    → IsInet net
    → IsSendable hostname
    → IsOptionText text
    → 12 + length (rrs_bytes (hostname_records net (labels_of hostname) ipv4 ipv6 text)) ≤ out_len
    → (w : Writer) × (build_response_hostname net (some hostname) ipv4 ipv6 text out_len ≡ ok w)
      × (message w ≡ response_bytes (hostname_records net (labels_of hostname) ipv4 ipv6 text))
unfolding build_response_hostname
build_response_hostname-bytes net hostname ipv4 ipv6 text out_len inet sendable t room =
    let name = normalize_local_name (some hostname) max_name in
    let owner = labels_of hostname in
    let xs = address_records a owner (address_of net.pton4 ipv4) in
    let ys = address_records aaaa owner (address_of net.pton6 ipv6) in
    let zs = txt_records owner text in
    let named = IsSendable-IsName hostname sendable in
    let len4 = λ (addr : Bytes). address_of_len net.pton4 4 ipv4 addr inet.pton4_len in
    let len6 = λ (addr : Bytes). address_of_len net.pton6 16 ipv6 addr inet.pton6_len in
    let cx = length-address_records a owner (address_of net.pton4 ipv4) in
    let cy = length-address_records aaaa owner (address_of net.pton6 ipv6) in
    let cz = length-txt_records owner text in
    let split = rrs_bytes-append (xs ++ ys) zs in
    let sizes = length-append (rrs_bytes (xs ++ ys)) (rrs_bytes zs) in
    let split' = rrs_bytes-append xs ys in
    let sizes' = length-append (rrs_bytes xs) (rrs_bytes ys) in
    let fa = add_address out_len name rr_a 4 (address_of net.pton4 ipv4) in
    let fb = add_address out_len name rr_aaaa 16 (address_of net.pton6 ipv6) in
    let fc = add_txt out_len name text in
    let start : Outcome Reply = ok (record { writer = blank out_len; ancount = 0 }) in
    let r0 = blank-Replies out_len (omega arith) in
    let r1 =
      add_address-Replies out_len name sendable.short a rr_a 4 (address_of net.pton4 ipv4) start []
        (λ addr. refl) len4 (omega arith)
        (omega (arith, ap length split, sizes, ap length split', sizes')) r0 in
    let r2 =
      add_address-Replies out_len name sendable.short aaaa rr_aaaa 16 (address_of net.pton6 ipv6)
        (start >>= fa) xs (λ addr. refl) len6 (omega arith)
        (omega (arith, ap length split, sizes, ap length split', sizes')) r1 in
    let r3 =
      add_txt-Replies out_len name sendable.short text ((start >>= fa) >>= fb) (xs ++ ys)
        (omega (arith, length-append xs ys)) (omega arith) r2 in
    let (w, built, sent) =
      finish-Replies out_len (((start >>= fa) >>= fb) >>= fc) ((xs ++ ys) ++ zs) r3 in
    let big : ltb out_len 12 ≡ false = le→ltb_false _ _ (omega arith) in
    (
      w,
      rw big (
          sym (
            bind_assoc ((start >>= fa) >>= fb) fc finish
            ∙ bind_assoc (start >>= fa) fb (λ r. fc r >>= finish))
          ∙ built),
      sent,
    )

-- A host whose name can be sent answers with its A, AAAA and TXT records, and the asking side reads
-- exactly their rows, as many as it has room for.
pub parse_answers-build_response_hostname :
    (net : Inet) (hostname : Text) (ipv4 ipv6 text : Option Text) (out_len max_results : ℕ)
    → IsInet net
    → IsSendable hostname
    → IsOptionText text
    → 12 + length (rrs_bytes (hostname_records net (labels_of hostname) ipv4 ipv6 text)) ≤ out_len
    → (w : Writer) × (build_response_hostname net (some hostname) ipv4 ipv6 text out_len ≡ ok w)
      × (parse_answers net (message w) max_results
          ≡ ok (
              take max_results
                (map (result_of net) (hostname_records net (labels_of hostname) ipv4 ipv6 text))))
parse_answers-build_response_hostname net hostname ipv4 ipv6 text out_len max_results inet sendable
      t room =
    let (w, built, sent) =
      build_response_hostname-bytes net hostname ipv4 ipv6 text out_len inet sendable t room in
    (
      w,
      built,
      rw sent (
          parse_answers-response_bytes net _ max_results
            (hostname_records-All net hostname ipv4 ipv6 text inet sendable t)
            (omega (arith, length-hostname_records net (labels_of hostname) ipv4 ipv6 text))),
    )
