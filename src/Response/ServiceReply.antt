-- ===== src/Response/ServiceReply.antt =====
-- The answer to a question for a service, from `umdns_mdns_build_response_service` to the rows that the
-- asking side gets.
use umdns.Answers.Record.{Rr, ptr, srv, IsName, IsRr, rr_bytes, result_of}
use umdns.Answers.RoundTrip.{rrs_bytes, parse_answers-response_bytes}
use umdns.Answers.{parse_answers}
use umdns.Header.{blank, labels_of}
use umdns.Inet.{Inet}
use umdns.Message.{Service}
use umdns.Name.Encode.{all_short}
use umdns.Name.Labels.{canonical, length-canonical, tokens-All, length-encode-join}
use umdns.Name.{max_name}
use umdns.Outcome.{Outcome, ok, ◌>>=◌, bind_assoc}
use umdns.Prelude.{
  ltb, leb, length, take, All, length-append, lt→leb_false, le→ltb_false, take_all, ℕ, ◌+◌, ◌^◌,
  ◌≤◌, ◌<◌, ◌≡◌, sym, ap, ◌∙◌, true, false, some, List, [], ◌∷◌, ◌++◌, map, append-nil, arith,
  All-append, All-take,
}
use umdns.Query.RoundTrip.{message}
use umdns.Response.Hostname.{add_txt-Replies}
use umdns.Response.Identity.{
  IsSendable, IsSendable-IsName, txt_records, txt_records-All, length-txt_records,
}
use umdns.Response.Messages.{blank-Replies, counted-Replies, finish-Replies}
use umdns.Response.Records.{labels, append_ptr-Appends, append_srv-Appends}
use umdns.Response.{
  Reply, finish, counted, append_ptr, append_srv, add_txt, instance_name, host_or_localhost,
  build_response_service,
}
use umdns.Text.{IsText, snprintf, normalize_local_name}
use umdns.Text.Laws.{normalize_local_name-IsText}
use umdns.Wire.{Writer}

-- A service whose names can be sent, its instance name in front of its type among them.
pub record IsSendableService (s : Service) : Type 0 where
  pub type_name : IsSendable s.type
  pub host_name : IsSendable (host_or_localhost s.host)
  pub instance_text : IsText s.instance
  pub instance_short : all_short (labels (instance_name s)) ≡ true
  pub instance_fits : length (instance_name s) ≤ 254
  pub port_fits : s.port < 2 ^ 16
  pub txt_text : IsText s.txt

-- What the server has to say of a service.
abbrev pub service_records : Service → List Rr
service_records s =
    record { owner = labels_of s.type; rdata = ptr (labels (instance_name s)) }
    ∷ record {
      owner = labels (instance_name s);
      rdata = srv s.port (labels_of (host_or_localhost s.host));
    }
    ∷ txt_records (labels (instance_name s)) (some s.txt)

instance_name-IsName : (s : Service) → IsSendableService s → IsName (labels (instance_name s))
unfolding canonical
instance_name-IsName s h =
    let whole : snprintf max_name (instance_name s) ≡ instance_name s =
      take_all 255 (instance_name s) (omega (arith, h.instance_fits)) in
    let text : IsText (instance_name s) =
      All-append _ s.instance (b'.' ∷ normalize_local_name (some s.type) max_name) h.instance_text
        (omega arith, normalize_local_name-IsText s.type max_name h.type_name.text) in
    record {
      tokens = tokens-All _ (All-take _ 255 (instance_name s) text);
      short = h.instance_short;
      fits = rw whole (omega (arith, length-canonical (instance_name s), h.instance_fits));
    }

service_records-All : (s : Service) → IsSendableService s → All IsRr (service_records s)
service_records-All s h =
    let named = instance_name-IsName s h in
    (
      record { owner_name = IsSendable-IsName s.type h.type_name; good_data = named },
      (
        record {
          owner_name = named;
          good_data = (h.port_fits, IsSendable-IsName (host_or_localhost s.host) h.host_name);
        },
        txt_records-All (labels (instance_name s)) (some s.txt) named h.txt_text,
      ),
    )

-- A service whose names can be sent is answered with its PTR, SRV and TXT records, and the asking side
-- reads exactly their rows, as many as it has room for.
pub parse_answers-build_response_service :
    (net : Inet) (s : Service) (out_len max_results : ℕ)
    → IsSendableService s
    → 12 + length (rrs_bytes (service_records s)) ≤ out_len
    → (w : Writer) × (build_response_service (some s) out_len ≡ ok w)
      × (parse_answers net (message w) max_results
          ≡ ok (take max_results (map (result_of net) (service_records s))))
unfolding build_response_service
parse_answers-build_response_service net s out_len max_results h room =
    let type = normalize_local_name (some s.type) max_name in
    let host = normalize_local_name (some (host_or_localhost s.host)) max_name in
    let name = instance_name s in
    let named = instance_name-IsName s h in
    let host_named = IsSendable-IsName (host_or_localhost s.host) h.host_name in
    let p : Rr = record { owner = labels type; rdata = ptr (labels name) } in
    let v : Rr = record { owner = labels name; rdata = srv s.port (labels host) } in
    let ts = txt_records (labels name) (some s.txt) in
    let size1 = length-append (rr_bytes p) (rr_bytes v ++ rrs_bytes ts) in
    let size2 = length-append (rr_bytes v) (rrs_bytes ts) in
    let fp = counted (append_ptr out_len type name) in
    let fv = counted (append_srv out_len name s.port host) in
    let ft = add_txt out_len name (some s.txt) in
    let start : Outcome Reply = ok (record { writer = blank out_len; ancount = 0 }) in
    let r1 =
      counted-Replies out_len (append_ptr out_len type name) start [] p
        (append_ptr-Appends out_len type h.type_name.short name h.instance_short
          (omega (arith, length-encode-join (labels name), named.fits)))
        (omega arith) (omega (arith, ap length (append-nil (rr_bytes p)), size1, size2, room))
        (blank-Replies out_len (omega (arith, room))) in
    let r2 =
      counted-Replies out_len (append_srv out_len name s.port host) (start >>= fp) (p ∷ []) v
        (append_srv-Appends out_len name h.instance_short s.port host h.host_name.short
          (omega (arith, length-encode-join (labels host), host_named.fits)))
        (omega arith)
        (omega (
          arith,
          ap length (append-nil (rr_bytes v)),
          length-append (rr_bytes p) (rr_bytes v ++ []),
          size1,
          size2,
          room,
        ))
        r1 in
    let r3 =
      add_txt-Replies out_len name h.instance_short (some s.txt) ((start >>= fp) >>= fv)
        (p ∷ v ∷ []) (omega arith) room r2 in
    let (w, built, sent) =
      finish-Replies out_len (((start >>= fp) >>= fv) >>= ft) (service_records s) r3 in
    let big : ltb out_len 12 ≡ false = le→ltb_false _ _ (omega (arith, room)) in
    let fits : leb max_name (length name) ≡ false =
      lt→leb_false _ _ (omega (arith, h.instance_fits)) in
    (
      w,
      rw (big, fits)
          (sym (
              bind_assoc ((start >>= fp) >>= fv) ft finish
              ∙ bind_assoc (start >>= fp) fv (λ r. ft r >>= finish))
            ∙ built),
      rw sent (
          parse_answers-response_bytes net (service_records s) max_results (service_records-All s h)
            (omega (arith, length-txt_records (labels name) (some s.txt)))),
    )
