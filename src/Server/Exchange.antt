-- ===== src/Server/Exchange.antt =====
-- A client's question that arrives on a socket of src/server/main.c.
use umdns.Server.Host.{handle_question-host}
use umdns.Answers.Record.{result_of}
use umdns.Answers.{parse_answers}
use umdns.Response.Identity.{hostname_records, IsSendable}
use umdns.Name.{max_name}
use umdns.Query.RoundTrip.{message, asked_name}
use umdns.Header.{labels_of}
use umdns.Name.Encode.{all_short}
use umdns.Program.{packet_size}
use umdns.Wire.{Writer}
use umdns.Query.{build_query, parse_question}
use umdns.Outcome.{Outcome, ok, err, fault, stuck, ◌>>=◌}
use umdns.Text.{IsText, Text, Bytes}
use umdns.Message.{rr_aaaa, rr_a, Question}
use umdns.Socket.{send_response, recv_with_timeout}
use umdns.Inet.{IsInet, Inet}
use umdns.Config.{ServerConfig}
use umdns.System.{source, sendto, returned, recvfrom, poll, poll_in, World, Kernel}
use umdns.Server.{server_local_name, name_matches, deliver, react, Reaction, handle_question}
use umdns.Server.Main.{answer_question, serve}
use umdns.Prelude.{length, take, ℕ, ◌≤◌, ◌≡◌, refl, sym, ◌⊎◌, true, some, [], ◌∷◌, map, arith}

-- What `handle_question` sends if sending succeeds is the response.
react_of-handle_question :
    (net : Inet) (config : ServerConfig) (q : Question) (m : Bytes)
    → handle_question (λ b. true) net config q ≡ ok (record { sent = some m; success = true })
    → (r : Reaction) × (b : ℕ) × (bs : Bytes) × (react net config q ≡ ok r)
      × (r.response ≡ b ∷ bs)
      × (m ≡ b ∷ bs)
unfolding handle_question
react_of-handle_question net config q m e = go (react net config q) refl e
  where
    of_response :
        (r : Reaction) (bytes : Bytes)
        → r.response ≡ bytes
        → react net config q ≡ ok r
        → ok (deliver (λ b. true) bytes) ≡ ok (record { sent = some m; success = true })
        → (r : Reaction) × (b : ℕ) × (bs : Bytes) × (react net config q ≡ ok r)
          × (r.response ≡ b ∷ bs)
          × (m ≡ b ∷ bs)
    of_response r [] s h f = absurd cc
    of_response r (b ∷ bs) s h f = (r, b, bs, h, s, cc)

    go :
        (o : Outcome Reaction)
        → react net config q ≡ o
        → (o >>= λ r. ok (deliver (λ b. true) r.response))
          ≡ ok (record { sent = some m; success = true })
        → (r : Reaction) × (b : ℕ) × (bs : Bytes) × (react net config q ≡ ok r)
          × (r.response ≡ b ∷ bs)
          × (m ≡ b ∷ bs)
    go (ok r) h f = of_response r r.response refl h f
    go err h f = absurd cc
    go fault h f = absurd cc
    go stuck h f = absurd cc

-- A message with a question that has a response is answered with the one call.
serve-response :
    (k : Kernel) (config : ServerConfig) (fd : ℕ) (w : World) (bytes src : Bytes) (q : Question)
    → (r : Reaction) (b : ℕ) (bs : Bytes) → k.poll_answer w.history fd 250 ≡ poll_in
    → k.recvfrom_answer (poll fd 250 poll_in ∷ w.history) fd packet_size
      ≡ some (record { bytes = bytes; src = src })
    → parse_question bytes ≡ ok q
    → react k.inet config q ≡ ok r
    → r.response ≡ b ∷ bs
    → (let h =
          recvfrom fd (some (record { bytes = bytes; src = src }))
          ∷ poll fd 250 poll_in
          ∷ w.history in
        serve k config (some fd) w
        ≡ returned tt (record w {
          history =
              sendto fd (source src) (b ∷ bs) (k.sendto_answer h fd (source src) (b ∷ bs)) ∷ h;
        }))
unfolding serve recv_with_timeout answer_question send_response parse_question
serve-response k config fd w [] src q r b bs polled received parsed reacted says = absurd cc
serve-response k config fd w (x ∷ xs) src q r b bs polled received parsed reacted says =
    rw (polled, received, parsed, reacted, says) refl

-- A client asks for an A or AAAA record of the server's host, in any case of the letters, and its query
-- arrives on a socket of the server: whatever the kernel answers, in its round the server makes one call
-- behind the two that receive the query, which sends a response back to where the query came from, and the
-- client reads from that response the rows of the host's addresses and text.
pub serve-host :
    (k : Kernel) (config : ServerConfig) (fd : ℕ) (src : Bytes) (w : World) (name : Text)
    → (qtype max_rows : ℕ) (query : Writer) → IsInet k.inet
    → (qtype ≡ rr_a) ⊎ (qtype ≡ rr_aaaa)
    → IsText name
    → all_short (labels_of name) ≡ true
    → length (asked_name name) ≤ 254
    → name_matches (asked_name name) (server_local_name config.hostname max_name) ≡ true
    → IsSendable config.hostname
    → IsText config.host_txt
    → build_query qtype (some name) packet_size ≡ ok query
    → k.poll_answer w.history fd 250 ≡ poll_in
    → k.recvfrom_answer (poll fd 250 poll_in ∷ w.history) fd packet_size
      ≡ some (record { bytes = message query; src = src })
    → (m : Bytes) × (parse_answers k.inet m max_rows
        ≡ ok (
            take max_rows (
              map (result_of k.inet) (
                hostname_records k.inet
                  (labels_of config.hostname)
                  (some config.ipv4)
                  (some config.ipv6)
                  (some config.host_txt)))))
      × (let h =
            recvfrom fd (some (record { bytes = message query; src = src }))
            ∷ poll fd 250 poll_in
            ∷ w.history in
          serve k config (some fd) w
          ≡ returned tt (record w {
            history = sendto fd (source src) m (k.sendto_answer h fd (source src) m) ∷ h;
          }))
serve-host k config fd src w name qtype max_rows query inet type text short fits matches sendable
      host_text asked polled received =
    let (v, q, m, built, parsed, handled, rows) =
      handle_question-host (λ b. true) k.inet config name qtype packet_size max_rows inet type text
        short fits matches sendable host_text (omega arith) in
    let (r, b, bs, reacted, says, same) = react_of-handle_question k.inet config q m handled in
    let one : v ≡ query = cc in
    (
      b ∷ bs,
      rw (sym same) rows,
      serve-response k config fd w (message query) src q r b bs polled received
          (rw (sym one) parsed) reacted says,
    )
