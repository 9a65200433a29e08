-- ===== src/Tests/Replies.antt =====
-- The server on a socket, and the addresses that it announces.
use umdns.Server.Exchange.{serve-host}
use umdns.Server.Services.{handle_question-service}
use umdns.Response.ServiceReply.{service_records}
use umdns.Server.Main.{answer_question, serve}
use umdns.Header.{labels_of}
use umdns.Response.Identity.{hostname_records}
use umdns.Answers.Record.{result_of}
use umdns.Answers.{parse_answers}
use umdns.Server.Answer.{answer_question-handle_question, sent_calls, sends}
use umdns.Query.RoundTrip.{message}
use umdns.Name.Labels.{canonical}
use umdns.Server.{deliver, name_matches, server_local_name, handle_question, response_size}
use umdns.Server.Addresses.{
  discover_interface_addresses-first, addresses6, addresses4, first_address,
}
use umdns.Name.{split_dots, tokens}
use umdns.Wire.{Writer}
use umdns.Text.{
  copy_string, tolower, text_eq, text_case_eq, has_local_suffix, codes, normalize_local_name, Text,
  Bytes,
}
use umdns.System.{
  source, sendto, returned, poll_in, poll, no_address, other_address, address6, recvfrom, address4,
  InterfaceAddress, Kernel, Interface, History,
}
use umdns.Server.Discovery.{
  is_loopback6, is_link_local, take_address, localhost6, is_skipped, localhost4, is_candidate,
  discover_loop, rrtype_to_text, format_source_ip, discover_interface_addresses,
}
use umdns.Query.{build_query}
use umdns.Outcome.{Outcome, ok, err, fault, stuck}
use umdns.Tests.Responses.{plain_net, plain_net-IsInet, node-IsSendable}
use umdns.Tests.Programs.{plain_kernel, plain_kernel-IsKernel, start}
use umdns.Tests.Services.{web, web-IsSendableService}
use umdns.Tests.Servers.{node_config}
use umdns.Query.RoundTrip.{parse_question-build_query}
use umdns.Config.{service_init}
use umdns.Message.{rr_ptr, rr_aaaa, Service, Question}
use umdns.Inet.{Inet}
use umdns.Prelude.{
  length, take, ◌≤◌, ◌≡◌, refl, inr, Bool, true, false, some, List, [], ◌∷◌, map, arith,
}

abbrev fe80 : Bytes
fe80 = 0xfe ∷ 0x80 ∷ []

abbrev entry : Text → Bool → InterfaceAddress → Interface
entry name is_loopback addr = record {
  name = name;
  is_up = true;
  is_loopback = is_loopback;
  addr = addr;
}

-- The loopback, a link-local address, one without an address, and two of each family.
abbrev interfaces : List Interface
interfaces =
    entry (codes "lo") true (address4 (127 ∷ 0 ∷ 0 ∷ 1 ∷ []))
    ∷ entry (codes "eth0") false (address6 fe80)
    ∷ entry (codes "eth0") false no_address
    ∷ entry (codes "eth0") false (address4 (10 ∷ 0 ∷ 0 ∷ 1 ∷ []))
    ∷ entry (codes "eth1") false (address4 (10 ∷ 0 ∷ 0 ∷ 2 ∷ []))
    ∷ entry (codes "eth1") false (address6 (0x20 ∷ 0x01 ∷ []))
    ∷ []

abbrev numbered : Inet
numbered = record plain_net { ntop4 = λ b size. some b; ntop6 = λ b size. some b }

found_run :
    discover_interface_addresses numbered [] (some interfaces)
    ≡ (10 ∷ 0 ∷ 0 ∷ 1 ∷ [], 0x20 ∷ 0x01 ∷ [])
unfolding discover_interface_addresses discover_loop is_candidate is_skipped take_address
    is_link_local is_loopback6
found_run = refl

on_eth0_run :
    discover_interface_addresses numbered (codes "eth0") (some interfaces)
    ≡ (10 ∷ 0 ∷ 0 ∷ 1 ∷ [], fe80)
unfolding discover_interface_addresses discover_loop is_candidate is_skipped take_address
    is_link_local is_loopback6 text_eq
on_eth0_run = refl

nothing_run :
    discover_interface_addresses numbered (codes "wlan0") (some interfaces)
    ≡ (localhost4, localhost6)
unfolding discover_interface_addresses discover_loop is_candidate is_skipped take_address
    is_link_local is_loopback6 text_eq
nothing_run = refl

rrtype_run : (rrtype_to_text 33 ≡ codes "SRV") × (rrtype_to_text 41 ≡ codes "UNKNOWN")
unfolding rrtype_to_text
rrtype_run = (refl, refl)

source_run :
    (format_source_ip numbered (address4 (1 ∷ 2 ∷ [])) 46 ≡ 1 ∷ 2 ∷ [])
    × (format_source_ip numbered other_address 46 ≡ codes "unknown")
unfolding format_source_ip
source_run = (refl, refl)

discover_interface_addresses-first_example :
    discover_interface_addresses numbered [] (some interfaces) ≡ (
      first_address localhost4 (addresses4 numbered [] interfaces),
      first_address localhost6 (addresses6 numbered [] interfaces),
    )
discover_interface_addresses-first_example =
    discover_interface_addresses-first numbered [] interfaces

abbrev node_question : Question
node_question = record { name = codes "node.local"; qtype = 255 }

answer_question-handle_question_example :
    (m : Bytes) × (length m ≤ response_size)
    × (handle_question (sends plain_kernel 3 [] []) plain_kernel.inet node_config node_question
        ≡ ok (deliver (sends plain_kernel 3 [] []) m))
    × (answer_question plain_kernel 3 [] node_config node_question start
        ≡ returned
            (deliver (sends plain_kernel 3 [] []) m).success
            (record start { history = sent_calls plain_kernel 3 [] m [] }))
answer_question-handle_question_example =
    answer_question-handle_question plain_kernel 3 [] node_config node_question start
      plain_kernel-IsKernel.converts

abbrev writer_of : Outcome Writer → Writer
writer_of (ok w) = w
writer_of err = record { out = []; offset = 0 }
writer_of fault = record { out = []; offset = 0 }
writer_of stuck = record { out = []; offset = 0 }

writer_of_lem : (o : Outcome Writer) (w : Writer) → o ≡ ok w → o ≡ ok (writer_of o)
writer_of_lem o w e = rw e refl

-- The query for NODE.local, with which each descriptor is read.
abbrev query : Writer
query = writer_of (build_query rr_aaaa (some (codes "NODE.local")) 1500)

query_built : build_query rr_aaaa (some (codes "NODE.local")) 1500 ≡ ok query
unfolding normalize_local_name tokens canonical split_dots has_local_suffix text_case_eq text_eq
    tolower copy_string
query_built =
    let (w, asked, read) =
      parse_question-build_query rr_aaaa (codes "NODE.local") 1500 (omega arith) (omega arith) refl
        (omega arith) (omega arith) in
    writer_of_lem (build_query rr_aaaa (some (codes "NODE.local")) 1500) w asked

abbrev asked_kernel : Kernel
asked_kernel = record plain_kernel {
  recvfrom_answer = λ h fd n. some (record { bytes = message query; src = 7 ∷ [] });
}

abbrev received : History
received =
    recvfrom 3 (some (record { bytes = message query; src = 7 ∷ [] })) ∷ poll 3 250 poll_in ∷ []

serve-host_example :
    (m : Bytes) × (parse_answers asked_kernel.inet m 64
      ≡ ok (
          take 64 (
            map (result_of asked_kernel.inet) (
              hostname_records asked_kernel.inet
                (labels_of (codes "node"))
                (some (codes "0.0.0.0"))
                (some (codes "::"))
                (some (codes "k=v"))))))
    × (serve asked_kernel node_config (some 3) start
        ≡ returned tt (record start { history = sendto 3 (source (7 ∷ [])) m true ∷ received }))
unfolding normalize_local_name tokens canonical split_dots has_local_suffix text_case_eq text_eq
    tolower copy_string server_local_name name_matches
serve-host_example =
    serve-host asked_kernel node_config 3 (7 ∷ []) start (codes "NODE.local") rr_aaaa 64 query
      plain_kernel-IsKernel.converts (inr refl) (omega arith) refl (omega arith) refl
      node-IsSendable (omega arith) query_built refl refl

abbrev second_web : Service
second_web = record web { instance = codes "api"; port = 80 }

handle_question-service_example :
    (m : Bytes) × (handle_question
        (λ b. true)
        plain_net
        (record node_config { services = web ∷ second_web ∷ service_init ∷ [] })
        (record { name = codes "_HTTP._tcp.local"; qtype = rr_ptr })
      ≡ ok (record { sent = some m; success = true }))
    × (parse_answers plain_net m 64
        ≡ ok (take 64 (map (result_of plain_net) (service_records second_web))))
unfolding normalize_local_name tokens split_dots has_local_suffix text_case_eq text_eq tolower
    copy_string server_local_name name_matches
handle_question-service_example =
    handle_question-service (λ b. true) plain_net
      (record node_config { services = web ∷ second_web ∷ service_init ∷ [] })
      (codes "_HTTP._tcp.local") second_web 64 plain_net-IsInet refl
      (record {
        type_name = web-IsSendableService.type_name;
        host_name = web-IsSendableService.host_name;
        instance_text = omega arith;
        instance_short = refl;
        instance_fits = omega arith;
        port_fits = omega arith;
        txt_text = omega arith;
      })
      (omega arith)
