-- ===== src/Tests/Programs.antt =====
-- The programs on a kernel of which every call succeeds and each descriptor has a message to read.
use umdns.Options.{parse_loop, parse_int, skip_digits}
use umdns.Config.{trim_start, isspace, digits}
use umdns.Options.Client.{ClientOptions, query_hostname, parse_client_args, set_client_option}
use umdns.Text.{text_eq}
use umdns.Client.Silent.{client_main-silent, SaysNothing}
use umdns.Server.Main.{server_main}
use umdns.Server.End.{server_main-Ends, ServerSays}
use umdns.Browser.Cycle.{browser_main}
use umdns.Signal.Laws.{IsSignalled}
use umdns.Browser.End.{browser_main-Ends, BrowserSays}
use umdns.Answers.RoundTrip.{response_bytes}
use umdns.Client.Safety.{ClientSays, client_main-Ends}
use umdns.Client.{client_main}
use umdns.Log.{info, logger_start}
use umdns.Prelude.{
  ◌==◌, if◌then◌else◌, inr, not, ◌&&◌, Bool-cases, inl, ltb, length, take, All, length-take, ◌+◌,
  refl, true, false, none, some, List, [], ◌∷◌, ◌++◌, arith, All-take,
}
use umdns.Program.Resources.{Ends}
use umdns.Socket.Resources.{Leaves, descriptors, create_ipv6_listener-Leaves}
use umdns.Socket.Messages.{IsKernel}
use umdns.Socket.{create_ipv6_listener}
use umdns.System.Laws.{Post}
use umdns.System.Resources.{saw_signal, IsFlagged, open_fds}
use umdns.System.{poll_failed, Kernel, World, poll_in}
use umdns.Tests.Responses.{plain_net, plain_net-IsInet, some_records}
use umdns.Text.{Bytes, Text, codes}
use umdns.Wire.{IsByte}

abbrev message : Bytes
message = response_bytes some_records

message-IsByte : All IsByte message
message-IsByte = omega arith

abbrev pub plain_kernel : Kernel
plain_kernel = record {
  inet = record plain_net { pton4 = λ s. some (224 ∷ 0 ∷ 0 ∷ 251 ∷ []) };
  socket_answer = λ h family. some (3 + length (open_fds h));
  setsockopt_answer = λ h fd option. true;
  bind_answer = λ h fd family. true;
  if_nametoindex_answer = λ h name. 2;
  sendto_answer = λ h fd target bytes. true;
  poll_answer = λ h fd timeout_ms. poll_in;
  recvfrom_answer = λ h fd n. some (record { bytes = take n message; src = [] });
  sigaction_answer = λ h. true;
  signalled_answer = λ h. ltb 40 (length h) && not (saw_signal h);
  fopen_answer = λ h path. some 9;
  gethostname_answer = λ h n. some (codes "node");
  getifaddrs_answer = λ h. none;
  fgets_answer = λ h f. [];
}

pub plain_kernel-IsKernel : IsKernel plain_kernel
plain_kernel-IsKernel = record {
  receives = λ h fd n. (omega (arith, length-take n message), All-take _ n message message-IsByte);
  converts = record { pton4_len = λ s b e. ground arith; pton6_len = plain_net-IsInet.pton6_len };
}

abbrev pub start : World
start = record { history = []; logger = logger_start; terminate = false }

create_ipv6_listener-Leaves_example :
    Post
      (λ o w'. Leaves (descriptors o ++ []) start w')
      (create_ipv6_listener plain_kernel (codes "eth0") start)
create_ipv6_listener-Leaves_example = create_ipv6_listener-Leaves plain_kernel (codes "eth0") start

abbrev client_args : List Text
client_args =
    codes "-H" ∷ codes "node" ∷ codes "-t" ∷ codes "1" ∷ codes "--log-file" ∷ codes "log" ∷ []

client_main-Ends_example :
    Post (Ends (ClientSays none) start) (client_main plain_kernel client_args start)
client_main-Ends_example =
    client_main-Ends plain_kernel client_args start plain_kernel-IsKernel refl

-- The one signal comes after 40 calls, and no other.
plain_kernel-IsSignalled : IsSignalled plain_kernel 41
plain_kernel-IsSignalled h few = elim (Bool-cases (saw_signal h)) [
  | inl seen ↦ inl seen
  | inr not_yet ↦ inr (ground (arith, few, not_yet))
]

start-IsFlagged : IsFlagged start
start-IsFlagged e = absurd cc

abbrev browser_args : List Text
browser_args = codes "-t" ∷ codes "0" ∷ codes "-n" ∷ codes "1" ∷ []

browser_main-Ends_example :
    Post (Ends (BrowserSays none) start) (browser_main plain_kernel 41 browser_args start)
browser_main-Ends_example =
    browser_main-Ends plain_kernel 41 browser_args start plain_kernel-IsKernel refl
      (inl (41, plain_kernel-IsSignalled, start-IsFlagged, omega arith))

abbrev server_args : List Text
server_args = codes "-c" ∷ codes "a.ini" ∷ codes "--log-file" ∷ codes "log" ∷ []

-- The configuration file can be read.
abbrev server_kernel : Kernel
server_kernel = record plain_kernel {
  fgets_answer = λ h f. codes "[service web]" ∷ codes "port=80" ∷ [];
}

server_kernel-IsKernel : IsKernel server_kernel
server_kernel-IsKernel = record {
  receives = plain_kernel-IsKernel.receives;
  converts = plain_kernel-IsKernel.converts;
}

server_main-Ends_example :
    Post (Ends (ServerSays none) start) (server_main server_kernel 41 server_args start)
server_main-Ends_example =
    server_main-Ends server_kernel 41 41 server_args start server_kernel-IsKernel refl
      start-IsFlagged (λ h few. plain_kernel-IsSignalled h few) (omega arith)

-- Polling one descriptor fails, and receiving from the others.
abbrev silent_kernel : Kernel
silent_kernel = record plain_kernel {
  poll_answer = λ h fd timeout_ms. if fd == 3 then poll_failed else poll_in;
  recvfrom_answer = λ h fd n. none;
}

-- What the client makes of its arguments.
abbrev asked_options : ClientOptions
asked_options = record {
  mode = query_hostname;
  target = codes "node";
  timeout_seconds = 1;
  log_level = info;
  interface_name = [];
  log_file = codes "log";
  mode_count = 1;
}

client_main-silent_example :
    Post (Ends (SaysNothing none) start) (client_main silent_kernel client_args start)
unfolding parse_client_args parse_loop text_eq set_client_option parse_int trim_start isspace
    skip_digits digits
client_main-silent_example =
    client_main-silent silent_kernel client_args asked_options start (λ h fd timeout_ms n e. refl)
      refl refl
