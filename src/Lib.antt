-- ===== src/Lib.antt =====
-- umdns: a small mDNS implementation in C, a server, a client and a browser that share one packet
-- codec.
--
-- The parts, by the files of the repository, and the modules that model them:
--   src/common/mdns.c        the packet codec. Wire: bytes, `umdns_read_u16` and its siblings, and
--                            `Writer`, which is the buffer `out` with `offset`. Text: C strings,
--                            `umdns_copy_string` and `umdns_normalize_local_name`. Name:
--                            `umdns_append_name` and `umdns_decode_name`. Query:
--                            `umdns_mdns_build_query` and `umdns_mdns_parse_question`. Response: the
--                            three `umdns_mdns_build_response_…` functions. Answers:
--                            `umdns_mdns_parse_answers`.
--   src/common/table.c       Table: `umdns_table_deduplicate_results`; Table.Print: the text of
--                            `umdns_table_print_results`.
--   src/common/config.c      Config: trimming, sections, keys and the loop of
--                            `umdns_server_config_load`; Config.Files: that function with its calls.
--   src/common/log.c         Log: the levels, `umdns_log_write` and the line that it writes;
--                            Log.Files: opening and closing the stream.
--   src/common/signal.c      Signal: the flag `g_terminate`, its handler and the installation.
--   src/common/socket.c      Socket: every function as a sequence of calls.
--   src/server/main.c        Server: `handle_question` on values; Server.Discovery:
--                            `discover_interface_addresses` and `apply_runtime_identity`;
--                            Server.Main: `handle_question` with its calls, the loop, and `main`.
--   src/client/main.c        Client: `main`, with the receive loop and the table.
--   src/browser/main.c       Browser: `append_results_unique`, `extract_service_types` and
--                            `merge_service_results`; Browser.Cycle: `receive_responses`,
--                            `run_cycle` and `main`.
--   the three main.c         Options with Options.Client, Options.Server and Options.Browser: the
--                            argument parsers. Program: what the main functions share.
--   include/umdns/*.h        Message: the structs `umdns_question_t`, `umdns_service_t` and
--                            `umdns_result_t` with the record types; Config: `umdns_server_config_t`.
-- The client and the browser send what Query builds; the server parses it, and Server chooses the
-- builder of Response whose bytes go back; Answers turns them into rows, which Browser and Table
-- gather. The programs do this over Socket, Log and Signal, which make the calls of System. The
-- children of a module hold proofs about it, Prelude holds what all modules share, and Tests runs the
-- definitions on concrete packets and kernels.
--
-- How the code is rendered:
--   * A function that can fail returns an Outcome: `ok` with its value, `err` for its error return,
--     `fault` for an access outside of an array, `stuck` when the fuel has run out. Reads and writes
--     of packets are checked against the array, so that a theorem without `fault` is memory safety.
--   * A function that makes calls of the kernel or the C library is a Sys of System: it goes from a
--     World (the history of calls, the variables of log.c, and `g_terminate`) to a value with another
--     World, or it has `faulted` or `stalled`. What a call answers is given by the Kernel, an
--     argument, and may depend on the whole history, so that a theorem about every Kernel holds
--     whatever other processes and hosts do, and wherever calls fail. Of a Kernel the record IsKernel
--     says that a received message is made of bytes and fits the buffer, and that addresses have
--     their lengths. A signal is an answer as well: whether the handler has run since the last look.
--     That one comes (IsSignalled) says that from some call on, a look has seen it or the next does.
--   * A `char` array is the text in front of its first NUL; `snprintf` cuts it at the size of the
--     array. A NULL pointer is `none`.
--   * Numbers are natural numbers. A 16-bit or 32-bit field is written with its wrap-around, and a
--     `size_t` does not overflow: all sizes here are those of arrays of at most 65535 bytes. The
--     `int` of times and intervals are natural numbers too, within the ranges that Options.Bounds and
--     Options.Ranges state.
--   * The loop of `umdns_decode_name_internal` runs on fuel, 12 more than the size of the output: each
--     label takes a byte of the output at least, and eleven jumps end the loop. A receive loop has
--     its milliseconds as fuel, since each round takes one at least. The main loops of the server and
--     the browser may run for ever; their fuel is an argument, and enough if a signal comes before so
--     many calls, or the browser's timeout before so many rounds.
--   * `inet_pton` and `inet_ntop` are the record Inet. Of the first the proofs use that an IPv4 address
--     has 4 bytes and an IPv6 address 16 (IsInet), and of the second, in one place, that a text fits
--     the array that it is written into (IsPrinting). The loop of `fgets` is one call, which answers
--     with the lines of the configuration file. A table that is printed is an event with its rows, of
--     which Table.Print gives the text.
--
-- Not modelled: the texts of log lines, messages and help, among them the startup lines of the server,
-- which are output only; the reporting of errors by `errno`; the Makefile and the smoke test.
pub mod Prelude
pub mod Outcome
pub mod Text
pub mod Wire
pub mod Name
pub mod Message
pub mod Header
pub mod Query
pub mod Inet
pub mod Response
pub mod Answers
pub mod Tests
pub mod Table
pub mod Server
pub mod Browser
pub mod Config
pub mod Log
pub mod Options
pub mod System
pub mod Socket
pub mod Signal
pub mod Program
pub mod Client
