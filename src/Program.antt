-- ===== src/Program.antt =====
-- What the main functions of src/client/main.c, src/server/main.c and src/browser/main.c share: the log is
-- opened, two listeners are made, and in the end all of it is closed.
pub mod Resources
use umdns.Message.{Result}
use umdns.Log.{LogLevel}
use umdns.Log.Files.{log_init, log_close}
use umdns.Prelude.{
  ◌==◌, ltb, leb, length, take, drop, All, replicate, Bool-cases, length-append, get_elem?, set,
  lt→ltb, leb→le, le→leb, lt→leb_false, le→ltb_false, length-take, length-drop, take-append,
  take_all, ℕ, zero, suc, ◌+◌, ◌-◌, ◌*◌, ◌/◌, ◌%◌, ◌^◌, ◌≤◌, ◌<◌, min, bit_and, bit_or, ◌≡◌, refl,
  sym, ap, ◌∙◌, ◌≢◌, ◌↔◌, ◌⊎◌, inl, inr, Bool, true, false, not, ◌&&◌, ◌||◌, Option, none, some,
  List, [], ◌∷◌, ◌++◌, map, append-nil, append_assoc, arith, if◌then◌else◌, set-append,
  take-append-drop, drop-append, get_elem?-lt, get_elem?-append_right, drop-drop, replicate-add,
  length-replicate, All-append, All-take, ==_iff,
}
use umdns.Socket.{send_query, sys_close, create_ipv4_listener, create_ipv6_listener}
use umdns.System.{print_results, record_event, Family, Kernel, Sys, pure, ◌>>=◌, ◌>>◌}
use umdns.Text.{Bytes, Text}

-- The descriptors of the two listeners; `none` is -1.
pub record Listeners : Type 0 where
  pub fd4 : Option ℕ
  pub fd6 : Option ℕ

-- `sizeof(packet)` and `sizeof(query)`.
abbrev pub packet_size : ℕ
packet_size = 1500

-- The rows that a call has filled in.
abbrev pub rows_of : Option (List Result) → List Result
rows_of none = []
rows_of (some rows) = rows

-- The table of `umdns_table_print_results`.
abbrev pub print_rows : List Result → Sys (Unit {0})
print_rows rows = record_event (λ h. tt) (λ _. print_results rows)

-- The descriptor is -1.
abbrev pub is_none : Option ℕ → Bool
is_none none = true
is_none (some fd) = false

-- An exit in front of the listeners.
unfoldable pub give_up : Sys ℕ
give_up = do log_close; pure 1

module _ (k : Kernel) where
  -- `if (fd >= 0) { close(fd); }`.
  abbrev pub close_if : Option ℕ → Sys (Unit {0})
  close_if none = pure tt
  close_if (some fd) = sys_close k fd

  -- The last lines of each program, from the listeners on, with its exit status.
  unfoldable pub finish_program : Listeners → ℕ → Sys ℕ
  finish_program l status = do close_if l.fd4; close_if l.fd6; log_close; pure status

  -- The listeners, and what follows unless there is none.
  unfoldable pub with_listeners : Text → (Listeners → Sys ℕ) → Sys ℕ
  with_listeners interface_name run = do
    fd4 ← create_ipv4_listener k interface_name
    fd6 ← create_ipv6_listener k interface_name
    (if is_none fd4 && is_none fd6 then give_up else run (record { fd4 = fd4; fd6 = fd6 }))

  -- The log, and what follows if it could be opened.
  unfoldable pub with_log : LogLevel → Text → Sys ℕ → Sys ℕ
  with_log level path run = do opened ← log_init k level path; if opened then run else pure 1

  -- A query is sent if there is a listener; a failure is only logged.
  abbrev pub send_if : Family → Option ℕ → Bytes → Sys (Unit {0})
  send_if family none bytes = pure tt
  send_if family (some fd) bytes = do sent ← send_query k family fd bytes; pure tt
