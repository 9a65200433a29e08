-- ===== src/System.antt =====
-- The calls of the C library and the kernel that src/common/socket.c, src/common/signal.c,
-- src/common/log.c and the three programs make. The kernel is an argument: what each call answers, which
-- may depend on all that happened before. The global variables of the program are part of the state.
pub mod Laws
pub mod Resources
use umdns.Inet.{Inet}
use umdns.Log.{Logger}
use umdns.Message.{Result}
use umdns.Outcome.{Outcome, ok, err, fault, stuck}
use umdns.Prelude.{ℕ, Bool, true, false, Option, none, some, List, ◌∷◌}
use umdns.Text.{Bytes, Text}

pub data Family : Type 0 where
  ipv4 ipv6 : Family

-- The socket options that the source sets; a group is joined on the interface with that index, 0 for any.
pub data SocketOption : Type 0 where
  reuse_address v6_only : SocketOption
  join_group : Bytes → ℕ → SocketOption
  bind_to_device : Text → SocketOption

-- Where a message goes: the address of the group, or back to the source of a message.
pub data Target : Type 0 where
  group : Family → Bytes → Target
  source : Bytes → Target

-- What `poll` answers on one descriptor: -1, 0, or 1 with or without POLLIN.
pub data Polled : Type 0 where
  poll_failed poll_nothing poll_other poll_in : Polled

-- A message with the address that it came from.
pub record Received : Type 0 where
  pub bytes : Bytes
  pub src : Bytes

-- `ifa_addr`: NULL, an address of one of the two families, or of another one.
pub data InterfaceAddress : Type 0 where
  no_address other_address : InterfaceAddress
  address4 address6 : Bytes → InterfaceAddress

-- An entry of the list that `getifaddrs` gives, with IFF_UP and IFF_LOOPBACK of its flags.
pub record Interface : Type 0 where
  pub name : Text
  pub is_up : Bool
  pub is_loopback : Bool
  pub addr : InterfaceAddress

-- A call that was made, with its answer. Descriptors and files are numbers; `none` and `false` stand for
-- the failure of the call.
pub data Event : Type 0 where
  socket : Family → Option ℕ → Event
  setsockopt : ℕ → SocketOption → Bool → Event
  bind : ℕ → Family → Bool → Event
  close : ℕ → Event
  if_nametoindex : Text → ℕ → Event
  sendto : ℕ → Target → Bytes → Bool → Event
  poll : ℕ → ℕ → Polled → Event
  recvfrom : ℕ → Option Received → Event
  sigaction : Bool → Event
  signalled : Bool → Event
  fopen : Text → Option ℕ → Event
  fclose : ℕ → Event
  gethostname : Option Text → Event
  getifaddrs : Option (List Interface) → Event
  fgets : ℕ → List Text → Event
  print_results : List Result → Event

-- The newest event stands in front.
abbrev pub History : Type 0
History = List Event

-- What the calls answer after a history. `signalled` is true if a handler has run since the last look at
-- the flag.
pub record Kernel : Type 0 where
  pub inet : Inet
  pub socket_answer : History → Family → Option ℕ
  pub setsockopt_answer : History → ℕ → SocketOption → Bool
  pub bind_answer : History → ℕ → Family → Bool
  pub if_nametoindex_answer : History → Text → ℕ
  pub sendto_answer : History → ℕ → Target → Bytes → Bool
  pub poll_answer : History → ℕ → ℕ → Polled
  pub recvfrom_answer : History → ℕ → ℕ → Option Received
  pub sigaction_answer : History → Bool
  pub signalled_answer : History → Bool
  pub fopen_answer : History → Text → Option ℕ
  pub gethostname_answer : History → ℕ → Option Text
  pub getifaddrs_answer : History → Option (List Interface)
  pub fgets_answer : History → ℕ → List Text

-- The calls made, the variables of src/common/log.c, and `g_terminate`.
pub record World : Type 0 where
  pub history : History
  pub logger : Logger
  pub terminate : Bool

-- How a part of a program ends: it returns, touches memory outside of an array, or has not ended within the
-- fuel.
pub data Run (A : Type 0) : Type 0 where
  returned : A → World → Run A
  faulted : Run A
  stalled : Run A

abbrev pub Sys : Type 0 → Type 0
Sys A = World → Run A

abbrev pub pure : {A : Type 0} → A → Sys A
pure a w = returned a w

abbrev pub and_then : {A B : Type 0} → Run A → (A → Sys B) → Run B
and_then (returned a w) f = f a w
and_then faulted f = faulted
and_then stalled f = stalled

infixl 5 ◌>>=◌ ◌>>◌
abbrev pub ◌>>=◌ : {A B : Type 0} → Sys A → (A → Sys B) → Sys B
◌>>=◌ m f w = and_then (m w) f

abbrev pub ◌>>◌ : {B : Type 0} → Sys (Unit {0}) → Sys B → Sys B
m >> k = m >>= λ _. k

-- A function without calls; `none` is its error return.
abbrev pub run_outcome : {A : Type 0} → Outcome A → Sys (Option A)
run_outcome (ok a) w = returned (some a) w
run_outcome err w = returned none w
run_outcome fault w = faulted
run_outcome stuck w = stalled

-- The event of a call joins the history.
abbrev pub record_event : {A : Type 0} → (History → A) → (A → Event) → Sys A
record_event answer event w =
    let a = answer w.history in returned a (record w { history = event a ∷ w.history })

abbrev pub when : Bool → Sys (Unit {0}) → Sys (Unit {0})
when true m = m
when false m = pure tt
