-- ===== src/Socket.antt =====
-- Sockets, src/common/socket.c, as sequences of calls of System. A descriptor of -1 is `none`, a return
-- value of -1 is `false`.
pub mod Resources
pub mod Messages
use umdns.Prelude.{ℕ, Bool, true, false, Option, none, some, [], ◌∷◌}
use umdns.System.{
  Family, SocketOption, Target, Polled, Received, Kernel, Sys, pure, ◌>>=◌, ◌>>◌, record_event,
  ipv4, ipv6, reuse_address, v6_only, join_group, bind_to_device, group, source, poll_failed,
  poll_nothing, poll_other, poll_in, socket, setsockopt, bind, close, if_nametoindex, sendto, poll,
  recvfrom,
}
use umdns.Text.{Bytes, Text, codes}

-- UMDNS_MCAST_IPV4 and UMDNS_MCAST_IPV6.
abbrev pub mcast_text : Family → Text
mcast_text ipv4 = codes "224.0.0.251"
mcast_text ipv6 = codes "ff02::fb"

module _ (k : Kernel) where
  abbrev pub sys_setsockopt : ℕ → SocketOption → Sys Bool
  sys_setsockopt fd option =
      record_event (λ h. k.setsockopt_answer h fd option) (setsockopt fd option)

  abbrev pub sys_bind : ℕ → Family → Sys Bool
  sys_bind fd family = record_event (λ h. k.bind_answer h fd family) (bind fd family)

  abbrev pub sys_close : ℕ → Sys (Unit {0})
  sys_close fd = record_event (λ h. tt) (λ _. close fd)

  -- `inet_pton` on the address of the group.
  abbrev pub mcast_address : Family → Option Bytes
  mcast_address ipv4 = k.inet.pton4 (mcast_text ipv4)
  mcast_address ipv6 = k.inet.pton6 (mcast_text ipv6)

  -- `umdns_socket_set_common_options`.
  unfoldable pub set_common_options : ℕ → Sys Bool
  set_common_options fd = sys_setsockopt fd reuse_address

  -- `umdns_socket_try_bind_device`, where SO_BINDTODEVICE is there.
  unfoldable pub try_bind_device : ℕ → Text → Sys (Unit {0})
  try_bind_device fd [] = pure tt
  try_bind_device fd (c ∷ cs) = do done ← sys_setsockopt fd (bind_to_device (c ∷ cs)); pure tt

  -- A call that fails ends with the descriptor closed and -1.
  abbrev pub or_close : ℕ → Bool → Sys (Option ℕ) → Sys (Option ℕ)
  or_close fd true m = m
  or_close fd false m = do sys_close fd; pure none

  -- The index of the interface, if one is named; 0 is any.
  unfoldable pub interface_index : Text → Sys ℕ
  interface_index [] = pure 0
  interface_index (c ∷ cs) =
      record_event (λ h. k.if_nametoindex_answer h (c ∷ cs)) (if_nametoindex (c ∷ cs))

  -- From `memset(&mreq, …)` to the return.
  unfoldable pub join_mcast : ℕ → Family → Text → Sys (Option ℕ)
  join_mcast fd family interface_name = elim (mcast_address family) [
    | none ↦ or_close fd false (pure none)
    | some address ↦ (do
      index ← interface_index interface_name
      joined ← sys_setsockopt fd (join_group address index)
      or_close fd joined (do try_bind_device fd interface_name; pure (some fd)))
  ]

  -- From the test of `socket` on; the IPv6 listener sets IPV6_V6ONLY first.
  unfoldable pub listen_ipv4 : Text → ℕ → Sys (Option ℕ)
  listen_ipv4 interface_name fd = do
    shared ← set_common_options fd
    or_close fd shared
        (do bound ← sys_bind fd ipv4; or_close fd bound (join_mcast fd ipv4 interface_name))

  unfoldable pub listen_ipv6 : Text → ℕ → Sys (Option ℕ)
  listen_ipv6 interface_name fd = do
    only ← sys_setsockopt fd v6_only
    or_close fd only (do
      shared ← set_common_options fd
      or_close fd shared
          (do bound ← sys_bind fd ipv6; or_close fd bound (join_mcast fd ipv6 interface_name)))

  abbrev pub on_socket : (ℕ → Sys (Option ℕ)) → Option ℕ → Sys (Option ℕ)
  on_socket f none = pure none
  on_socket f (some fd) = f fd

  -- `umdns_socket_create_ipv4_listener`.
  unfoldable pub create_ipv4_listener : Text → Sys (Option ℕ)
  create_ipv4_listener interface_name = do
    fd ← record_event (λ h. k.socket_answer h ipv4) (socket ipv4)
    on_socket (listen_ipv4 interface_name) fd

  -- `umdns_socket_create_ipv6_listener`.
  unfoldable pub create_ipv6_listener : Text → Sys (Option ℕ)
  create_ipv6_listener interface_name = do
    fd ← record_event (λ h. k.socket_answer h ipv6) (socket ipv6)
    on_socket (listen_ipv6 interface_name) fd

  abbrev pub sys_sendto : ℕ → Target → Bytes → Sys Bool
  sys_sendto fd target bytes =
      record_event (λ h. k.sendto_answer h fd target bytes) (sendto fd target bytes)

  -- `umdns_socket_send_query_ipv4` and `umdns_socket_send_query_ipv6`.
  unfoldable pub send_query : Family → ℕ → Bytes → Sys Bool
  send_query family fd bytes = elim (mcast_address family) [
    | none ↦ pure false
    | some address ↦ sys_sendto fd (group family address) bytes
  ]

  -- `umdns_socket_send_response`.
  unfoldable pub send_response : ℕ → Bytes → Bytes → Sys Bool
  send_response fd src bytes = sys_sendto fd (source src) bytes

  abbrev pub receive_if : ℕ → ℕ → Polled → Sys (Option Received)
  receive_if fd buffer_len poll_failed = pure none
  receive_if fd buffer_len poll_nothing = pure none
  receive_if fd buffer_len poll_other = pure none
  receive_if fd buffer_len poll_in =
      record_event (λ h. k.recvfrom_answer h fd buffer_len) (recvfrom fd)

  abbrev pub sys_poll : ℕ → ℕ → Sys Polled
  sys_poll fd timeout_ms = record_event (λ h. k.poll_answer h fd timeout_ms) (poll fd timeout_ms)

  -- `umdns_socket_recv_with_timeout`: the message, or `none` for a return value of 0 or -1.
  unfoldable pub recv_with_timeout : ℕ → ℕ → ℕ → Sys (Option Received)
  recv_with_timeout fd buffer_len timeout_ms = do
    polled ← sys_poll fd timeout_ms
    receive_if fd buffer_len polled
