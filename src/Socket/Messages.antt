-- ===== src/Socket/Messages.antt =====
-- The sending and receiving functions of src/common/socket.c on any kernel, and what is relied on of it.
use umdns.Inet.{IsInet}
use umdns.Prelude.{ℕ, length, ◌≤◌, All, length, All, ℕ, ◌≤◌, refl, false, Option, none, some}
use umdns.Socket.{
  mcast_address, sys_sendto, send_query, send_response, receive_if, recv_with_timeout, sys_poll,
}
use umdns.System.{
  Family, Polled, Received, History, Kernel, pure, group, source, poll_failed, poll_nothing,
  poll_other, poll_in, sendto, poll, recvfrom,
}
use umdns.System.Resources.{Quiet, Quiet-pure, Quiet-bind, Quiet-event}
use umdns.Text.{Bytes}
use umdns.Wire.{IsByte}

module _ (k : Kernel) where
  pub send_query-Quiet :
      (family : Family) (fd : ℕ) (bytes : Bytes)
      → Quiet (λ b. Unit {0}) (send_query k family fd bytes)
  unfolding send_query
  send_query-Quiet family fd bytes = go (mcast_address k family)
    where
      go :
          (o : Option Bytes)
          → Quiet
              (λ b. Unit {0})
              (elim o [
                | none ↦ pure false
                | some address ↦ sys_sendto k fd (group family address) bytes
              ])
      go none = Quiet-pure (λ b. Unit {0}) false tt
      go (some address) =
          Quiet-event (λ b. Unit {0}) (λ h. k.sendto_answer h fd (group family address) bytes)
            (sendto fd (group family address) bytes) (λ h. tt) (λ a h. refl) (λ a h. refl)
            (λ a h. refl) (λ a h. refl)

  pub send_response-Quiet :
      (fd : ℕ) (src bytes : Bytes) → Quiet (λ b. Unit {0}) (send_response k fd src bytes)
  unfolding send_response
  send_response-Quiet fd src bytes =
      Quiet-event (λ b. Unit {0}) (λ h. k.sendto_answer h fd (source src) bytes)
        (sendto fd (source src) bytes) (λ h. tt) (λ a h. refl) (λ a h. refl) (λ a h. refl)
        (λ a h. refl)

-- A message is made of bytes, and is not longer than the buffer.
abbrev pub IsReceived : ℕ → Option Received → Type 0
IsReceived n none = Unit {0}
IsReceived n (some m) = (length m.bytes ≤ n) × All IsByte m.bytes

-- What is relied on of `recvfrom` and `inet_pton`.
pub record IsKernel (k : Kernel) : Type 0 where
  pub receives : (h : History) (fd n : ℕ) → IsReceived n (k.recvfrom_answer h fd n)
  pub converts : IsInet k.inet

module _ (k : Kernel) (good : IsKernel k) where
  receive_if-Quiet : (fd n : ℕ) (p : Polled) → Quiet (IsReceived n) (receive_if k fd n p)
  receive_if-Quiet fd n poll_failed = Quiet-pure (IsReceived n) none tt
  receive_if-Quiet fd n poll_nothing = Quiet-pure (IsReceived n) none tt
  receive_if-Quiet fd n poll_other = Quiet-pure (IsReceived n) none tt
  receive_if-Quiet fd n poll_in =
      Quiet-event (IsReceived n) (λ h. k.recvfrom_answer h fd n) (recvfrom fd)
        (λ h. good.receives h fd n) (λ a h. refl) (λ a h. refl) (λ a h. refl) (λ a h. refl)

  pub recv_with_timeout-Quiet :
      (fd n timeout_ms : ℕ) → Quiet (IsReceived n) (recv_with_timeout k fd n timeout_ms)
  unfolding recv_with_timeout
  recv_with_timeout-Quiet fd n timeout_ms =
      Quiet-bind (λ p. Unit {0}) (IsReceived n) (sys_poll k fd timeout_ms) (receive_if k fd n)
        (Quiet-event (λ p. Unit {0}) (λ h. k.poll_answer h fd timeout_ms) (poll fd timeout_ms)
          (λ h. tt) (λ a h. refl) (λ a h. refl) (λ a h. refl) (λ a h. refl))
        (λ p u. receive_if-Quiet fd n p)
