-- ===== src/Transport/Io.antt =====
-- What the transport's operations on data promise, on every branch.
use Prim.Native.Nat.{bit_or}
use quic_web_rtc_like.Base.{
  ℕ, ◌+◌, ◌≤◌, ◌≡◌, ◌⊎◌, inl, inr, List, Bool-cases, Bool, true, false, ◌&&◌, Option, none, some,
  [], ◌∷◌, Bytes, ℤ, pos, leb_ℤ, arith, length, take, if◌then◌else◌,
}
use quic_web_rtc_like.Sys.{
  Os, Trace, Timeval, got, ready, Selected, Selected-cases, is_in, not_ready, ret, did, send_to,
}
use quic_web_rtc_like.Transport.State.{
  Status, ok, error, Data, Transport, udp_readable, tcp_readable,
}
use quic_web_rtc_like.Transport.Direct.{watched}
use quic_web_rtc_like.Transport.Api.{active, send, recv, wait, set_tcp_fd}
use quic_web_rtc_like.Transport.Lifecycle.{WellFormed}

-- `recvmsg` writes at most what the buffer holds; a longer datagram is truncated.
abbrev pub MessageFits : Os → Type 0
MessageFits os =
    (t : Trace) (fd : ℤ) (n : ℕ) (b : Bytes) → os.message t fd n ≡ (got b, false) → length b ≤ n

-- An inactive transport refuses sending, receiving, waiting and a change of the TCP descriptor
-- without a system call, and reports nothing received and no event.
pub inactive_refuses :
    (os : Os) (transport : Option Transport) (buffer : Option Bytes) (n : ℕ) (has_buffer : Bool)
    (timeout : Option Timeval) (fd : ℤ) (t : Trace)
    → active transport ≡ none
    → (send os transport buffer n t ≡ (error, t))
      × (recv os transport has_buffer n true t ≡ (error, some [], t))
      × (wait os transport timeout true t ≡ (error, some 0, t))
      × (set_tcp_fd os transport fd ≡ (error, transport))
unfolding send recv wait set_tcp_fd
inactive_refuses os transport buffer n has_buffer timeout fd t h = ground arith

-- Sending on an active transport succeeds only where the newest event is a call that sent the
-- first bytes of the buffer, as many as asked, to the peer and returned their number.
pub send-ok :
    (os : Os) (transport : Option Transport) (udp : Data) (b : Bytes) (size : ℕ) (t : Trace)
    → active transport ≡ some udp
    → (send os transport (some b) size t).0 ≡ ok
    → (send os transport (some b) size t).1
      ≡ did (send_to udp.fd (take size b) udp.peer) (ret (length (take size b))) ∷ t
unfolding send
send-ok os transport udp b size t has sent = ground arith

-- Where recvmsg writes no more than the buffer holds, a receive either fails and reports no bytes,
-- a truncated datagram included, or succeeds with bytes that fit the capacity.
pub recv_lem :
    (os : Os) (transport : Option Transport) (has_buffer : Bool) (capacity : ℕ) (t : Trace)
    → MessageFits os
    → let (s, out, _) = recv os transport has_buffer capacity true t in
      ((s ≡ error) × (out ≡ some []))
      ⊎ ((s ≡ ok) × ((b : Bytes) → out ≡ some b → length b ≤ capacity))
unfolding recv
recv_lem os transport has_buffer capacity t fits = grind (arith, fits)

-- What `wait` gives for each answer of `select`.
abbrev pub Reports : ℤ → ℤ → Selected → Status → Option ℕ → Type 0
Reports udp_fd tcp_fd (not_ready e) s events = (s ≡ error) × (events ≡ some 0)
Reports udp_fd tcp_fd (ready fds) s events =
    (s ≡ ok)
    × (events
        ≡ some (
            (if is_in udp_fd fds then 1 else 0)
            + (if leb_ℤ (pos 0) tcp_fd && is_in tcp_fd fds then 2 else 0)))

Reports-bits :
    (udp_fd tcp_fd : ℤ) (fds : List ℤ)
    → (let e1 = if is_in udp_fd fds then bit_or 0 udp_readable else 0 in
        if leb_ℤ (pos 0) tcp_fd && is_in tcp_fd fds then bit_or e1 tcp_readable else e1)
      ≡ (if is_in udp_fd fds then 1 else 0)
        + (if leb_ℤ (pos 0) tcp_fd && is_in tcp_fd fds then 2 else 0)
Reports-bits udp_fd tcp_fd fds = elim (Bool-cases (is_in udp_fd fds)) [
  | inl u ↦ elim (Bool-cases (leb_ℤ (pos 0) tcp_fd && is_in tcp_fd fds)) [
    | inl v ↦ rw (u, v)
    | inr v ↦ rw (u, v)
  ]
  | inr u ↦ elim (Bool-cases (leb_ℤ (pos 0) tcp_fd && is_in tcp_fd fds)) [
    | inl v ↦ rw (u, v)
    | inr v ↦ rw (u, v)
  ]
]

-- Waiting on a well-formed active transport fails only with select, and then reports no event;
-- otherwise the flags say exactly which of the two descriptors are readable, the TCP one only if
-- there is one.
pub wait_lem :
    (os : Os) (transport : Transport) (udp : Data) (timeout : Option Timeval) (t : Trace)
    → WellFormed os (some transport)
    → active (some transport) ≡ some udp
    → let (s, events, _) = wait os (some transport) timeout true t in
      Reports udp.fd transport.tcp_fd
        (os.select t (watched udp.fd transport.tcp_fd) timeout)
        s
        events
unfolding wait
wait_lem os transport udp timeout t w has =
    elim (Selected-cases (os.select t (watched udp.fd transport.tcp_fd) timeout)) [
      | inl (fds, e) ↦ rw e (ground (arith, Reports-bits udp.fd transport.tcp_fd fds))
      | inr (x, e) ↦ rw e (ground arith)
    ]
