-- ===== src/Chownat/Seen.antt =====
-- What the operations of chownat leave alone of what a relay sees, the application's callback
-- ignoring the connection.
use quic_web_rtc_like.Base.{
  ◌≡◌, refl, ap, suc, zero, ◌+◌, inl, inr, overwrite, ℕ, Bool, some, arith, ◌∷◌, Bytes, ℤ, ◌%◌,
  List, is_some,
}
use quic_web_rtc_like.Sys.{
  Os, Input, got, no_input, perform, read, did, send_to, Input-cases, Trace,
}
use quic_web_rtc_like.Conn.{UdpSession}
use quic_web_rtc_like.Conn.Relay.{told, passed_on, taken}
use quic_web_rtc_like.Chownat.State.{Data, St, Callback}
use quic_web_rtc_like.Chownat.Setup.{send_keep_alive, connect}
use quic_web_rtc_like.Chownat.Punch.{client_rounds, server_rounds, hole_punching}
use quic_web_rtc_like.Chownat.Knocking.{server_rounds-same}
use quic_web_rtc_like.Chownat.Confirm.{confirm_rounds}
use quic_web_rtc_like.Chownat.Disconnect.{
  request_rounds, close_positive, close_both, finish, disconnect_send, disconnect_recv,
}
use quic_web_rtc_like.Chownat.Transfer.{on_resend, resend_rounds, resent}
use quic_web_rtc_like.Chownat.Delivery.{Ignores}
use quic_web_rtc_like.Chownat.Reason
use quic_web_rtc_like.Chownat.Msg
use quic_web_rtc_like.Chownat.Assembly.{assembled}
use quic_web_rtc_like.Chownat.Wire.{posted}

-- What is followed of the history: what the datagrams amount to, what was handed over and passed on,
-- what was sent and what the local end had sent, and what was put on the wire for it.
abbrev pub logs : Trace → ((ℕ × Bytes) × Bytes × Bytes) × Bytes × Bytes × List (Bytes × Bytes)
logs t = (
  (assembled t, told Reason.udp_recv_data t, passed_on t),
  told Reason.udp_data_sent t,
  taken t,
  posted t,
)

-- The same of a connection, with whether there is a TCP session.
abbrev pub Seen : Type 0
Seen = (((ℕ × Bytes) × Bytes × Bytes) × Bytes × Bytes × List (Bytes × Bytes)) × Bool

abbrev pub seen : St → Seen
seen c = (logs c.trace, is_some c.tcp_session)

module _ (os : Os) (u : UdpSession) where
  client_rounds-logs : (n : ℕ) (t : Trace) → logs (client_rounds os u n t).1 ≡ logs t
  unfolding client_rounds
  client_rounds-logs zero t = refl
  client_rounds-logs (suc n) t =
      let t1 : Trace = (perform os (send_to u.socket_fd Msg.open_request u.dst) t).1 in
      let i = os.input t1 u.socket_fd 3 in
      let t2 : Trace = read u.socket_fd 3 i ∷ t1 in
      elim (Input-cases i) [
        | inl (b, e) ↦ ground (arith, client_rounds-logs n t2)
        | inr (x, e) ↦ ground (arith, client_rounds-logs n t2)
      ]

  request_rounds-logs :
      (n : ℕ) (buf : Bytes) (t : Trace) → logs (request_rounds os u n buf t) ≡ logs t
  unfolding request_rounds
  request_rounds-logs zero buf t = refl
  request_rounds-logs (suc n) buf t =
      let t1 : Trace = (perform os (send_to u.socket_fd Msg.close_request u.dst) t).1 in
      let i = os.input t1 u.socket_fd 3 in
      let t2 : Trace = read u.socket_fd 3 i ∷ t1 in
      elim (Input-cases i) [
        | inl (b, e) ↦ ground (arith, request_rounds-logs n (overwrite b buf) t2)
        | inr (x, e) ↦ ground (arith, request_rounds-logs n buf t2)
      ]

  confirm_rounds-logs :
      (m : ℤ) (fuel attempts : ℕ) (buf : Bytes) (t : Trace) (r : Bool × Bytes × Trace)
      → confirm_rounds os u m fuel attempts buf t ≡ some r
      → logs r.2 ≡ logs t
  unfolding confirm_rounds
  confirm_rounds-logs m zero attempts buf t r done = cc
  confirm_rounds-logs m (suc f) attempts buf t r done =
      let t1 : Trace = (perform os (send_to u.socket_fd Msg.confirm u.dst) t).1 in
      let i = os.input t1 u.socket_fd 3 in
      let t2 : Trace = read u.socket_fd 3 i ∷ t1 in
      elim (Input-cases i) [
        | inl (b, e) ↦ ground (arith, confirm_rounds-logs m f attempts (overwrite b buf) t2 r)
        | inr (x, e) ↦ ground (arith, confirm_rounds-logs m f (attempts + 1) buf t2 r)
      ]

  resend_rounds-logs : (d : Data) (n i : ℕ) (t : Trace) → logs (resend_rounds os u d n i t) ≡ logs t
  unfolding resend_rounds
  resend_rounds-logs d zero i t = refl
  resend_rounds-logs d (suc n) i t =
      let x = send_to u.socket_fd (resent d i) u.dst in
      ground (arith, resend_rounds-logs d n ((i + 1) % 256) (did x (os.answer t x) ∷ t))

-- A read of a short message.
logs-read : (u : UdpSession) (i : Input) (t : Trace) → logs (read u.socket_fd 3 i ∷ t) ≡ logs t
logs-read u (got b) t = refl
logs-read u (no_input e) t = refl

pub send_keep_alive-seen : (os : Os) (c : St) → seen (send_keep_alive os c).1 ≡ seen c
unfolding send_keep_alive
send_keep_alive-seen os c = ground arith

server_rounds-seen :
    (os : Os) (u : UdpSession) (m : ℤ) (fuel attempts : ℕ) (buf : Bytes) (c : St)
    → seen (server_rounds os u m fuel attempts buf c).1 ≡ seen c
server_rounds-seen os u m =
    server_rounds-same seen os u m
      (λ i c. ap (λ x. (x, is_some c.tcp_session)) (logs-read u i c.trace))
      (send_keep_alive-seen os)
      λ c f buf r done.
        ap (λ x. (x, is_some c.tcp_session)) (confirm_rounds-logs os u m f 0 buf c.trace r done)

pub hole_punching-seen : (os : Os) (fuel : ℕ) (c : St) → seen (hole_punching os fuel c).1 ≡ seen c
unfolding hole_punching
hole_punching-seen os fuel c = grind (arith, server_rounds-seen, client_rounds-logs)

pub disconnect_send-seen : (os : Os) (c : St) → seen (disconnect_send os c).1 ≡ seen c
unfolding disconnect_send finish close_positive
disconnect_send-seen os c = grind (arith, request_rounds-logs)

pub disconnect_recv-seen :
    (os : Os) (fuel : ℕ) (c : St) → seen (disconnect_recv os fuel c).1 ≡ seen c
unfolding disconnect_recv finish close_both
disconnect_recv-seen os fuel c = grind (arith, confirm_rounds-logs)

module _ (os : Os) (callback : Callback) (ignores : Ignores callback) where
  pub connect-seen : (c : St) → seen (connect callback c).1 ≡ seen c
  unfolding connect
  connect-seen c = grind (arith, ignores)

  pub on_resend-seen :
      (u : UdpSession) (d : Data) (msg : Bytes) (c : St)
      → seen (on_resend os callback u d msg c) ≡ seen c
  unfolding on_resend
  on_resend-seen u d msg c = grind (arith, ignores, resend_rounds-logs)
