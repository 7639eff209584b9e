-- ===== src/Ossl/Seen.antt =====
-- What the operations of ossl_quic leave alone of the bytes that are carried either way, the
-- application's callback ignoring the connection.
use quic_web_rtc_like.Base.{◌≡◌, refl, ℕ, Bool, arith, ◌∷◌, Bytes, ℤ, is_some}
use quic_web_rtc_like.Sys.{Os, Trace, Input, got, no_input, read}
use quic_web_rtc_like.Conn.{UdpSession}
use quic_web_rtc_like.Conn.Relay.{told, passed_on, taken, view}
use quic_web_rtc_like.Ossl.State.{Data}
use quic_web_rtc_like.Ossl.Setup.{St}
use quic_web_rtc_like.Ossl.Tls.{Tls}
use quic_web_rtc_like.Ossl.Punch.{hole_punching}
use quic_web_rtc_like.Ossl.Connect.{
  Callback, udp_recv_data, udp_data_sent, prepare_client, prepare_server, pre_connect, handshake,
  connect_quic, send_keep_alive,
}
use quic_web_rtc_like.Ossl.Close.{disconnect}
use quic_web_rtc_like.Ossl.Transfer.{udp_send, process_events}
use quic_web_rtc_like.Ossl.Closed.{Ignores}
use quic_web_rtc_like.Ossl.Blind.{Blind, punch-same, close_quic-same}

-- The bytes that a history carries to the local end, and those that it carries to the peer.
abbrev logs : Trace → (Bytes × Bytes) × Bytes × Bytes
logs t = ((told udp_recv_data t, passed_on t), told udp_data_sent t, taken t)

-- With whether there is a TCP session.
abbrev pub seen : St → ((Bytes × Bytes) × Bytes × Bytes) × Bool
seen c = (logs c.trace, is_some c.tcp_session)

-- A read of three bytes is not one of the local end.
probed-logs : (fd : ℤ) (i : Input) (t : Trace) → logs (read fd 3 i ∷ t) ≡ logs t
probed-logs fd (got b) t = refl
probed-logs fd (no_input e) t = refl

logs-Blind : Blind logs
logs-Blind = record {
  sends = λ fd b a r t. refl;
  sets = λ fd n r t. refl;
  probes = probed-logs;
  waits = λ fds tv r t. refl;
  clocks = λ t. refl;
  handles = λ h t. refl;
  shuts = λ h t. refl;
}

pub hole_punching-seen : (os : Os) (fuel : ℕ) (c : St) → seen (hole_punching os fuel c).1 ≡ seen c
unfolding hole_punching
hole_punching-seen os fuel c = grind (arith, punch-same logs logs-Blind)

module _ (os : Os) (ssl : Tls) where
  prepare_client-logs :
      (u : UdpSession) (d : Data ℕ ℕ) (t : Trace) → logs (prepare_client os ssl u d t).2 ≡ logs t
  unfolding prepare_client
  prepare_client-logs u d t = ground arith

  prepare_server-logs :
      (u : UdpSession) (d : Data ℕ ℕ) (t : Trace) → logs (prepare_server os ssl u d t).2 ≡ logs t
  unfolding prepare_server
  prepare_server-logs u d t = ground arith

  pre_connect-seen : (c : St) → seen (pre_connect os ssl c).1 ≡ seen c
  unfolding pre_connect
  pre_connect-seen c = grind (arith, prepare_client-logs, prepare_server-logs)

  handshake-logs :
      (mode : ℕ) (d : Data ℕ ℕ) (t : Trace) → logs (handshake os ssl mode d t).2 ≡ logs t
  unfolding handshake
  handshake-logs mode d t = ground arith

module _ (os : Os) (ssl : Tls) (callback : Callback) (ignores : Ignores callback) where
  pub disconnect-seen : (fuel : ℕ) (c : St) → seen (disconnect os ssl callback fuel c).1 ≡ seen c
  unfolding disconnect
  disconnect-seen fuel c = grind (arith, ignores, close_quic-same logs logs-Blind)

  pub process_events-seen :
      (fuel : ℕ) (c : St) → seen (process_events ssl callback os fuel c).1 ≡ seen c
  unfolding process_events
  process_events-seen fuel c = grind (arith, disconnect-seen)

  pub connect_quic-seen : (c : St) → seen (connect_quic os ssl callback c).1 ≡ seen c
  unfolding connect_quic
  connect_quic-seen c = grind (arith, ignores, pre_connect-seen, handshake-logs)

  pub udp_send-seen :
      (b : Bytes) (c : St) → view udp_recv_data (udp_send ssl callback b c).2 ≡ view udp_recv_data c
  unfolding udp_send
  udp_send-seen b c = grind (arith, ignores)

pub send_keep_alive-seen : (c : St) → seen (send_keep_alive c).1 ≡ seen c
unfolding send_keep_alive
send_keep_alive-seen c = ground arith
