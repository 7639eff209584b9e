-- ===== src/Chownat/Backend.antt =====
-- source/libs/protocols/chownat/src/chownat.c: `chownat_api`, the table of operations that the loop of
-- udp_conn.c is given, and the invariant of the data under that loop.
use quic_web_rtc_like.Base.{◌≡◌, refl, ℕ, Option, none, some, true, arith, Bytes, ℤ}
use quic_web_rtc_like.Sys.{Os, returned, Timeval}
use quic_web_rtc_like.Conn.{UdpSession}
use quic_web_rtc_like.Conn.Api.{Api}
use quic_web_rtc_like.Conn.Kept.{KeptBy}
use quic_web_rtc_like.Conn.Keeps.{udp_connection-keeps}
use quic_web_rtc_like.Conn.Session.{udp_connection}
use quic_web_rtc_like.Chownat.State.{Data, Config, St, Callback}
use quic_web_rtc_like.Chownat.Setup.{init, deinit, is_closed, get_timeout, send_keep_alive, connect}
use quic_web_rtc_like.Chownat.Punch.{server_rounds, hole_punching}
use quic_web_rtc_like.Chownat.Knocking.{server_rounds-same}
use quic_web_rtc_like.Chownat.Disconnect.{disconnect_send}
use quic_web_rtc_like.Chownat.Transfer.{udp_send, udp_recv}
use quic_web_rtc_like.Chownat.Invariant.{
  Valid, KeepsValid, udp_send-Valid, udp_recv-Valid, disconnect_send-Valid,
}

-- The table has no backend of timers and keeps no payloads back: both entries are NULL.
abbrev pub chownat_api : Os → Callback → ℕ → Api Data Config
chownat_api os callback fuel = record {
  init = init os;
  deinit = λ c. (returned (deinit os c).0, (deinit os c).1);
  is_closed = is_closed;
  get_timeout = λ c. ((get_timeout c).0, timeval (get_timeout c).1, c);
  process_events = none;
  pending_data = none;
  hole_punching = hole_punching os fuel;
  connect = connect callback;
  udp_send = λ b c. ((udp_send os callback b c).0, (udp_send os callback b c).2);
  udp_recv = λ n c. udp_recv os callback fuel true n c;
  send_keep_alive = send_keep_alive os;
  disconnect = λ c. (returned (disconnect_send os c).0, (disconnect_send os c).1);
}
  where
    timeval : Option (ℕ × ℕ) → Option Timeval
    timeval none = none
    timeval (some (sec, usec)) = some (record { tv_sec = sec; tv_usec = usec })

-- The operations that leave the data alone.
pub send_keep_alive-data : (os : Os) (c : St) → (send_keep_alive os c).1.data_ptr ≡ c.data_ptr
unfolding send_keep_alive
send_keep_alive-data os c = ground arith

server_rounds-data :
    (os : Os) (u : UdpSession) (m : ℤ) (fuel attempts : ℕ) (buf : Bytes) (c : St)
    → (server_rounds os u m fuel attempts buf c).1.data_ptr ≡ c.data_ptr
server_rounds-data os u m =
    server_rounds-same (λ c. c.data_ptr) os u m (λ i c. refl) (send_keep_alive-data os)
      λ c f buf r done. refl

pub hole_punching-data :
    (os : Os) (fuel : ℕ) (c : St) → (hole_punching os fuel c).1.data_ptr ≡ c.data_ptr
unfolding hole_punching
hole_punching-data os fuel c = grind (arith, server_rounds-data)

connect-Valid :
    (callback : Callback) (c : St)
    → KeepsValid callback
    → Valid c.data_ptr
    → Valid (connect callback c).1.data_ptr
unfolding connect
connect-Valid callback c keeps v = grind (arith, keeps)

-- Every operation of the table keeps the invariant of the data.
chownat_api-KeptBy :
    (os : Os) (callback : Callback) (fuel : ℕ)
    → KeepsValid callback
    → KeptBy (λ c. Valid c.data_ptr) (chownat_api os callback fuel)
chownat_api-KeptBy os callback fuel keeps = record {
  any_trace = λ c t tcp v. v;
  get_timeout = λ c v. v;
  process_events = λ c f e v. cc;
  hole_punching = λ c v. rw hole_punching-data v;
  connect = λ c v. connect-Valid callback c keeps v;
  udp_send = λ b c v. udp_send-Valid os callback keeps b c v;
  udp_recv = λ n c v. udp_recv-Valid os callback keeps fuel true n c v;
  send_keep_alive = λ c v. rw send_keep_alive-data v;
  disconnect = λ c v. disconnect_send-Valid os c v;
}

-- However long udp_connection runs over chownat and however it ends, the packet numbers are below
-- 256, every row of the buffer has its size and no stored size is above the MTU, if this held
-- before and the callback keeps it.
pub chownat-Valid :
    (os : Os) (callback : Callback) (fuel : ℕ) (c : St)
    → KeepsValid callback
    → Valid c.data_ptr
    → Valid (udp_connection os (chownat_api os callback fuel) fuel c).1.data_ptr
chownat-Valid os callback fuel c keeps v =
    udp_connection-keeps os (chownat_api os callback fuel) (λ c. Valid c.data_ptr)
      (chownat_api-KeptBy os callback fuel keeps) fuel c v
