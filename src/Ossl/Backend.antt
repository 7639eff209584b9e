-- ===== src/Ossl/Backend.antt =====
-- source/libs/protocols/ossl_quic/src/ossl_quic.c: `ossl_quic_api`, the table of operations, and a
-- failed close under the loop of udp_conn.c.
use mathlib.Core.Path.{subst}
use quic_web_rtc_like.Base.{ap, or_return, ℕ, Option, none, some, true, Bytes, ◌≡◌, arith}
use quic_web_rtc_like.Sys.{Os, Trace, Outcome, returned}
use quic_web_rtc_like.Conn.{Status, err, is_error}
use quic_web_rtc_like.Conn.Api.{Api}
use quic_web_rtc_like.Conn.Kept.{KeptBy}
use quic_web_rtc_like.Conn.Keeps.{udp_connection-keeps}
use quic_web_rtc_like.Conn.Session.{udp_connection}
use quic_web_rtc_like.Ossl.State.{Data, Config, is_closed, get_timeout}
use quic_web_rtc_like.Ossl.Setup.{St, init}
use quic_web_rtc_like.Ossl.Punch.{hole_punching}
use quic_web_rtc_like.Ossl.Connect.{
  Callback, connect_quic, send_keep_alive, pre_connect, prepare_client, prepare_server, handshake,
  reopened,
}
use quic_web_rtc_like.Ossl.Tls.{Tls}
use quic_web_rtc_like.Ossl.Close.{disconnect}
use quic_web_rtc_like.Ossl.Transfer.{udp_send, udp_recv, pending_data, process_events}
use quic_web_rtc_like.Ossl.Release.{deinit}
use quic_web_rtc_like.Ossl.Closed.{close_quic-OnlyErr, record_close_status-err}

abbrev pub ossl_api : Os → Tls → Callback → ℕ → Api (Data ℕ ℕ) Config
ossl_api os ssl callback fuel = record {
  init = init ssl os;
  deinit = deinit os ssl callback fuel;
  is_closed = is_closed;
  get_timeout = λ c. let (s, tv) = get_timeout (λ h. ssl.event_timeout c.trace h) c in (s, tv, c);
  process_events = some (process_events ssl callback os fuel);
  pending_data = some (pending_data ssl callback);
  hole_punching = hole_punching os fuel;
  connect = connect_quic os ssl callback;
  udp_send = λ b c. let (s, _, c') = udp_send ssl callback b c in (s, c');
  udp_recv = λ n c. let (s, out, c') = udp_recv ssl callback true true n c in (returned s, out, c');
  send_keep_alive = send_keep_alive;
  disconnect = disconnect os ssl callback fuel;
}

-- The close of the session has failed.
abbrev pub Failed : Option (Data ℕ ℕ) → Type 0
Failed none = ⊥
Failed (some d) = d.close_status ≡ err

-- What is asked of the application's callback: it may use the API, but clears no failure.
abbrev pub KeepsFailed : Callback → Type 0
KeepsFailed callback =
    (r : ℕ) (b : Bytes) (c : St) → Failed c.data_ptr → Failed (callback r b c).data_ptr

module _ (os : Os) (ssl : Tls) (callback : Callback) (keeps : KeepsFailed callback) where
  disconnect-Failed :
      (fuel : ℕ) (c : St)
      → Failed c.data_ptr
      → Failed (disconnect os ssl callback fuel c).1.data_ptr
  unfolding disconnect
  disconnect-Failed fuel c failed = grind (arith, keeps, close_quic-OnlyErr)

  process_events-Failed :
      (fuel : ℕ) (c : St)
      → Failed c.data_ptr
      → Failed (process_events ssl callback os fuel c).1.data_ptr
  unfolding process_events
  process_events-Failed fuel c failed = grind (arith, disconnect-Failed, record_close_status-err)

  udp_send-Failed :
      (b : Bytes) (c : St) → Failed c.data_ptr → Failed (udp_send ssl callback b c).2.data_ptr
  unfolding udp_send
  udp_send-Failed b c failed = grind (arith, keeps)

  udp_recv-Failed :
      (n : ℕ) (c : St) → Failed c.data_ptr → Failed (udp_recv ssl callback true true n c).2.data_ptr
  unfolding udp_recv
  udp_recv-Failed n c failed = grind (arith, keeps)

  pre_connect-Failed : (c : St) → Failed c.data_ptr → Failed (pre_connect os ssl c).1.data_ptr
  unfolding pre_connect prepare_client prepare_server
  pre_connect-Failed c failed = ground arith

  handshake-close_status :
      (mode : ℕ) (d : Data ℕ ℕ) (t : Trace)
      → (handshake os ssl mode d t).1.close_status ≡ d.close_status
  unfolding handshake
  handshake-close_status mode d t = ground arith

  reopened-Failed : (c : St) → Failed c.data_ptr → Failed (reopened c).data_ptr
  reopened-Failed c failed = ground arith

  connect_quic-Failed :
      (c : St) → Failed c.data_ptr → Failed (connect_quic os ssl callback c).1.data_ptr
  unfolding connect_quic
  connect_quic-Failed c failed =
      grind (arith, keeps, pre_connect-Failed c failed, handshake-close_status, reopened-Failed)

  hole_punching-data : (fuel : ℕ) (c : St) → (hole_punching os fuel c).1.data_ptr ≡ c.data_ptr
  unfolding hole_punching
  hole_punching-data fuel c = ground arith

  send_keep_alive-same : (c : St) → (send_keep_alive c).1 ≡ c
  unfolding send_keep_alive
  send_keep_alive-same c = ground arith

  -- Every operation of the table keeps a failure.
  ossl_api-KeptBy : (fuel : ℕ) → KeptBy (λ c. Failed c.data_ptr) (ossl_api os ssl callback fuel)
  ossl_api-KeptBy fuel = record {
    any_trace = λ c t tcp v. v;
    get_timeout = λ c v. v;
    process_events = λ c f e v.
        let same : process_events ssl callback os fuel ≡ f =
          ap (λ o. or_return o (process_events ssl callback os fuel) (λ g. g)) e in
        subst (λ (g : St → Outcome Status × St). Failed (g c).1.data_ptr) same
          (process_events-Failed fuel c v);
    hole_punching = λ c v. rw hole_punching-data v;
    connect = connect_quic-Failed;
    udp_send = udp_send-Failed;
    udp_recv = udp_recv-Failed;
    send_keep_alive = λ c v. rw send_keep_alive-same v;
    disconnect = disconnect-Failed fuel;
  }

  deinit-Failed :
      (fuel : ℕ) (c : St) (s : Status)
      → Failed c.data_ptr
      → (deinit os ssl callback fuel c).0 ≡ returned s
      → is_error s ≡ true
  unfolding deinit
  deinit-Failed fuel c s failed done = grind (arith, disconnect-Failed fuel c failed)

-- A QUIC session whose close was recorded as an error stays so however long udp_connection runs
-- over it and however it ends, and deinit, where it returns, reports an error; the callback clears
-- no recorded error.
pub close_error-reported :
    (os : Os) (ssl : Tls) (callback : Callback)
    → KeepsFailed callback
    → (fuel fuel' : ℕ) (c : St) (s : Status) → Failed c.data_ptr
    → let c' = (udp_connection os (ossl_api os ssl callback fuel) fuel c).1 in
      Failed c'.data_ptr × ((deinit os ssl callback fuel' c').0 ≡ returned s → is_error s ≡ true)
close_error-reported os ssl callback keeps fuel fuel' c s failed =
    let still =
      udp_connection-keeps os (ossl_api os ssl callback fuel) (λ c. Failed c.data_ptr)
        (ossl_api-KeptBy os ssl callback keeps fuel) fuel c failed in
    (still, deinit-Failed os ssl callback keeps fuel' _ s still)
