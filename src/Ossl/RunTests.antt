-- ===== src/Ossl/RunTests.antt =====
-- The theorems on a session of ossl_quic at concrete inputs.
use quic_web_rtc_like.Base.{
  ℕ, ◌+◌, ◌==◌, ◌≡◌, ◌≢◌, refl, true, false, none, some, [], ◌∷◌, pos, arith, length, inr, take,
  Bytes, ap, ◌++◌, if◌then◌else◌,
}
use quic_web_rtc_like.Sys.{Os, ret, send, returned, out_of_fuel, got, ready, tls}
use quic_web_rtc_like.Sys.Tls.{handle_events}
use quic_web_rtc_like.Conn.{Status, ok, err, is_error}
use quic_web_rtc_like.Conn.Session.{udp_connection, open_session, open_server}
use quic_web_rtc_like.Conn.Tcp.{tcp_bind, bind_server, tcp_send, send_all, tcp_recv}
use quic_web_rtc_like.Ossl.State.{Data, Config, is_closed, get_timeout}
use quic_web_rtc_like.Ossl.Tls.{Tls, want_read}
use quic_web_rtc_like.Ossl.Setup.{St, init}
use quic_web_rtc_like.Ossl.Connect.{
  Callback, udp_recv_data, udp_data_sent, connect_quic, pre_connect, prepare_server, handshake,
  send_keep_alive,
}
use quic_web_rtc_like.Ossl.Close.{
  monotonic_ms, close_quic, disconnect, finish_shutdown, shutdown_rounds, shutdown_wait,
  record_close_status,
}
use quic_web_rtc_like.Ossl.Transfer.{process_events, udp_recv, udp_send, pending_data}
use quic_web_rtc_like.Ossl.Release.{deinit, release, close_tcp}
use quic_web_rtc_like.Ossl.Ended.{PastBy, disconnect-ends}
use quic_web_rtc_like.Ossl.Closed.{Ignores, IsReady, disconnect_final}
use quic_web_rtc_like.Ossl.Backend.{Failed, ossl_api, close_error-reported}
use quic_web_rtc_like.Ossl.Released.{closes, Released, Fresh, Inited, deinit_releases, init_lem}
use quic_web_rtc_like.Ossl.Relaying.{ossl_relays}
use quic_web_rtc_like.Conn.Relay.{Relayed, passed_on, told, taken}
use quic_web_rtc_like.Ossl.Punch.{probe, hole_punching, punch, conclude, discover, transient}
use quic_web_rtc_like.Ossl.Sent.{WritesWhole, shut, sent_over_quic}
use quic_web_rtc_like.Ossl.PeerClosed.{peer_close_ends}
use quic_web_rtc_like.Conn.Loop.{
  Loop, rounds, round, monotonic_us, run_events, drain, await, on_select, from_local, tcp_fd,
  from_peer, udp_fd, deliver, restart, drop_session, choose_timeout, watches, on_timeout,
}
use quic_web_rtc_like.Ossl.Tests.{echo, peer, connection}

-- A library whose calls all succeed; the peer closes the connection with the code 0.
abbrev pub library : Tls
library = record {
  object = λ t k. some 7;
  result = λ t k. pos 1;
  read = λ t h n. none;
  write = λ t h b. some (length b);
  error = λ t h. want_read;
  event_timeout = λ t h. none;
  close_info = λ t h. some 0;
  pending = λ t h. 0;
  set_ciphersuites = λ t h b. 1;
}

-- One whose calls all fail.
abbrev broken : Tls
broken = record library { object = λ t k. none; result = λ t k. pos 0; close_info = λ t h. none }

-- A clock that moves on by a second with every event.
abbrev pub ticking : Os
ticking = record echo { clock = λ t. some (length t, 0) }

abbrev pub ignore : Callback
ignore r b c = c

abbrev pub ignores : Ignores ignore
ignores r b c = refl

abbrev tunnel_data : Data ℕ ℕ
tunnel_data = record {
  closed = false;
  close_status = ok;
  ctx = some 1;
  listener = some 2;
  conn = some 0;
}

abbrev open_conn : St
open_conn = record connection { data_ptr = some tunnel_data }

abbrev ready_conn : IsReady open_conn tunnel_data
ready_conn = record {
  session = record { socket_fd = pos 3; ka_miss_threshold = pos 10; dst = peer; src = peer };
  has_session = refl;
  ctrl = record { mode = b's'; init = true };
  has_ctrl = refl;
  inited = refl;
  has_data = refl;
}

past_deadline :
    (started : ℕ) → monotonic_ms ticking [] ≡ some started → PastBy ticking (started + 5000) 5
unfolding monotonic_ms
past_deadline started e t late = inr (_, refl, grind arith)

disconnect-ends_example : (disconnect ticking broken ignore 6 open_conn).0 ≢ out_of_fuel
disconnect-ends_example =
    disconnect-ends ticking broken ignore 5 6 open_conn past_deadline (omega arith)

closes_at_once : (disconnect ticking library ignore 6 open_conn).0 ≡ returned ok
unfolding disconnect close_quic finish_shutdown shutdown_rounds shutdown_wait monotonic_ms
    record_close_status
closes_at_once = refl

disconnect_final_example :
    let c' = (disconnect ticking library ignore 6 open_conn).1 in
    IsReady c' (record tunnel_data { closed = true })
    × (disconnect ticking library ignore 1 c' ≡ (returned ok, c'))
disconnect_final_example =
    disconnect_final ticking library ignore ignores 6 1 open_conn tunnel_data ok ready_conn
      closes_at_once

ends_with_peer : (process_events library ignore ticking 6 open_conn).0 ≡ returned ok
unfolding disconnect close_quic finish_shutdown shutdown_rounds shutdown_wait monotonic_ms
    record_close_status process_events
ends_with_peer = refl

abbrev failed_data : Data ℕ ℕ
failed_data = record tunnel_data { close_status = err }

abbrev failed_conn : St
failed_conn = record connection { data_ptr = some failed_data }

close_error-reported_example :
    let c' = (udp_connection ticking (ossl_api ticking library ignore 6) 6 failed_conn).1 in
    Failed c'.data_ptr
    × ((deinit ticking library ignore 6 c').0 ≡ returned err → is_error err ≡ true)
close_error-reported_example =
    close_error-reported ticking library ignore (λ r b c failed. failed) 6 6 failed_conn err refl

-- A server's TCP session, whose descriptor stands in both fields.
abbrev bound : St
bound = record open_conn {
  tcp_session =
      some (record { socket_fd = pos 5; accepted_sock = pos 5; reuse = pos 1; local = peer });
}

abbrev bound_ready : IsReady bound tunnel_data
bound_ready = record {
  session = ready_conn.session;
  has_session = refl;
  ctrl = ready_conn.ctrl;
  has_ctrl = refl;
  inited = refl;
  has_data = refl;
}

bound_closes : (disconnect ticking library ignore 6 bound).0 ≡ returned ok
unfolding disconnect close_quic finish_shutdown shutdown_rounds shutdown_wait monotonic_ms
    record_close_status
bound_closes = refl

deinit_releases_example :
    let c1 = (disconnect ticking library ignore 6 bound).1 in
    ((deinit ticking library ignore 6 bound).0 ≡ returned ok)
    × Released
        (record tunnel_data { closed = true })
        bound_ready.session
        c1
        (deinit ticking library ignore 6 bound).1
deinit_releases_example =
    deinit_releases ticking library ignore ignores 6 bound tunnel_data ok bound_ready bound_closes

-- It is closed twice.
closed_twice : closes (deinit ticking library ignore 6 bound).1.trace ≡ pos 5 ∷ pos 5 ∷ pos 3 ∷ []
unfolding deinit release close_tcp disconnect close_quic finish_shutdown shutdown_rounds
    shutdown_wait monotonic_ms record_close_status
closed_twice = refl

abbrev not_yet : St
not_yet = record open_conn { ctrl = some (record { mode = b'c'; init = false }) }

init_lem_example :
    let (s, c') = init library ticking not_yet in
    (s ≡ ok → Fresh c'.data_ptr × Inited c'.ctrl) × (s ≢ ok → c'.ctrl ≡ not_yet.ctrl)
init_lem_example = init_lem ticking library not_yet

-- OpenSSL has two bytes at every read, and the other end's message comes at every read of three.
abbrev reading : Tls
reading = record library {
  read = λ t h n. some (1 ∷ 2 ∷ []);
  close_info = λ t h. none;
  event_timeout = λ t h. some (record { tv_sec = 1; tv_usec = 0 }, false);
}

abbrev tunnelled : St
tunnelled = record open_conn {
  tcp_session =
      some (record { socket_fd = pos 4; accepted_sock = pos 5; reuse = pos 1; local = peer });
}

abbrev tunnelling : Os
tunnelling = record ticking {
  answer = λ t c. elim c [ send fd b ↦ ret (length b) | _ ↦ ret 3 ];
  input = λ t fd n. if n == 3 then got probe else got (1 ∷ 2 ∷ []);
}

-- The peer's bytes come at every turn.
abbrev hearing : Os
hearing = record tunnelling { select = λ t fds tv. ready (pos 3 ∷ []) }

ossl_relays_example :
    let (o, c') = udp_connection hearing (ossl_api hearing reading ignore 4) 4 tunnelled in
    Relayed udp_recv_data o c'.trace
ossl_relays_example = ossl_relays hearing reading ignore ignores 4 tunnelled refl refl

-- Some have been passed on.
hears_some :
    passed_on (udp_connection hearing (ossl_api hearing reading ignore 4) 4 tunnelled).1.trace
    ≡ 1 ∷ 2 ∷ 1 ∷ 2 ∷ 1 ∷ 2 ∷ []
unfolding udp_connection open_session open_server tcp_bind bind_server hole_punching punch conclude
    discover transient connect_quic pre_connect prepare_server handshake monotonic_us rounds round
    run_events process_events drain await on_select from_local tcp_fd from_peer udp_fd deliver
    restart drop_session choose_timeout watches on_timeout udp_recv udp_send tcp_send send_all
    tcp_recv pending_data is_closed get_timeout send_keep_alive record_close_status disconnect
    close_quic finish_shutdown shutdown_rounds shutdown_wait monotonic_ms
hears_some = refl

-- The local end has two bytes at every turn, and OpenSSL takes all of them.
abbrev typing : Os
typing = record tunnelling { select = λ t fds tv. ready (pos 4 ∷ []) }

take_all : (b : Bytes) → take (length b) b ≡ b
take_all [] = refl
take_all (x ∷ b) = ap (λ l. x ∷ l) (take_all b)

library_writes : WritesWhole reading
library_writes t h b n taken_all = rw (← some_inj taken_all) (take_all b)
  where
    some_inj : {m k : ℕ} → some m ≡ some k → m ≡ k
    some_inj e = cc

sent_over_quic_example :
    let (o, c') = udp_connection typing (ossl_api typing reading ignore 4) 4 tunnelled in
    (rest : Bytes) × (taken c'.trace ≡ told udp_data_sent c'.trace ++ rest)
    × ((s : Status) → o ≡ returned s → shut c' ≡ false → rest ≡ [])
sent_over_quic_example =
    sent_over_quic typing reading ignore ignores library_writes 4 tunnelled refl refl

-- Some have been sent.
types_some :
    told udp_data_sent
      (udp_connection typing (ossl_api typing reading ignore 4) 4 tunnelled).1.trace
    ≡ 1 ∷ 2 ∷ 1 ∷ 2 ∷ 1 ∷ 2 ∷ []
unfolding udp_connection open_session open_server tcp_bind bind_server hole_punching punch conclude
    discover transient connect_quic pre_connect prepare_server handshake monotonic_us rounds round
    run_events process_events drain await on_select from_local tcp_fd from_peer udp_fd deliver
    restart drop_session choose_timeout watches on_timeout udp_recv udp_send tcp_send send_all
    tcp_recv pending_data is_closed get_timeout send_keep_alive record_close_status disconnect
    close_quic finish_shutdown shutdown_rounds shutdown_wait monotonic_ms
types_some = refl

-- The peer closes the connection with an error code.
abbrev aborted : Tls
aborted = record library { close_info = λ t h. some 5 }

abbrev running : Loop (Data ℕ ℕ) Config
running = record { conn = open_conn; threshold = 0; next_ka_us = 0 }

past_start :
    (started : ℕ)
    → monotonic_ms ticking (tls (handle_events 0) ∷ []) ≡ some started
    → PastBy ticking (started + 5000) 6
unfolding monotonic_ms
past_start started e t late = inr (_, refl, grind arith)

peer_close_ends_example :
    let (o, c') = rounds ticking (ossl_api ticking aborted ignore 7) 3 ready_conn.session running in
    (s : Status) × (o ≡ returned (if is_error s then s else ok))
    × IsReady c' (record tunnel_data { closed = true; close_status = s })
    × (◌≢◌ {A = ℕ} 5 0 → s ≡ err)
peer_close_ends_example =
    peer_close_ends ticking aborted ignore ignores 6 7 0 5 2 tunnel_data ready_conn.session running
      ready_conn refl refl refl (refl, refl, past_start) (omega arith)
