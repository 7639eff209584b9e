-- ===== src/Chownat/RelayTests.antt =====
-- The theorems on chownat as a relay at concrete inputs.
use quic_web_rtc_like.Base.{
  ℕ, ◌≤◌, ◌≡◌, refl, false, some, [], ◌∷◌, arith, length, zero, suc, get_elem?, flatten, take, ◌==◌,
  ◌++◌, Bytes, pos, if◌then◌else◌,
}
use quic_web_rtc_like.Sys.{Os, returned, got, ready}
use quic_web_rtc_like.Conn.{ok}
use quic_web_rtc_like.Conn.Api.{closes, udp_conn_init}
use quic_web_rtc_like.Conn.Tcp.{tcp_bind}
use quic_web_rtc_like.Chownat.Msg
use quic_web_rtc_like.Chownat.Setup.{connect, init}
use quic_web_rtc_like.Chownat.Punch.{hole_punching, client_rounds}
use quic_web_rtc_like.Conn.Session.{udp_connection, open_session, open_client}
use quic_web_rtc_like.Chownat.State.{mtu}
use quic_web_rtc_like.Chownat.Backend.{chownat_api, chownat-Valid}
use quic_web_rtc_like.Chownat.Invariant.{Valid, KeepsValid, cleared-IsValid}
use quic_web_rtc_like.Conn.Relay.{Relayed, passed_on, told, taken}
use quic_web_rtc_like.Conn.Relayed.{udp_connection-relays}
use quic_web_rtc_like.Chownat.Reason
use quic_web_rtc_like.Chownat.Assembly.{assembled}
use quic_web_rtc_like.Chownat.Relaying.{chownat_api-Relays}
use quic_web_rtc_like.Chownat.Received.{received_stream}
use quic_web_rtc_like.Chownat.Upload.{AllSet, shut, number}
use quic_web_rtc_like.Chownat.Sent.{chownat_api-Uploads, sent_stream}
use quic_web_rtc_like.Conn.Uploaded.{udp_connection-uploads}
use quic_web_rtc_like.Chownat.Genuine.{FromSender, Genuine, accepted, delivers_sent}
use quic_web_rtc_like.Chownat.Wire.{posted}
use quic_web_rtc_like.Chownat.EndToEnd.{FromWire, Delivers}
use quic_web_rtc_like.Chownat.Program.{tunnel}
use quic_web_rtc_like.Chownat.State.{St}
use quic_web_rtc_like.Conn.Loop.{
  monotonic_us, rounds, round, run_events, drain, await, on_select, from_local, tcp_fd, from_peer,
  udp_fd, deliver, restart, choose_timeout, watches, drop_session,
}
use quic_web_rtc_like.Conn.Tcp.{bind_client, tcp_send, send_all, tcp_recv}
use quic_web_rtc_like.Chownat.Setup.{cleared, is_closed, get_timeout}
use quic_web_rtc_like.Chownat.Disconnect.{disconnect_send, finish, request_rounds, close_positive}
use quic_web_rtc_like.Chownat.Transfer.{udp_recv, udp_send, dispatch, on_packet, next_number, store}
use quic_web_rtc_like.Chownat.Fixtures.{
  conn_with, data_at, silent, ignore, ignores, opened, payload, whole,
}

-- A client's session in which the first packet comes again and again.
abbrev repeating : Os
repeating = record silent {
  input = λ t fd n. if n == 3 then got Msg.confirm else got (Msg.packet 0 payload);
  answer = λ t c. whole c;
  select = λ t fds tv. ready (pos 3 ∷ []);
}

udp_connection-relays_example :
    let (o, c') = udp_connection repeating (chownat_api repeating ignore 9) 9 opened in
    Relayed Reason.udp_recv_data o c'.trace
udp_connection-relays_example =
    udp_connection-relays repeating (chownat_api repeating ignore 9) Reason.udp_recv_data
      (chownat_api-Relays repeating ignore ignores 9) 9 opened refl refl

received_stream_example :
    let (o, c') = udp_connection repeating (chownat_api repeating ignore 9) 9 opened in
    (rest : Bytes) × ((assembled c'.trace).1 ≡ passed_on c'.trace ++ rest)
    × (o ≡ returned ok → rest ≡ [])
received_stream_example =
    received_stream repeating ignore ignores 9 opened refl refl (refl, λ d has still. cc)

-- A client's session in which the local end sends the same two bytes at every turn.
abbrev talking : Os
talking = record silent {
  input = λ t fd n. if n == 3 then got Msg.confirm else got payload;
  answer = λ t c. whole c;
  select = λ t fds tv. ready (pos 0 ∷ []);
}

abbrev valid_conn : St
valid_conn = conn_with (cleared (data_at false 0))

abbrev ignore-KeepsValid : KeepsValid ignore
ignore-KeepsValid r b c v = v

chownat-Valid_example :
    Valid (udp_connection talking (chownat_api talking ignore 4) 4 valid_conn).1.data_ptr
chownat-Valid_example =
    chownat-Valid talking ignore 4 valid_conn ignore-KeepsValid (cleared-IsValid (data_at false 0))

-- Packets have been numbered and stored.
numbers_some : number (udp_connection talking (chownat_api talking ignore 4) 4 valid_conn).1 ≡ 3
unfolding udp_connection open_session open_client hole_punching tcp_bind client_rounds connect
    bind_client monotonic_us rounds round run_events drain await on_select from_local tcp_fd
    from_peer udp_fd deliver udp_recv dispatch on_packet tcp_send send_all is_closed restart
    get_timeout tcp_recv choose_timeout watches next_number disconnect_send finish request_rounds
    close_positive drop_session udp_send store
numbers_some = refl

sent_stream_example :
    let (_, c') = udp_connection talking (chownat_api talking ignore 9) 9 opened in
    (rest : Bytes) × (taken c'.trace ≡ told Reason.udp_data_sent c'.trace ++ rest)
    × (shut c' ≡ false → rest ≡ [])
sent_stream_example = sent_stream talking ignore ignores 9 opened refl refl

udp_connection-uploads_example :
    let (_, c') = udp_connection talking (chownat_api talking ignore 9) 9 opened in
    (rest : Bytes) × (taken c'.trace ≡ told Reason.udp_data_sent c'.trace ++ rest)
    × (Unit {0} → closes (chownat_api talking ignore 9) c' ≡ false → rest ≡ [])
udp_connection-uploads_example =
    udp_connection-uploads talking (chownat_api talking ignore 9) AllSet (λ o. Unit)
      Reason.udp_data_sent (chownat_api-Uploads talking ignore ignores 9) 9 opened refl refl

-- The packet that is read again and again is the sender's only one.
repeats_first :
    Genuine
      (payload ∷ [])
      (udp_connection repeating (chownat_api repeating ignore 3) 3 opened).1.trace
unfolding udp_connection open_session open_client hole_punching tcp_bind client_rounds connect
    bind_client monotonic_us rounds round run_events drain await on_select from_local tcp_fd
    from_peer udp_fd deliver udp_recv dispatch on_packet tcp_send send_all is_closed restart
    get_timeout tcp_recv choose_timeout watches next_number disconnect_send finish request_rounds
    close_positive drop_session
repeats_first =
    let first : FromSender (payload ∷ []) 0 (Msg.packet 0 payload) =
      λ tagged. (0, payload, refl, refl, omega arith, omega arith) in
    let again : FromSender (payload ∷ []) 1 (Msg.packet 0 payload) =
      λ tagged. (0, payload, refl, refl, omega arith, omega arith) in
    (((tt, λ short. absurd (ground arith)), λ e. first), λ e. again)

payload_fits : (j : ℕ) (p : Bytes) → get_elem? (payload ∷ []) j ≡ some p → length p ≤ mtu
payload_fits zero p carried = ground arith
payload_fits (suc j) p carried = absurd (ground arith)

delivers_sent_example :
    let (o, c') = udp_connection repeating (chownat_api repeating ignore 3) 3 opened in
    (rest : Bytes) × (flatten (take (accepted c'.trace) (payload ∷ []))
      ≡ passed_on c'.trace ++ rest)
    × (accepted c'.trace ≤ 1)
    × (o ≡ returned ok → rest ≡ [])
delivers_sent_example =
    delivers_sent (payload ∷ []) payload_fits repeating ignore ignores 3 opened refl refl
      (refl, λ d has still. cc) repeats_first

-- The connection before the initialisation.
abbrev before : St
before = record opened { ctrl = some (record { mode = b'c'; init = false }) }

-- What the talking end has sent first.
sends_first :
    get_elem?
      (posted
        (udp_connection talking (chownat_api talking ignore 4) 4 (init talking before).1).1.trace)
      0
    ≡ some (Msg.packet 0 payload, payload)
unfolding init udp_connection open_session open_client hole_punching tcp_bind client_rounds connect
    bind_client monotonic_us rounds round run_events drain await on_select from_local tcp_fd
    from_peer udp_fd deliver udp_recv dispatch on_packet tcp_send send_all is_closed restart
    get_timeout tcp_recv choose_timeout watches next_number disconnect_send finish request_rounds
    close_positive drop_session udp_send store
sends_first = refl

-- Each read of the other end is of that packet.
repeats_sent :
    Delivers
      (posted
        (udp_connection talking (chownat_api talking ignore 4) 4 (init talking before).1).1.trace)
      (udp_connection repeating
        (chownat_api repeating ignore 3)
        3
        (init repeating before).1).1.trace
unfolding init udp_connection open_session open_client hole_punching tcp_bind client_rounds connect
    bind_client monotonic_us rounds round run_events drain await on_select from_local tcp_fd
    from_peer udp_fd deliver udp_recv dispatch on_packet tcp_send send_all is_closed restart
    get_timeout tcp_recv choose_timeout watches next_number disconnect_send finish request_rounds
    close_positive drop_session
repeats_sent =
    let sent =
      posted
        (udp_connection talking (chownat_api talking ignore 4) 4 (init talking before).1).1.trace in
    let first : FromWire sent 0 (Msg.packet 0 payload) =
      λ tagged. (0, payload, sends_first, omega arith, omega arith) in
    let again : FromWire sent 1 (Msg.packet 0 payload) =
      λ tagged. (0, payload, sends_first, omega arith, omega arith) in
    (((tt, λ short. absurd (ground arith)), λ e. first), λ e. again)

tunnel_example :
    let api1 = chownat_api talking ignore 4 in
    let api2 = chownat_api repeating ignore 3 in
    let sender = (udp_connection talking api1 4 (udp_conn_init api1 before).1).1 in
    let (o, receiver) = udp_connection repeating api2 3 (udp_conn_init api2 before).1 in
    (rest : Bytes) × (taken sender.trace ≡ passed_on receiver.trace ++ rest)
    × (o ≡ returned ok
        → accepted receiver.trace ≡ length (posted sender.trace)
        → told Reason.udp_data_sent sender.trace ≡ passed_on receiver.trace)
unfolding init
tunnel_example =
    tunnel talking repeating ignore ignore ignores ignores 4 3 before before refl refl refl refl
      refl repeats_sent
