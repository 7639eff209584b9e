-- ===== src/Conn/Tests.antt =====
-- The theorems on udp_conn at concrete inputs, with a protocol that is closed by its first payload.
use quic_web_rtc_like.Base.{
  ◌≡◌, ◌≢◌, refl, Bool, true, false, Option, none, some, [], ◌∷◌, pos, length, arith,
}
use quic_web_rtc_like.Sys.{Os, ret, Addr, no_input, again, ready, returned, out_of_fuel}
use quic_web_rtc_like.Conn.{Status, ok, not_applicable, Conn}
use quic_web_rtc_like.Conn.{closed as status_closed}
use quic_web_rtc_like.Conn.Api.{Api, closes}
use quic_web_rtc_like.Conn.Ending.{udp_connection-closed}
use quic_web_rtc_like.Conn.Loop.{
  monotonic_us, rounds, round, run_events, drain, await, on_select, from_local, tcp_fd, from_peer,
  udp_fd, deliver,
}
use quic_web_rtc_like.Conn.Session.{udp_connection, open_session, open_client}
use quic_web_rtc_like.Conn.Tcp.{tcp_bind, tcp_send}
use quic_web_rtc_like.Conn.Written.{StopsInterrupting, Wrote, tcp_send-Wrote, tcp_send-ends}

abbrev peer : Addr
peer = record { sin_family = 2; sin_port = 5000; sin_addr = 1 }

-- The system takes two bytes at a time, and finds both descriptors readable.
abbrev system : Os
system = record {
  answer = λ t c. ret 2;
  input = λ t fd n. no_input again;
  message = λ t fd n. (no_input again, false);
  sock_type = λ t fd. none;
  sock_name = λ t fd. none;
  select = λ t fds tv. ready (pos 3 ∷ []);
  clock = λ t. some (length t, 0);
  fd_setsize = 1024;
  af_inet = 2;
  sock_dgram = 2;
  garbage = λ t. [];
}

-- The protocol's data say whether it is closed; there is no configuration.
abbrev protocol : Api Bool Unit
protocol = record {
  init = λ c. (ok, c);
  deinit = λ c. (returned ok, c);
  is_closed = λ c. shut c.data_ptr;
  get_timeout = λ c. (not_applicable, none, c);
  process_events = none;
  pending_data = none;
  hole_punching = λ c. (returned ok, c);
  connect = λ c. (ok, c);
  udp_send = λ b c. (ok, c);
  udp_recv = λ n c. (returned ok, some (1 ∷ 2 ∷ 3 ∷ []), record c { data_ptr = some true });
  send_keep_alive = λ c. (returned ok, c);
  disconnect = λ c. (returned ok, record c { data_ptr = some true });
}
  where
    shut : Option Bool → Status
    shut (some true) = status_closed
    shut (some false) = ok
    shut none = ok

abbrev connection : Conn Bool Unit
connection = record {
  udp_session =
      some (record { socket_fd = pos 3; ka_miss_threshold = pos 10; dst = peer; src = peer });
  tcp_session =
      some (record { socket_fd = pos 4; accepted_sock = pos 5; reuse = pos 1; local = peer });
  ctrl = some (record { mode = b'c'; init = true });
  config = some tt;
  data_ptr = some false;
  has_callback = true;
  trace = [];
}

udp_connection-closed_example :
    closes protocol (udp_connection system protocol 3 connection).1 ≡ true
unfolding udp_connection tcp_bind open_session open_client monotonic_us rounds round run_events
    drain await on_select from_local tcp_fd from_peer udp_fd deliver
udp_connection-closed_example = udp_connection-closed system protocol 3 connection refl

tcp_send-Wrote_example :
    let (o, c') = tcp_send system 4 (1 ∷ 2 ∷ 3 ∷ []) connection in
    Wrote (pos 5) (1 ∷ 2 ∷ 3 ∷ []) [] o c'.trace
tcp_send-Wrote_example =
    tcp_send-Wrote system 4 (1 ∷ 2 ∷ 3 ∷ []) connection
      (record { socket_fd = pos 4; accepted_sock = pos 5; reuse = pos 1; local = peer }) refl

never_interrupted : StopsInterrupting system 0
never_interrupted t fd b h = λ e. cc

tcp_send-ends_example : (tcp_send system 3 (1 ∷ 2 ∷ 3 ∷ []) connection).0 ≢ out_of_fuel
tcp_send-ends_example =
    tcp_send-ends system 0 3 (1 ∷ 2 ∷ 3 ∷ []) connection never_interrupted (omega arith)
