-- ===== src/Chownat/Fixtures.antt =====
-- Concrete systems and connections for the tests of the chownat modules.
use quic_web_rtc_like.Base.{ℕ, refl, Bool, true, false, some, [], ◌∷◌, Bytes, pos, length}
use quic_web_rtc_like.Sys.{Ret, Call, send, send_to, Os, ret, Addr, Input, no_input, again, ready}
use quic_web_rtc_like.Conn.{UdpSession, TcpSession}
use quic_web_rtc_like.Chownat.State.{Data, Config, St, Callback}
use quic_web_rtc_like.Chownat.Closing.{IsLive}
use quic_web_rtc_like.Chownat.Delivery.{Ignores}

abbrev pub peer : Addr
peer = record { sin_family = 2; sin_port = 5000; sin_addr = 1 }

-- Every call succeeds; every read gives the same answer.
abbrev pub system : Input → Os
system i = record {
  answer = λ t c. ret (length t);
  input = λ t fd n. i;
  message = λ t fd n. (i, false);
  sock_type = λ t fd. some 2;
  sock_name = λ t fd. some peer;
  select = λ t fds tv. ready [];
  clock = λ t. some (length t, 0);
  fd_setsize = 1024;
  af_inet = 2;
  sock_dgram = 2;
  garbage = λ t. 0 ∷ 0 ∷ 0 ∷ [];
}

abbrev pub silent : Os
silent = system (no_input again)

abbrev pub session : UdpSession
session = record { socket_fd = pos 3; ka_miss_threshold = pos 10; dst = peer; src = peer }

abbrev pub local_end : TcpSession
local_end = record { socket_fd = pos 4; accepted_sock = pos 5; reuse = pos 1; local = peer }

abbrev pub settings : Config
settings = record {
  udp_recv_timeout_sec = pos 1;
  reuse = pos 1;
  conn_max_attempts = pos 2;
  dconn_max_attempts = pos 2;
}

abbrev pub data_at : Bool → ℕ → Data
data_at closed n = record {
  closed = closed;
  id = n;
  expected = n;
  buffer = λ i. 9 ∷ 9 ∷ 9 ∷ [];
  sizes = λ i. 0;
}

abbrev pub conn_in : ℕ → Data → St
conn_in mode d = record {
  udp_session = some session;
  tcp_session = some local_end;
  ctrl = some (record { mode = mode; init = true });
  config = some settings;
  data_ptr = some d;
  has_callback = true;
  trace = [];
}

abbrev pub conn_with : Data → St
conn_with d = conn_in b'c' d

abbrev pub live : (d : Data) → IsLive (conn_with d) d
live d = record {
  session = session;
  has_session = refl;
  ctrl = record { mode = b'c'; init = true };
  has_ctrl = refl;
  inited = refl;
  config = settings;
  has_config = refl;
  has_data = refl;
}

abbrev pub ignore : Callback
ignore r b c = c

abbrev pub ignores : Ignores ignore
ignores r b c = refl

abbrev pub payload : Bytes
payload = 7 ∷ 8 ∷ []

abbrev pub opened : St
opened = conn_with (data_at false 0)

-- Everything is sent whole, and every other call gives 0.
abbrev pub whole : Call → Ret
whole (send_to fd b a) = ret (length b)
whole (send fd b) = ret (length b)
whole _ = ret 0
